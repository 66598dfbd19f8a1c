-- ===== src/Runs/Updates.antt =====
-- `update` of internal/agentruns/store.go and the map of runs.
use ia_cstudio.Prelude.{
  ℕ, ◌≡◌, refl, sym, ◌∙◌, String, none, some, arith, Bool-cases, inl, inr, ◌==◌, eq_iff,
  if◌then◌else◌, Result, ok, err, Result-cases, Option-cases,
}
use ia_cstudio.Runs.Types.{Run, Time, Error}
use ia_cstudio.Runs.Changes
use ia_cstudio.Runs.Store.{Store, Host, find, put, update}
use ia_cstudio.Runs.Map.{find-put}
use ia_cstudio.Runs.Effect.{Mutation}
use ia_cstudio.Runs.Queue.{IsQueue}

-- No closure changes a run's id.
pub id-Mutation :
    {host : Host} {mutate : Run → Time → Result Error Run} (r : Run) (now : Time) {r' : Run}
    → Mutation host mutate
    → mutate r now ≡ ok r'
    → r'.id ≡ r.id
unfolding Changes.set_status Changes.cancel Changes.fail Changes.add_log Changes.consume
    Changes.add_patch Changes.add_approval Changes.decide_approval
id-Mutation r now (Mutation.set_status status v) e = ground arith
id-Mutation r now _ e = ground arith

-- the run that `update` stores
abbrev pub stamped : Run → Time → Run
stamped r now = record r { updated_at = now }

-- What `update` finds under an id afterwards: the same run, or the changed one.
pub data Found (host : Host) (now : Time) (r u : Run) : Type 0 where
  kept : u ≡ r → Found host now r u
  changed :
      {mutate : Run → Time → Result Error Run} (r' : Run)
      → Mutation host mutate
      → mutate r now ≡ ok r'
      → u ≡ stamped r' now
      → Found host now r u

module _ (id : String) (mutate : Run → Time → Result Error Run) (s : Store) (now : Time) where
  pub update_missing : find id s.runs ≡ none → update id mutate s now ≡ (s, err Error.not_found)
  unfolding update
  update_missing e = rw (e, update)

  pub update_failed :
      (r : Run) (x : Error)
      → find id s.runs ≡ some r
      → mutate r now ≡ err x
      → update id mutate s now ≡ (s, err x)
  unfolding update
  update_failed r x held failed = rw (held, update) (rw failed)

  pub update_done :
      (r r' : Run)
      → find id s.runs ≡ some r
      → mutate r now ≡ ok r'
      → update id mutate s now
        ≡ (record s { runs = put id (stamped r' now) s.runs }, ok (stamped r' now))
  unfolding update
  update_done r r' held done = rw (held, update) (rw done)

  -- An id that is not held stays so.
  pub find-update-none :
      (j : String) → find j s.runs ≡ none → find j (update id mutate s now).0.runs ≡ none
  find-update-none j e = elim (Option-cases (find id s.runs)) [
    | inl missing ↦ rw (update_missing missing) e
    | inr (r, held) ↦ elim (Result-cases (mutate r now)) [
      | inl (r', done) ↦
          rw (update_done r r' held done) (find-put id j _ s.runs ∙ ground (arith, eq_iff id j))
      | inr (x, failed) ↦ rw (update_failed r x held failed) e
    ]
  ]

  -- A run that is held stays, or changes by the closure.
  pub find-update-some :
      {host : Host}
      → Mutation host mutate
      → (j : String) (r : Run) → find j s.runs ≡ some r
      → (u : Run) × (find j (update id mutate s now).0.runs ≡ some u) × Found host now r u
  find-update-some m j r e = elim (Option-cases (find id s.runs)) [
    | inl missing ↦ (r, rw (update_missing missing) e, kept refl)
    | inr (old, held) ↦ elim (Result-cases (mutate old now)) [
      | inr (x, failed) ↦ (r, rw (update_failed old x held failed) e, kept refl)
      | inl (r', done) ↦
          let put_at : find j (update id mutate s now).0.runs
              ≡ (if id == j then some (stamped r' now) else find j s.runs) =
            rw (update_done old r' held done) (find-put id j (stamped r' now) s.runs) in
          elim (Bool-cases (id == j)) [
            | inr other ↦ (r, put_at ∙ rw other e, kept refl)
            | inl same ↦
                let is : old ≡ r = ground (arith, eq_iff id j) in
                (stamped r' now, put_at ∙ rw same refl, changed r' m (rw is at done) refl)
          ]
    ]
  ]

  -- The store is a queue of the same ids afterwards.
  pub update-IsQueue :
      {host : Host} {oldest count : ℕ}
      → Mutation host mutate
      → IsQueue s oldest count
      → IsQueue (update id mutate s now).0 oldest count
  update-IsQueue m q = elim (Option-cases (find id s.runs)) [
    | inl missing ↦ rw (update_missing missing) q
    | inr (old, held) ↦ elim (Result-cases (mutate old now)) [
      | inr (x, failed) ↦ rw (update_failed old x held failed) q
      | inl (r', done) ↦ rw (update_done old r' held done) (record {
        order_ids = q.order_ids;
        newest = q.newest;
        room = q.room;
        keys =
            λ j. rw (find-put id j (stamped r' now) s.runs) (ground (arith, eq_iff id j, q.keys j));
        own = λ j r e. ground (
          arith,
          sym (find-put id j (stamped r' now) s.runs) ∙ e,
          q.own j r,
          q.own id old held,
          id-Mutation old now m done,
          eq_iff id j,
        );
      })
    ]
  ]
