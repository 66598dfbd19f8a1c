-- ===== src/Attempts/Executions/Single.antt =====
-- A running execution stays under its key until it ends.
use mathlib.Core.Option.{none-ne-some, some-injective}
use ia_cstudio.Prelude.{
  ℕ, ◌≡◌, refl, sym, ap, ◌∙◌, true, false, List, some, if◌then◌else◌, inl, inr, Bool-cases, String,
  Bool,
}
use ia_cstudio.Attempts.Window.{Key, same_key, attempt_at, delete_attempt, make_room}
use ia_cstudio.Attempts.Window.Keeps.{same_key→eq, attempt-set, attempt-delete}
use ia_cstudio.Attempts.Window.Room.{make_room-kept}
use ia_cstudio.Attempts.Executions.{
  Attempt, Store, new_store, same_bytes, Begun, AttemptError, restart, join, started_attempt, begin,
  Ended, record_result, finish, valid_execution_result, is_done, Runs, begins, ends, Steps, here,
  next,
}
use ia_cstudio.Attempts.Executions.Kept.{
  IsStore, begin-Begins, begin-join, settle-held, open_attempt, reached-IsStore,
}
use ia_cstudio.Attempts.Executions.Restart.{reached-Releases, running_retained}

-- No step of the sequence is the end of the attempt under the key.
abbrev pub NoEnd :
    {matches : String → String → Bool} → Key → {s t : Store} → Steps matches s t → Type 0
NoEnd key here = Unit
NoEnd key (next r (begins k fingerprint)) = NoEnd key r
NoEnd key (next r (ends k ended a running)) = (same_key k key ≡ false) × NoEnd key r

-- A key that is held has no other name.
apart_keys :
    (s : Store) (k key : Key) (a b : Attempt)
    → attempt_at s.entries k ≡ some a
    → a.released ≡ true
    → attempt_at s.entries key ≡ some b
    → b.released ≡ false
    → same_key k key ≡ false
apart_keys s k key a b there released held retained = elim (Bool-cases (same_key k key)) [
  | inr differ ↦ differ
  | inl same ↦
      let is : a ≡ b =
        some-injective _ _
          (sym there ∙ ap (attempt_at s.entries) (same_key→eq k key same) ∙ held) in
      let clash : true ≡ false = sym released ∙ ap (λ (x : Attempt). x.released) is ∙ retained in cc
]

join-kept :
    (key : Key) (b : Attempt) (k : Key) (fingerprint : List ℕ) (a : Attempt) (s : Store)
    → attempt_at s.entries k ≡ some a
    → b.released ≡ false
    → Runs s key b
    → Runs (join k fingerprint s a).0 key b
unfolding join restart
join-kept key b k fingerprint a s there retained (held, running) =
    elim (Bool-cases (same_bytes a.fingerprint fingerprint)) [
      | inr differ ↦ rw (differ, join) (held, running)
      | inl same ↦ elim (Bool-cases a.released) [
        | inr stays ↦ rw (same, join) (rw stays (held, running))
        | inl released ↦
            let apart = apart_keys s k key a b there released held retained in
            rw (same, join)
              (rw released (
                rw (attempt-set s.entries k (started_attempt fingerprint) key, apart) held,
                running,
              ))
      ]
    ]

begin-kept :
    (key : Key) (b : Attempt) (k : Key) (fingerprint : List ℕ) (s : Store)
    → IsStore s
    → b.released ≡ false
    → Runs s key b
    → Runs (begin k fingerprint s).0 key b
begin-kept key b k fingerprint s w retained (held, running) =
    elim (begin-Begins k fingerprint s w) [
      | inl (a, there, e) ↦ rw e (join-kept key b k fingerprint a s there retained (held, running))
      | inr (inr (missing, full, empty, e)) ↦ rw e (held, running)
      | inr (inl (missing, room, e)) ↦
          let stays = make_room-kept is_done s key b w held (open_attempt b running) in
          let apart : same_key k key ≡ false = elim (Bool-cases (same_key k key)) [
            | inr differ ↦ differ
            | inl same ↦ absurd (
                none-ne-some _
                  (sym missing ∙ ap (attempt_at s.entries) (same_key→eq k key same) ∙ held))
          ] in
          rw e (
            rw (attempt-set (make_room s).0.entries k (started_attempt fingerprint) key, apart)
                stays,
            running,
          )
    ]

deleted-kept :
    (key k : Key) (b : Attempt) (s : Store)
    → same_key k key ≡ false
    → attempt_at s.entries key ≡ some b
    → attempt_at (delete_attempt s.entries k) key ≡ some b
deleted-kept key k b s apart held = rw (attempt-delete s.entries k key, apart) held

finish-kept :
    (matches : String → String → Bool) (key : Key) (b : Attempt) (k : Key) (ended : Ended)
    (a : Attempt) (s : Store)
    → Runs s k a
    → same_key k key ≡ false
    → Runs s key b
    → Runs (finish matches k ended s).0 key b
unfolding finish
finish-kept matches key b k (Ended.failed e) a s there apart (held, running) =
    (deleted-kept key k b s apart held, running)
finish-kept matches key b k Ended.panicked a s there apart (held, running) =
    (deleted-kept key k b s apart held, running)
finish-kept matches key b k (Ended.returned r) a s (there, _) apart (held, running) =
    elim (Bool-cases (valid_execution_result matches r)) [
      | inr bad ↦ rw (bad, finish) (deleted-kept key k b s apart held, running)
      | inl good ↦
          rw (good, finish)
            (
              rw
                  (
                    settle-held s.entries k r a there,
                    attempt-set s.entries k (record_result a r) key,
                    apart,
                  )
                  held,
              running,
            )
    ]

retained_now :
    {matches : String → String → Bool} (max_entries : ℕ) {t : Store}
    (r : Steps matches (new_store max_entries) t) (key : Key) (b : Attempt)
    → Runs t key b
    → b.released ≡ false
retained_now max_entries r key b (held, running) =
    running_retained b (reached-Releases max_entries r key b held) running

joined_steps :
    {matches : String → String → Bool} {s t u : Store}
    → Steps matches s t
    → Steps matches t u
    → Steps matches s u
joined_steps r here = r
joined_steps r (next later st) = next (joined_steps r later) st

running_kept :
    {matches : String → String → Bool} (max_entries : ℕ) (key : Key) (b : Attempt) {s t : Store}
    (r : Steps matches (new_store max_entries) s) (later : Steps matches s t)
    → NoEnd key later
    → Runs s key b
    → Runs t key b
running_kept max_entries key b r here n h = h
running_kept max_entries key b r (next {t} later (begins k fingerprint)) n h =
    let now = running_kept max_entries key b r later n h in
    let all_steps = joined_steps r later in
    begin-kept key b k fingerprint t (reached-IsStore max_entries t all_steps)
      (retained_now max_entries all_steps key b now) now
running_kept max_entries key b r (next {t} later (ends k ended a running)) (apart, n) h =
    finish-kept _ key b k ended a t running apart (running_kept max_entries key b r later n h)

-- While a caller runs an execution for a key, in any store that is reached from a new one, and until
-- it ends, whatever the other callers do: a caller that begins with the key does not run it; it joins
-- the running attempt if its fingerprint is the same, and gets the conflict error if not, and the
-- store does not change.
pub single_execution :
    {matches : String → String → Bool} (max_entries : ℕ) (s t : Store)
    (reached : Steps matches (new_store max_entries) s) (later : Steps matches s t) (key : Key)
    (b : Attempt) (fingerprint : List ℕ)
    → Runs s key b
    → NoEnd key later
    → begin key fingerprint t ≡ (
      t,
      if same_bytes b.fingerprint fingerprint
          then Begun.joined b
          else Begun.refused AttemptError.conflict,
    )
unfolding join
single_execution max_entries s t reached later key b fingerprint running n =
    let now = running_kept max_entries key b reached later n running in
    let retained = retained_now max_entries (joined_steps reached later) key b now in
    rw (begin-join key fingerprint t b now.0)
      (elim (Bool-cases (same_bytes b.fingerprint fingerprint)) [
        | inr differ ↦ rw (differ, join) refl
        | inl same ↦ rw (same, join) (rw retained refl)
      ])
