-- ===== src/Attempts/Executions/Restart.antt =====
-- When an execution is made again under a key.
use mathlib.Core.Option.{none-ne-some, some-injective}
use ia_cstudio.Prelude.{
  ℕ, ◌≡◌, refl, sym, ap, ◌∙◌, subst, true, false, List, Option, none, some, if◌then◌else◌, arith,
  inl, inr, Bool-cases, String, Bool,
}
use ia_cstudio.Routing.Outcome.{DecisionStatus}
use ia_cstudio.Routing.Recorder.{is_allowed}
use ia_cstudio.Routing.Executor.{ToolCallResult, ExecutionResult}
use ia_cstudio.Attempts.Window.{Key, attempt_at, set_attempt, make_room}
use ia_cstudio.Attempts.Window.Keeps.{found-set, found-delete}
use ia_cstudio.Attempts.Window.Room.{make_room-subset}
use ia_cstudio.Attempts.Executions.{
  Attempt, Recorded, Store, new_store, same_bytes, Begun, AttemptError, restart, join,
  started_attempt, begin, Ended, record_result, finish, valid_execution_result,
  is_approval_required, is_none, is_done, Runs, Step, begins, ends, Steps, here, next,
}
use ia_cstudio.Attempts.Executions.Kept.{
  IsStore, begin-Begins, begin-join, settle-held, reached-IsStore,
}

-- The outcome of the attempt requires an approval; no tool was called.
abbrev pub IsUnexecuted : Attempt → Type 0
IsUnexecuted a =
    (r : Recorded) × (a.recorded ≡ some r)
    × (is_approval_required r.decision.status ≡ true)
    × (r.invoked ≡ false)
    × (r.result ≡ none)

abbrev Releases : Store → Type 0
Releases s =
    (key : Key) (a : Attempt)
    → attempt_at s.entries key ≡ some a
    → a.released ≡ true
    → IsUnexecuted a

approval_not_allowed :
    (status : DecisionStatus) → is_approval_required status ≡ true → is_allowed status ≡ false
approval_not_allowed DecisionStatus.approval_required e = refl
approval_not_allowed _ e = cc

none_result : (o : Option ToolCallResult) → is_none o ≡ true → o ≡ none
none_result none e = refl
none_result (some r) e = cc

unexecuted_result :
    (matches : String → String → Bool) (r : ExecutionResult)
    → valid_execution_result matches r ≡ true
    → is_approval_required r.route.decision.status ≡ true
    → (r.invoked ≡ false) × (r.result ≡ none)
unfolding valid_execution_result
unexecuted_result matches r good asks =
    let refuses = approval_not_allowed r.route.decision.status asks in
    (ground arith, none_result r.result (ground arith))

start-Releases :
    (key : Key) (fingerprint : List ℕ) (entries : List (Key × Attempt)) (t s : Store)
    → ((k : Key) (a : Attempt) → attempt_at entries k ≡ some a → attempt_at s.entries k ≡ some a)
    → t.entries ≡ set_attempt entries key (started_attempt fingerprint)
    → Releases s
    → Releases t
unfolding started_attempt
start-Releases key fingerprint entries t s from e old k a held released =
    elim (found-set entries key (started_attempt fingerprint) k a (rw e at held)) [
      | inl (same, new) ↦
          let clash : false ≡ true = ap (λ (x : Attempt). x.released) new ∙ released in cc
      | inr before ↦ old k a (from k a before) released
    ]

join-Releases :
    (key : Key) (fingerprint : List ℕ) (s : Store) (a : Attempt)
    → Releases s
    → Releases (join key fingerprint s a).0
unfolding join restart
join-Releases key fingerprint s a old = elim (Bool-cases (same_bytes a.fingerprint fingerprint)) [
  | inr differ ↦ rw (differ, join) old
  | inl same ↦ elim (Bool-cases a.released) [
    | inl released ↦
        rw (same, join)
          (rw released (
            start-Releases key fingerprint s.entries (restart key fingerprint s).0 s (λ k b h. h)
              refl old))
    | inr retained ↦ rw (same, join) (rw retained old)
  ]
]

begin-Releases :
    (key : Key) (fingerprint : List ℕ) (s : Store)
    → IsStore s
    → Releases s
    → Releases (begin key fingerprint s).0
begin-Releases key fingerprint s w old = elim (begin-Begins key fingerprint s w) [
  | inl (a, held, e) ↦ rw e (join-Releases key fingerprint s a old)
  | inr (inr (missing, full, empty, e)) ↦ rw e old
  | inr (inl (missing, room, e)) ↦
      start-Releases key fingerprint (make_room s).0.entries (begin key fingerprint s).0 s
        (λ k b. make_room-subset is_done s k b w) (ap (λ (x : Store × Begun). x.0.entries) e) old
]

-- An attempt that runs was not released.
pub running_retained :
    (b : Attempt) → (b.released ≡ true → IsUnexecuted b) → b.recorded ≡ none → b.released ≡ false
running_retained b old running = elim (Bool-cases b.released) [
  | inr retained ↦ retained
  | inl released ↦
      let (r, recorded, _, _, _) = old released in absurd (none-ne-some _ (sym running ∙ recorded))
]

recorded-Releases :
    (matches : String → String → Bool) (b : Attempt) (r : ExecutionResult)
    → b.released ≡ false
    → valid_execution_result matches r ≡ true
    → (record_result b r).released ≡ true
    → IsUnexecuted (record_result b r)
unfolding record_result
recorded-Releases matches b r retained good released =
    let asks : is_approval_required r.route.decision.status ≡ true = ground arith in
    let (idle, empty) = unexecuted_result _ r good asks in
    (
      record { decision = r.route.decision; invoked = r.invoked; result = r.result },
      refl,
      asks,
      idle,
      empty,
    )

finish-Releases :
    (matches : String → String → Bool) (key : Key) (ended : Ended) (b : Attempt) (s : Store)
    → Runs s key b
    → Releases s
    → Releases (finish matches key ended s).0
unfolding finish
finish-Releases matches key (Ended.failed e) b s running old =
    λ k a held. old k a (found-delete s.entries key k a held)
finish-Releases matches key Ended.panicked b s running old =
    λ k a held. old k a (found-delete s.entries key k a held)
finish-Releases matches key (Ended.returned r) b s (there, running) old =
    elim (Bool-cases (valid_execution_result matches r)) [
      | inr bad ↦ rw (bad, finish) (λ k a held. old k a (found-delete s.entries key k a held))
      | inl good ↦
          rw (good, finish)
            (rw (settle-held s.entries key r b there) (λ k a held released.
              elim (found-set s.entries key (record_result b r) k a held) [
                | inr before ↦ old k a before released
                | inl (same, new) ↦ subst IsUnexecuted new (
                    recorded-Releases _ b r (running_retained b (old key b there) running) good
                      (ap (λ (x : Attempt). x.released) new ∙ released))
              ]))
    ]

Step-Releases :
    {matches : String → String → Bool} {s t : Store}
    → Step matches s t
    → IsStore s
    → Releases s
    → Releases t
Step-Releases {s} (begins key fingerprint) w old = begin-Releases key fingerprint s w old
Step-Releases {s} (ends key ended a running) w old = finish-Releases _ key ended a s running old

pub reached-Releases :
    {matches : String → String → Bool} (max_entries : ℕ) {t : Store}
    → Steps matches (new_store max_entries) t
    → Releases t
unfolding new_store attempt_at
reached-Releases max_entries here = λ key a held released. cc
reached-Releases max_entries (next {t} r st) =
    Step-Releases st (reached-IsStore max_entries t r) (reached-Releases max_entries r)

-- A caller that begins with a key that has an attempt makes the execution again only if the attempt
-- was for the same fingerprint and its recorded outcome requires an approval, with no tool called and
-- no result.
restart-IsUnexecuted :
    {matches : String → String → Bool} (max_entries : ℕ) (t : Store)
    (r : Steps matches (new_store max_entries) t) (key : Key) (fingerprint : List ℕ) (a : Attempt)
    → attempt_at t.entries key ≡ some a
    → (begin key fingerprint t).1 ≡ Begun.started
    → (same_bytes a.fingerprint fingerprint ≡ true) × IsUnexecuted a
unfolding join
restart-IsUnexecuted max_entries t r key fingerprint a held starts =
    let joins : (join key fingerprint t a).1 ≡ Begun.started =
      rw (begin-join key fingerprint t a held) at starts in
    elim (Bool-cases (same_bytes a.fingerprint fingerprint)) [
      | inr differ ↦ let clash = rw (differ, join) at joins in cc
      | inl same ↦ elim (Bool-cases a.released) [
        | inl released ↦ (same, reached-Releases max_entries r key a held released)
        | inr retained ↦ let clash = rw retained at (rw (same, join) at joins) in cc
      ]
    ]

-- An execution that called its tool is not made again for its key as long as its attempt is retained:
-- a caller with the same fingerprint joins the attempt, another gets the conflict error, and the store
-- does not change.
pub executed_replayed :
    {matches : String → String → Bool} (max_entries : ℕ) (t : Store)
    (r : Steps matches (new_store max_entries) t) (key : Key) (fingerprint : List ℕ) (a : Attempt)
    (kept : Recorded)
    → attempt_at t.entries key ≡ some a
    → a.recorded ≡ some kept
    → kept.invoked ≡ true
    → begin key fingerprint t ≡ (
      t,
      if same_bytes a.fingerprint fingerprint
          then Begun.joined a
          else Begun.refused AttemptError.conflict,
    )
unfolding join
executed_replayed max_entries t r key fingerprint a kept held recorded invoked =
    elim (Bool-cases a.released) [
      | inl released ↦
          let (other, there, asks, idle, empty) =
            reached-Releases max_entries r key a held released in
          let is : other ≡ kept = some-injective _ _ (sym there ∙ recorded) in
          let clash : false ≡ true = sym idle ∙ ap (λ (x : Recorded). x.invoked) is ∙ invoked in cc
      | inr retained ↦
          rw (begin-join key fingerprint t a held)
            (elim (Bool-cases (same_bytes a.fingerprint fingerprint)) [
              | inr differ ↦ rw (differ, join) refl
              | inl same ↦ rw (same, join) (rw retained refl)
            ])
    ]
