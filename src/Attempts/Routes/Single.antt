-- ===== src/Attempts/Routes/Single.antt =====
-- A running attempt stays under its key until it ends.
use ia_cstudio.Prelude.{
  ◌≡◌, sym, ap, ◌∙◌, false, some, if◌then◌else◌, inl, inr, Bool-cases, Result, ok, err, ℕ,
}
use mathlib.Core.Option.{none-ne-some, some-injective}
use ia_cstudio.Routing.Policy.{Request}
use ia_cstudio.Routing.Outcome.{Decision}
use ia_cstudio.Routing.Recorder.{RouteError}
use ia_cstudio.Attempts.Window.{Key, same_key, attempt_at, make_room}
use ia_cstudio.Attempts.Window.Keeps.{same_key→eq, attempt-set, attempt-delete}
use ia_cstudio.Attempts.Window.Room.{make_room-kept}
use ia_cstudio.Attempts.Routes.{
  Attempt, Store, new_store, same_request, Begun, AttemptError, started_attempt, begin, finish,
  is_done, Runs, begins, ends, Steps, here, next,
}
use ia_cstudio.Attempts.Routes.Kept.{
  IsValid, begin-Begins, Steps-IsValid, new-IsValid, decide-held, open_attempt,
}

-- No step of the sequence is the end of the attempt under the key.
abbrev pub NoEnd : Key → {s t : Store} → Steps s t → Type 0
NoEnd key here = Unit
NoEnd key (next r (begins k request)) = NoEnd key r
NoEnd key (next r (ends k outcome a running)) = (same_key k key ≡ false) × NoEnd key r

begin-kept :
    (key : Key) (a : Attempt) (k : Key) (request : Request) (s : Store)
    → IsValid s
    → Runs s key a
    → Runs (begin k request s).0 key a
begin-kept key a k request s w (held, running) = elim (begin-Begins k request s w) [
  | inl (b, there, e) ↦ rw e (held, running)
  | inr (inr (missing, full, empty, e)) ↦ rw e (held, running)
  | inr (inl (missing, room, e)) ↦
      let stays = make_room-kept is_done s key a w held (open_attempt a running) in
      let apart : same_key k key ≡ false = elim (Bool-cases (same_key k key)) [
        | inr differ ↦ differ
        | inl same ↦ absurd (
            none-ne-some _
              (sym missing ∙ ap (attempt_at s.entries) (same_key→eq k key same) ∙ held))
      ] in
      rw e (
        rw (attempt-set (make_room s).0.entries k (started_attempt request) key, apart) stays,
        running,
      )
]

finish-kept :
    (key : Key) (a : Attempt) (k : Key) (outcome : Result RouteError Decision) (b : Attempt)
    (s : Store)
    → Runs s k b
    → same_key k key ≡ false
    → Runs s key a
    → Runs (finish k outcome s) key a
unfolding finish
finish-kept key a k (ok d) b s (there, _) apart (held, running) = (
  rw
      (
        decide-held s.entries k d b there,
        attempt-set s.entries k (record b { decision = some d }) key,
        apart,
      )
      held,
  running,
)
finish-kept key a k (err e) b s (there, _) apart (held, running) =
    (rw (attempt-delete s.entries k key, apart) held, running)

pub running_kept :
    (key : Key) (a : Attempt) {s t : Store} (r : Steps s t)
    → IsValid s
    → NoEnd key r
    → Runs s key a
    → Runs t key a
running_kept key a here w n h = h
running_kept key a (next {t} r (begins k request)) w n h =
    begin-kept key a k request t (Steps-IsValid r w) (running_kept key a r w n h)
running_kept key a (next {t} r (ends k outcome b running)) w (apart, n) h =
    finish-kept key a k outcome b t running apart (running_kept key a r w n h)

-- While a caller runs `route` for a key, in any store that is reached from a new one, and until it
-- ends, whatever the other callers do: a caller that begins with the key does not call `route`; it
-- joins the running attempt if its request is the same, and gets the conflict error if not, and the
-- store does not change.
pub single_flight :
    (max_entries : ℕ) (s t : Store) (reached : Steps (new_store max_entries) s) (later : Steps s t)
    (key : Key) (a : Attempt) (request : Request)
    → Runs s key a
    → NoEnd key later
    → begin key request t ≡ (
      t,
      if same_request a.request request
          then Begun.joined a
          else Begun.refused AttemptError.conflict,
    )
single_flight max_entries s t reached later key a request running n =
    let w = Steps-IsValid reached (new-IsValid max_entries) in
    let (held, _) = running_kept key a later w n running in
    elim (begin-Begins key request t (Steps-IsValid later w)) [
      | inl (b, there, e) ↦
          e
          ∙ ap
              (λ (c : Attempt). (
                t,
                if same_request c.request request
                    then Begun.joined c
                    else Begun.refused AttemptError.conflict,
              ))
              (some-injective _ _ (sym there ∙ held))
      | inr (inl (missing, room, e)) ↦ absurd (none-ne-some _ (sym missing ∙ held))
      | inr (inr (missing, full, empty, e)) ↦ absurd (none-ne-some _ (sym missing ∙ held))
    ]
