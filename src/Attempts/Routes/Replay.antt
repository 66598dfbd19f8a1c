-- ===== src/Attempts/Routes/Replay.antt =====
-- Which decisions a caller is given that joins an attempt.
use mathlib.Core.Option.{none-ne-some, some-injective}
use ia_cstudio.Prelude.{
  Option, Option-cases, Result, if◌then◌else◌, Bool-cases, ◌≡◌, sym, ap, ◌∙◌, ◌⊎◌, true, none, some,
  inl, inr, Bool-cases, ok, err, ℕ,
}
use ia_cstudio.Routing.Policy.{Request}
use ia_cstudio.Routing.Outcome.{Decision}
use ia_cstudio.Attempts.Window.{Key, same_key, attempt_at, make_room}
use ia_cstudio.Routing.Recorder.{RouteError}
use ia_cstudio.Attempts.Window.Keeps.{same_key→eq, found-set, found-delete}
use ia_cstudio.Attempts.Window.Room.{make_room-subset}
use ia_cstudio.Attempts.Routes.{
  Attempt, Store, Runs, new_store, same_request, Begun, started_attempt, begin, finish, is_done,
  begins, ends, Steps, here, next,
}
use ia_cstudio.Attempts.Routes.Kept.{IsValid, begin-Begins, Steps-IsValid, new-IsValid, decide-held}
use ia_cstudio.Attempts.Routes.Single.{NoEnd, running_kept}

-- Some step of the sequence ended an attempt for the key and the request with the decision.
abbrev pub Decided : Key → Request → Decision → {s t : Store} → Steps s t → Type 0
Decided key request d here = ⊥
Decided key request d (next r (begins k q)) = Decided key request d r
Decided key request d (next r (ends k outcome a running)) =
    ((k ≡ key) × (a.request ≡ request) × (outcome ≡ ok d)) ⊎ Decided key request d r

begin-decided :
    (key : Key) (a : Attempt) (d : Decision) (k : Key) (request : Request) (s : Store)
    → IsValid s
    → attempt_at (begin k request s).0.entries key ≡ some a
    → a.decision ≡ some d
    → attempt_at s.entries key ≡ some a
unfolding started_attempt
begin-decided key a d k request s w held decided = elim (begin-Begins k request s w) [
  | inl (b, there, e) ↦ rw e at held
  | inr (inr (missing, full, empty, e)) ↦ rw e at held
  | inr (inl (missing, room, e)) ↦
      elim (found-set (make_room s).0.entries k (started_attempt request) key a (rw e at held)) [
        | inr before ↦ make_room-subset is_done s key a w before
        | inl (same, new) ↦
            let undecided : a.decision ≡ none = sym (ap (λ (x : Attempt). x.decision) new) in
            absurd (none-ne-some _ (sym undecided ∙ decided))
      ]
]

-- A decision that the store holds was recorded by the end of an attempt for that request.
pub held-Decided :
    (max_entries : ℕ) {t : Store} (r : Steps (new_store max_entries) t) (key : Key) (a : Attempt)
    (d : Decision)
    → attempt_at t.entries key ≡ some a
    → a.decision ≡ some d
    → Decided key a.request d r
unfolding new_store attempt_at finish started_attempt
held-Decided max_entries here key a d held decided = cc
held-Decided max_entries (next {t} r (begins k request)) key a d held decided =
    held-Decided max_entries r key a d
      (begin-decided key a d k request t (Steps-IsValid r (new-IsValid max_entries)) held decided)
      decided
held-Decided max_entries (next {t} r (ends k (ok d') b (there, running))) key a d held decided =
    elim (found-set t.entries k (record b { decision = some d' }) key a
      (rw (decide-held t.entries k d' b there) at held)) [
        | inr before ↦ inr (held-Decided max_entries r key a d before decided)
        | inl (same, is) ↦ inl (
          same,
          ap (λ (x : Attempt). x.request) is,
          ap ok (some-injective _ _ (ap (λ (x : Attempt). x.decision) is ∙ decided)),
        )
      ]
held-Decided max_entries (next {t} r (ends k (err e) b (there, running))) key a d held decided =
    inr (held-Decided max_entries r key a d (found-delete t.entries k key a held) decided)

-- What the sequence of steps does to a caller that waits for the attempt under the key: the outcome of
-- the first end of that attempt, if there is one.
abbrev pub answered : Key → {s t : Store} → Steps s t → Option (Result RouteError Decision)
answered key here = none
answered key (next r (begins k request)) = answered key r
answered key (next r (ends k outcome a running)) = elim (answered key r) [
  | some earlier ↦ some earlier
  | none ↦ if same_key k key then some outcome else none
]

-- What a caller that joined an attempt is given, after some steps: the decision that the attempt had,
-- or else the outcome of its end.
abbrev pub given : Key → Attempt → {s t : Store} → Steps s t → Option (Result RouteError Decision)
given key a r = elim a.decision [ some d ↦ some (ok d) | none ↦ answered key r ]

unanswered-NoEnd : (key : Key) {s t : Store} (r : Steps s t) → answered key r ≡ none → NoEnd key r
unanswered-NoEnd key here e = tt
unanswered-NoEnd key (next r (begins k request)) e = unanswered-NoEnd key r e
unanswered-NoEnd key (next r (ends k outcome a running)) e = elim (Option-cases (answered key r)) [
  | inr (o, earlier) ↦ absurd (none-ne-some _ (sym (rw earlier at e)))
  | inl silent ↦ elim (Bool-cases (same_key k key)) [
    | inl same ↦ absurd (none-ne-some _ (sym (rw (silent, same) at e)))
    | inr apart ↦ (apart, unanswered-NoEnd key r silent)
  ]
]

-- The end that answers a waiting caller is that of the attempt that the caller joined.
answered-Decided :
    (key : Key) (a : Attempt) (d : Decision) {s t : Store} (r : Steps s t)
    → IsValid s
    → Runs s key a
    → answered key r ≡ some (ok d)
    → Decided key a.request d r
answered-Decided key a d here w running e = absurd (none-ne-some _ e)
answered-Decided key a d (next r (begins k request)) w running e =
    answered-Decided key a d r w running e
answered-Decided key a d (next {t} r (ends k outcome b (there, open_b))) w running e =
    elim (Option-cases (answered key r)) [
      | inr (o, earlier) ↦ inr (answered-Decided key a d r w running (earlier ∙ rw earlier at e))
      | inl silent ↦ elim (Bool-cases (same_key k key)) [
        | inr apart ↦ absurd (none-ne-some _ (rw (silent, apart) at e))
        | inl same ↦
            let (held, _) = running_kept key a r w (unanswered-NoEnd key r silent) running in
            let is : k ≡ key = same_key→eq k key same in
            let one : b ≡ a =
              some-injective _ _ (sym there ∙ ap (attempt_at t.entries) is ∙ held) in
            inl
              (is, ap (λ (x : Attempt). x.request) one, some-injective _ _ (rw (silent, same) at e))
      ]
    ]

given-Decided :
    (max_entries : ℕ) (t u : Store) (r : Steps (new_store max_entries) t) (more : Steps t u)
    (key : Key) (a : Attempt) (d : Decision)
    → attempt_at t.entries key ≡ some a
    → given key a more ≡ some (ok d)
    → Decided key a.request d r ⊎ Decided key a.request d more
given-Decided max_entries t u r more key a d held e = elim (Option-cases a.decision) [
  | inr (d', had) ↦
      let is : d' ≡ d = (let says = some-injective _ _ (rw had at e) in cc) in
      inl (held-Decided max_entries r key a d held (had ∙ ap some is))
  | inl running ↦ inr (
      answered-Decided key a d more (Steps-IsValid r (new-IsValid max_entries)) (held, running)
        (rw running at e))
]

-- A caller that joins an attempt, decided or still running, is given a decision, at once or after any
-- steps of other callers, only if its request equals that of the attempt and a call of `route` for the
-- same key and that request ended with this decision: before the caller joined, or, for a running
-- attempt, among the steps that follow.
pub replay-Decided :
    (max_entries : ℕ) (t u : Store) (r : Steps (new_store max_entries) t) (more : Steps t u)
    (key : Key) (request : Request) (a : Attempt) (d : Decision)
    → begin key request t ≡ (t, Begun.joined a)
    → given key a more ≡ some (ok d)
    → (same_request a.request request ≡ true)
      × (Decided key a.request d r ⊎ Decided key a.request d more)
replay-Decided max_entries t u r more key request a d e told =
    let w = Steps-IsValid r (new-IsValid max_entries) in
    elim (begin-Begins key request t w) [
      | inl (b, held, begun) ↦ elim (Bool-cases (same_request b.request request)) [
        | inr differ ↦ let clash = rw (begun, differ) at e in cc
        | inl same ↦
            let is : b ≡ a = (let joins = rw (begun, same) at e in cc) in
            (
              ap (λ (x : Attempt). same_request x.request request) (sym is) ∙ same,
              given-Decided max_entries t u r more key a d (held ∙ ap some is) told,
            )
      ]
      | inr (inl (missing, room, begun)) ↦ let clash = rw begun at e in cc
      | inr (inr (missing, full, empty, begun)) ↦ let clash = rw begun at e in cc
    ]
