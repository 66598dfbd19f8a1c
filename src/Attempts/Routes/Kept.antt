-- ===== src/Attempts/Routes/Kept.antt =====
-- What the steps of the route store do to its entries, and the invariant.
use ia_cstudio.Prelude.{
  ℕ, ◌≡◌, refl, ap, ◌∙◌, ◌⊎◌, Bool, true, false, List, [], none, some, if◌then◌else◌, length, arith,
  inl, inr, Option-cases, Result, ok, err,
}
use ia_cstudio.Routing.Policy.{Request}
use ia_cstudio.Routing.Outcome.{Decision}
use ia_cstudio.Routing.Recorder.{RouteError}
use ia_cstudio.Attempts.Window.{Key, attempt_at, set_attempt, make_room, member}
use ia_cstudio.Attempts.Window.Valid.{IsWindow, start-IsWindow, complete-IsWindow, forget-IsWindow}
use ia_cstudio.Attempts.Window.Room.{make_room-Roomed, make_room-IsWindow, make_room-none}
use ia_cstudio.Attempts.Routes.{
  Attempt, Store, new_store, same_request, Begun, AttemptError, start, started_attempt, begin,
  decide_attempt, finish, is_done, Runs, Step, begins, ends, Steps, here, next,
}

abbrev pub IsValid : Store → Type 0
IsValid s = IsWindow is_done s

pub new-IsValid : (max_entries : ℕ) → IsValid (new_store max_entries)
unfolding new_store attempt_at member
new-IsValid max_entries = record {
  positive = ground arith;
  bounded = omega arith;
  settled = λ k. refl;
  distinct = tt;
}

abbrev with_attempt : Store → Key → Request → Store
with_attempt s key request = record s {
  entries = set_attempt s.entries key (started_attempt request);
}

-- `begin` joins the attempt under the key or refuses another request for it; without one it starts an
-- attempt where there is room, and refuses where every attempt allowed is running.
abbrev pub Begins : Key → Request → Store → Type 0
Begins key request s =
    ((a : Attempt) × (attempt_at s.entries key ≡ some a)
      × (begin key request s ≡ (
        s,
        if same_request a.request request
            then Begun.joined a
            else Begun.refused AttemptError.conflict,
      )))
    ⊎ ((attempt_at s.entries key ≡ none)
        × ((make_room s).1 ≡ true)
        × (begin key request s ≡ (with_attempt (make_room s).0 key request, Begun.started)))
    ⊎ ((attempt_at s.entries key ≡ none)
        × (length s.entries ≡ s.max_entries)
        × (s.completed ≡ [])
        × (begin key request s ≡ (s, Begun.refused AttemptError.capacity)))

begin-joined :
    (key : Key) (request : Request) (s : Store) (a : Attempt)
    → attempt_at s.entries key ≡ some a
    → begin key request s ≡ (
      s,
      if same_request a.request request
          then Begun.joined a
          else Begun.refused AttemptError.conflict,
    )
unfolding begin
begin-joined key request s a held = rw (held, begin) (ground arith)

begin-start :
    (key : Key) (request : Request) (s : Store)
    → attempt_at s.entries key ≡ none
    → begin key request s ≡ start key request (make_room s)
unfolding begin
begin-start key request s missing = rw (missing, begin) refl

start-room :
    (key : Key) (request : Request) (m : Store × Bool)
    → m.1 ≡ true
    → start key request m ≡ (with_attempt m.0 key request, Begun.started)
unfolding start
start-room key request m h = ground arith

pub begin-Begins : (key : Key) (request : Request) (s : Store) → IsValid s → Begins key request s
unfolding start
begin-Begins key request s w = elim (Option-cases (attempt_at s.entries key)) [
  | inr (a, held) ↦ inl (a, held, begin-joined key request s a held)
  | inl missing ↦
      let begun = begin-start key request s missing in
      elim (make_room-Roomed is_done s w) [
        | inl (room, e) ↦
            let h : (make_room s).1 ≡ true = rw e refl in
            inr (inl (missing, h, begun ∙ start-room key request (make_room s) h))
        | inr (inl (oldest, rest, held, e)) ↦
            let h : (make_room s).1 ≡ true = rw e refl in
            inr (inl (missing, h, begun ∙ start-room key request (make_room s) h))
        | inr (inr (full, empty, e)) ↦
            inr (inr (missing, full, empty, begun ∙ ap (start key request) e))
      ]
]

pub begin-IsValid :
    (key : Key) (request : Request) (s : Store) → IsValid s → IsValid (begin key request s).0
unfolding make_room
begin-IsValid key request s w = elim (begin-Begins key request s w) [
  | inl (a, held, e) ↦ rw e w
  | inr (inl (missing, room, e)) ↦
      let (kept, roomy) = make_room-IsWindow is_done s w in
      let fresh = make_room-none is_done s key w missing in
      rw e (
        start-IsWindow is_done (make_room s).0 key (started_attempt request) kept (roomy room) fresh
          (unfold started_attempt in refl))
  | inr (inr (missing, full, empty, e)) ↦ rw e w
]

pub decide-held :
    (entries : List (Key × Attempt)) (key : Key) (d : Decision) (a : Attempt)
    → attempt_at entries key ≡ some a
    → decide_attempt entries key d ≡ set_attempt entries key (record a { decision = some d })
unfolding decide_attempt
decide-held entries key d a held = rw (held, decide_attempt) refl

pub open_attempt : (a : Attempt) → a.decision ≡ none → is_done a ≡ false
open_attempt a e = rw e refl

pub finish-IsValid :
    (key : Key) (outcome : Result RouteError Decision) (a : Attempt) (s : Store)
    → Runs s key a
    → IsValid s
    → IsValid (finish key outcome s)
unfolding finish
finish-IsValid key (ok d) a s (held, running) w = rw (decide-held s.entries key d a held) (
    complete-IsWindow is_done s key a (record a { decision = some d }) w held
      (open_attempt a running) refl)
finish-IsValid key (err e) a s (held, running) w =
    forget-IsWindow is_done s key a w held (open_attempt a running)

pub Step-IsValid : {s t : Store} → Step s t → IsValid s → IsValid t
Step-IsValid {s} (begins key request) w = begin-IsValid key request s w
Step-IsValid {s} (ends key outcome a running) w = finish-IsValid key outcome a s running w

pub Steps-IsValid : {s t : Store} → Steps s t → IsValid s → IsValid t
Steps-IsValid here w = w
Steps-IsValid (next r st) w = Step-IsValid st (Steps-IsValid r w)

-- After any sequence of steps from a new store, the store holds at most its limit of attempts, which
-- is at least one, and the completed keys, each once, are exactly the keys whose attempt has a
-- decision.
pub reached-IsValid : (max_entries : ℕ) (t : Store) → Steps (new_store max_entries) t → IsValid t
reached-IsValid max_entries t r = Steps-IsValid r (new-IsValid max_entries)
