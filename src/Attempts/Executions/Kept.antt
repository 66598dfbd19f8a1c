-- ===== src/Attempts/Executions/Kept.antt =====
-- What the steps of the execution store do to its entries, and the invariant.
use ia_cstudio.Prelude.{
  ℕ, ◌≡◌, refl, sym, ap, ◌∙◌, ◌⊎◌, Bool, true, false, List, [], ◌∷◌, none, some, if◌then◌else◌,
  length, arith, inl, inr, Bool-cases, Option-cases, String,
}
use ia_cstudio.Routing.Executor.{ExecutionResult}
use ia_cstudio.Attempts.Window.{Key, same_key, attempt_at, set_attempt, make_room, member}
use ia_cstudio.Attempts.Window.Keeps.{
  same_key→eq, same_key_sym, same_key_left, attempt-set, length-set-same,
}
use ia_cstudio.Attempts.Window.Valid.{
  IsWindow, Distinct, start-IsWindow, complete-IsWindow, forget-IsWindow,
}
use ia_cstudio.Attempts.Window.Room.{make_room-Roomed, make_room-IsWindow, make_room-none}
use ia_cstudio.Attempts.Executions.{
  Attempt, Store, new_store, same_bytes, Begun, AttemptError, start, restart, join, started_attempt,
  begin, remove_completed_key, Ended, record_result, settle_attempt, finish, valid_execution_result,
  is_done, Runs, Step, begins, ends, Steps, here, next,
}

abbrev pub IsStore : Store → Type 0
IsStore s = IsWindow is_done s

new-IsStore : (max_entries : ℕ) → IsStore (new_store max_entries)
unfolding new_store attempt_at member
new-IsStore max_entries = record {
  positive = ground arith;
  bounded = omega arith;
  settled = λ k. refl;
  distinct = tt;
}

member-remove :
    (keys : List Key) (key k : Key)
    → member k (remove_completed_key keys key) ≡ (if same_key key k then false else member k keys)
unfolding member remove_completed_key
member-remove [] key k = ground arith
member-remove (j ∷ keys) key k = elim (Bool-cases (same_key j key)) [
  | inl same ↦ rw (same, same_key_left j key k same) (rw (member-remove keys key k) (ground arith))
  | inr differ ↦ rw differ (elim (Bool-cases (same_key j k)) [
    | inr apart ↦ rw apart (member-remove keys key k)
    | inl now ↦ rw now (rw (sym (same_key→eq j k now), same_key_sym j key differ) refl)
  ])
]

Distinct-remove :
    (keys : List Key) (key : Key) → Distinct keys → Distinct (remove_completed_key keys key)
unfolding remove_completed_key
Distinct-remove [] key d = tt
Distinct-remove (j ∷ keys) key (new, d) = elim (Bool-cases (same_key j key)) [
  | inl same ↦ rw same (Distinct-remove keys key d)
  | inr differ ↦
      rw differ (rw (member-remove keys key j, new) (ground arith), Distinct-remove keys key d)
]

restart-IsStore :
    (key : Key) (fingerprint : List ℕ) (s : Store) (a : Attempt)
    → attempt_at s.entries key ≡ some a
    → IsStore s
    → IsStore (restart key fingerprint s).0
unfolding restart started_attempt
restart-IsStore key fingerprint s a held w =
    let new : Attempt = started_attempt fingerprint in
    record {
      positive = w.positive;
      bounded = omega (arith, length-set-same s.entries key new a held, w.bounded);
      settled = λ k. elim (Bool-cases (same_key key k)) [
        | inl same ↦
            rw (attempt-set s.entries key new k, member-remove s.completed key k, same) refl
        | inr differ ↦
            rw (attempt-set s.entries key new k, member-remove s.completed key k, differ)
              (w.settled k)
      ];
      distinct = Distinct-remove s.completed key w.distinct;
    }

abbrev with_attempt : Store → Key → List ℕ → Store
with_attempt s key fingerprint = record s {
  entries = set_attempt s.entries key (started_attempt fingerprint);
}

-- The branches of `begin`.
abbrev pub Begins : Key → List ℕ → Store → Type 0
Begins key fingerprint s =
    ((a : Attempt) × (attempt_at s.entries key ≡ some a)
      × (begin key fingerprint s ≡ join key fingerprint s a))
    ⊎ ((attempt_at s.entries key ≡ none)
        × ((make_room s).1 ≡ true)
        × (begin key fingerprint s ≡ (with_attempt (make_room s).0 key fingerprint, Begun.started)))
    ⊎ ((attempt_at s.entries key ≡ none)
        × (length s.entries ≡ s.max_entries)
        × (s.completed ≡ [])
        × (begin key fingerprint s ≡ (s, Begun.refused AttemptError.capacity)))

pub begin-join :
    (key : Key) (fingerprint : List ℕ) (s : Store) (a : Attempt)
    → attempt_at s.entries key ≡ some a
    → begin key fingerprint s ≡ join key fingerprint s a
unfolding begin
begin-join key fingerprint s a held = rw (held, begin) refl

begin-start :
    (key : Key) (fingerprint : List ℕ) (s : Store)
    → attempt_at s.entries key ≡ none
    → begin key fingerprint s ≡ start key fingerprint (make_room s)
unfolding begin
begin-start key fingerprint s missing = rw (missing, begin) refl

start-room :
    (key : Key) (fingerprint : List ℕ) (m : Store × Bool)
    → m.1 ≡ true
    → start key fingerprint m ≡ (with_attempt m.0 key fingerprint, Begun.started)
unfolding start
start-room key fingerprint m h = ground arith

pub begin-Begins :
    (key : Key) (fingerprint : List ℕ) (s : Store) → IsStore s → Begins key fingerprint s
unfolding start
begin-Begins key fingerprint s w = elim (Option-cases (attempt_at s.entries key)) [
  | inr (a, held) ↦ inl (a, held, begin-join key fingerprint s a held)
  | inl missing ↦
      let begun = begin-start key fingerprint s missing in
      elim (make_room-Roomed is_done s w) [
        | inl (room, e) ↦
            let h : (make_room s).1 ≡ true = rw e refl in
            inr (inl (missing, h, begun ∙ start-room key fingerprint (make_room s) h))
        | inr (inl (oldest, rest, held, e)) ↦
            let h : (make_room s).1 ≡ true = rw e refl in
            inr (inl (missing, h, begun ∙ start-room key fingerprint (make_room s) h))
        | inr (inr (full, empty, e)) ↦
            inr (inr (missing, full, empty, begun ∙ ap (start key fingerprint) e))
      ]
]

join-IsStore :
    (key : Key) (fingerprint : List ℕ) (s : Store) (a : Attempt)
    → attempt_at s.entries key ≡ some a
    → IsStore s
    → IsStore (join key fingerprint s a).0
unfolding join
join-IsStore key fingerprint s a held w = elim (Bool-cases (same_bytes a.fingerprint fingerprint)) [
  | inr differ ↦ rw (differ, join) w
  | inl same ↦ elim (Bool-cases a.released) [
    | inl released ↦ rw (same, join) (rw released (restart-IsStore key fingerprint s a held w))
    | inr retained ↦ rw (same, join) (rw retained w)
  ]
]

begin-IsStore :
    (key : Key) (fingerprint : List ℕ) (s : Store) → IsStore s → IsStore (begin key fingerprint s).0
unfolding make_room
begin-IsStore key fingerprint s w = elim (begin-Begins key fingerprint s w) [
  | inl (a, held, e) ↦ rw e (join-IsStore key fingerprint s a held w)
  | inr (inl (missing, room, e)) ↦
      let (kept, roomy) = make_room-IsWindow is_done s w in
      let fresh = make_room-none is_done s key w missing in
      rw e (
        start-IsWindow is_done (make_room s).0 key (started_attempt fingerprint) kept (roomy room)
          fresh (unfold started_attempt in refl))
  | inr (inr (missing, full, empty, e)) ↦ rw e w
]

pub settle-held :
    (entries : List (Key × Attempt)) (key : Key) (r : ExecutionResult) (a : Attempt)
    → attempt_at entries key ≡ some a
    → settle_attempt entries key r ≡ set_attempt entries key (record_result a r)
unfolding settle_attempt
settle-held entries key r a held = rw (held, settle_attempt) refl

pub open_attempt : (a : Attempt) → a.recorded ≡ none → is_done a ≡ false
open_attempt a e = rw e refl

finish-IsStore :
    (matches : String → String → Bool) (key : Key) (ended : Ended) (a : Attempt) (s : Store)
    → Runs s key a
    → IsStore s
    → IsStore (finish matches key ended s).0
unfolding finish record_result
finish-IsStore matches key (Ended.returned r) a s (held, running) w =
    elim (Bool-cases (valid_execution_result matches r)) [
      | inl good ↦
          rw (good, finish)
            (rw (settle-held s.entries key r a held) (
              complete-IsWindow is_done s key a (record_result a r) w held (open_attempt a running)
                refl))
      | inr bad ↦ rw (bad, finish) (forget-IsWindow is_done s key a w held (open_attempt a running))
    ]
finish-IsStore matches key (Ended.failed e) a s (held, running) w =
    forget-IsWindow is_done s key a w held (open_attempt a running)
finish-IsStore matches key Ended.panicked a s (held, running) w =
    forget-IsWindow is_done s key a w held (open_attempt a running)

pub Step-IsStore :
    {matches : String → String → Bool} {s t : Store} → Step matches s t → IsStore s → IsStore t
Step-IsStore {s} (begins key fingerprint) w = begin-IsStore key fingerprint s w
Step-IsStore {s} (ends key ended a running) w = finish-IsStore _ key ended a s running w

pub Steps-IsStore :
    {matches : String → String → Bool} {s t : Store} → Steps matches s t → IsStore s → IsStore t
Steps-IsStore here w = w
Steps-IsStore (next r st) w = Step-IsStore st (Steps-IsStore r w)

-- After any sequence of steps from a new store, the execution store holds at most its limit of
-- attempts, which is at least one, and the completed keys, each once, are exactly the keys whose
-- attempt has a recorded outcome.
pub reached-IsStore :
    {matches : String → String → Bool} (max_entries : ℕ) (t : Store)
    → Steps matches (new_store max_entries) t
    → IsStore t
reached-IsStore max_entries t r = Steps-IsStore r (new-IsStore max_entries)
