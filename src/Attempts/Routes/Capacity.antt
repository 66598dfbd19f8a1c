-- ===== src/Attempts/Routes/Capacity.antt =====
-- When a caller is refused for capacity.
use mathlib.Core.Option.{none-ne-some}
use ia_cstudio.Prelude.{
  Option-cases, List, ◌∷◌, refl, false, Bool-cases, ◌≡◌, ◌↔◌, sym, ap, ◌∙◌, [], none, some, length,
  inl, inr, Bool-cases, ℕ,
}
use ia_cstudio.Routing.Policy.{Request}
use ia_cstudio.Attempts.Window.{Key, attempt_at, member}
use ia_cstudio.Attempts.Window.Keeps.{same_key_refl}
use ia_cstudio.Attempts.Window.Room.{make_room-full}
use ia_cstudio.Attempts.Routes.{
  Attempt, Store, new_store, same_request, Begun, AttemptError, begin, is_done, Steps,
}
use ia_cstudio.Attempts.Routes.Kept.{
  IsValid, begin-Begins, Steps-IsValid, new-IsValid, open_attempt,
}

-- No attempt of the store has a decision.
abbrev pub AllRunning : Store → Type 0
AllRunning s = (k : Key) (a : Attempt) → attempt_at s.entries k ≡ some a → a.decision ≡ none

open-decision : (a : Attempt) → is_done a ≡ false → a.decision ≡ none
open-decision a h = elim (Option-cases a.decision) [
  | inl none_yet ↦ none_yet
  | inr (d, had) ↦ let clash = rw had at h in cc
]

completed-AllRunning : (s : Store) → IsValid s → s.completed ≡ [] → AllRunning s
unfolding member
completed-AllRunning s w empty k a held = open-decision a (rw (held, empty) at (w.settled k))

no_members : (keys : List Key) → ((k : Key) → member k keys ≡ false) → keys ≡ []
unfolding member
no_members [] h = refl
no_members (k ∷ keys) h = let clash = rw (same_key_refl k) at (h k) in cc

AllRunning-completed : (s : Store) → IsValid s → AllRunning s → s.completed ≡ []
AllRunning-completed s w all = no_members s.completed (λ k.
    elim (Option-cases (attempt_at s.entries k)) [
      | inl missing ↦ sym (w.settled k) ∙ rw missing refl
      | inr (a, held) ↦ sym (w.settled k) ∙ rw held (open_attempt a (all k a held))
    ])

-- A caller is refused for capacity exactly if its key has no attempt, the store is full and every
-- attempt in it is running: none has a decision.
pub capacity_iff :
    (max_entries : ℕ) (t : Store) (r : Steps (new_store max_entries) t) (key : Key)
    (request : Request)
    → ((begin key request t).1 ≡ Begun.refused AttemptError.capacity)
      ↔ ((attempt_at t.entries key ≡ none) × (length t.entries ≡ t.max_entries) × AllRunning t)
capacity_iff max_entries t r key request =
    let w = Steps-IsValid r (new-IsValid max_entries) in
    elim (begin-Begins key request t w) [
      | inl (b, held, begun) ↦ (
        λ e. elim (Bool-cases (same_request b.request request)) [
          | inl same ↦ let clash = rw (begun, same) at e in cc
          | inr differ ↦ let clash = rw (begun, differ) at e in cc
        ],
        λ (missing, full, _). absurd (none-ne-some _ (sym missing ∙ held)),
      )
      | inr (inl (missing, room, begun)) ↦ (
        λ e. let clash = rw begun at e in cc,
        λ (_, full, all).
            let refused = make_room-full is_done t w full (AllRunning-completed t w all) in cc,
      )
      | inr (inr (missing, full, empty, begun)) ↦ (
        λ e. (missing, full, completed-AllRunning t w empty),
        λ _. ap (λ (x : Store × Begun). x.1) begun,
      )
    ]
