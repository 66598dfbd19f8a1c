-- ===== src/Attempts/Window/Room.antt =====
-- What `makeRoomLocked` does to a store that keeps the invariant.
use mathlib.Core.Option.{none-ne-some}
use ia_cstudio.Prelude.{
  ℕ, ◌<◌, ◌≡◌, refl, sym, ap, ◌∙◌, ◌⊎◌, Bool, true, false, List, [], ◌∷◌, none, some, length, ltb,
  leb, arith, inl, inr, Bool-cases, Option-cases,
}
use ia_cstudio.Attempts.Window.{
  Key, same_key, Window, attempt_at, delete_attempt, evict_oldest, make_room, member,
}
use ia_cstudio.Attempts.Window.Keeps.{same_key→eq, same_key_refl, attempt-delete, length-delete-lt}
use ia_cstudio.Attempts.Window.Valid.{Distinct, is_done, is_done→held, IsWindow}

module _ {A : Type 0} (done : A → Bool) where
  abbrev pub without_oldest : Window A → Key → List Key → Window A
  without_oldest s oldest rest = record s {
    entries = delete_attempt s.entries oldest;
    completed = rest;
  }

  without-IsWindow :
      (s : Window A) (oldest : Key) (rest : List Key)
      → IsWindow done s
      → s.completed ≡ oldest ∷ rest
      → IsWindow done (without_oldest s oldest rest)
        × (length (delete_attempt s.entries oldest) < s.max_entries)
  unfolding member
  without-IsWindow s oldest rest w e =
      let all_distinct : Distinct (oldest ∷ rest) = rw e at w.distinct in
      let settled : (k : Key) → is_done done (attempt_at s.entries k) ≡ member k (oldest ∷ rest) =
        λ k. w.settled k ∙ ap (member k) e in
      let (a, held) = is_done→held done _ (settled oldest ∙ rw (same_key_refl oldest) refl) in
      let fewer = length-delete-lt s.entries oldest a held in
      (
        record {
          positive = w.positive;
          bounded = omega (arith, w.bounded);
          settled = λ k. elim (Bool-cases (same_key oldest k)) [
            | inl same ↦
                rw (attempt-delete s.entries oldest k, same)
                  (sym (rw (same_key→eq oldest k same) at all_distinct.0))
            | inr differ ↦
                rw (attempt-delete s.entries oldest k, differ) (settled k ∙ rw differ refl)
          ];
          distinct = all_distinct.1;
        },
        omega (arith, w.bounded),
      )

  -- What `makeRoomLocked` does: nothing where there is room, or where no attempt is completed; else it
  -- evicts the oldest completed attempt, which makes room.
  abbrev pub Roomed : Window A → Type 0
  Roomed s =
      ((length s.entries < s.max_entries) × (make_room s ≡ (s, true)))
      ⊎ ((oldest : Key) × (rest : List Key) × (s.completed ≡ oldest ∷ rest)
          × (make_room s ≡ (without_oldest s oldest rest, true)))
      ⊎ ((length s.entries ≡ s.max_entries) × (s.completed ≡ []) × (make_room s ≡ (s, false)))

  evict_none :
      (max_entries : ℕ) (entries : List (Key × A)) (completed : List Key)
      → length entries < max_entries
      → evict_oldest max_entries entries completed ≡ (entries, completed)
  unfolding evict_oldest
  evict_none max_entries entries [] h = refl
  evict_none max_entries entries (oldest ∷ completed) h = ground arith

  evict_one :
      (max_entries : ℕ) (entries : List (Key × A)) (oldest : Key) (rest : List Key)
      → leb max_entries (length entries) ≡ true
      → length (delete_attempt entries oldest) < max_entries
      → evict_oldest max_entries entries (oldest ∷ rest) ≡ (delete_attempt entries oldest, rest)
  unfolding evict_oldest
  evict_one max_entries entries oldest rest full fewer =
      rw full (evict_none max_entries (delete_attempt entries oldest) rest fewer)

  pub ltb-of_lt : (m n : ℕ) → m < n → ltb m n ≡ true
  ltb-of_lt m n h = ground arith

  evict-Roomed :
      (s : Window A) (completed : List Key) → s.completed ≡ completed → IsWindow done s → Roomed s
  unfolding make_room
  evict-Roomed s [] e w = elim (Bool-cases (ltb (length s.entries) s.max_entries)) [
    | inl room ↦
        let h : length s.entries < s.max_entries = ground arith in
        inl (h, rw (evict_none s.max_entries s.entries s.completed h, room) refl)
    | inr full ↦
        let none_left : evict_oldest s.max_entries s.entries s.completed ≡ (s.entries, []) =
          rw e (unfold evict_oldest in refl) in
        inr (inr (ground (arith, w.bounded), e, rw (none_left, full, sym e) refl))
  ]
  evict-Roomed s (oldest ∷ rest) e w = elim (Bool-cases (leb s.max_entries (length s.entries))) [
    | inr room ↦
        let h : length s.entries < s.max_entries = ground arith in
        inl (h, rw (evict_none s.max_entries s.entries s.completed h, ltb-of_lt _ _ h) refl)
    | inl full ↦
        let (_, fewer) = without-IsWindow s oldest rest w e in
        let one : evict_oldest s.max_entries s.entries s.completed
            ≡ (delete_attempt s.entries oldest, rest) =
          rw e (evict_one s.max_entries s.entries oldest rest full fewer) in
        inr (inl (oldest, rest, e, rw (one, ltb-of_lt _ _ fewer) refl))
  ]

  pub make_room-Roomed : (s : Window A) → IsWindow done s → Roomed s
  make_room-Roomed s w = evict-Roomed s s.completed refl w

  -- Making room keeps the invariant, and if it succeeds there is room.
  pub make_room-IsWindow :
      (s : Window A)
      → IsWindow done s
      → IsWindow done (make_room s).0
        × ((make_room s).1 ≡ true → length (make_room s).0.entries < s.max_entries)
  make_room-IsWindow s w = elim (make_room-Roomed s w) [
    | inl (room, e) ↦ rw e (w, λ _. room)
    | inr (inl (oldest, rest, held, e)) ↦
        rw e (let (kept, fewer) = without-IsWindow s oldest rest w held in (kept, λ _. fewer))
    | inr (inr (full, empty, e)) ↦ rw e (w, λ h. absurd (ground arith))
  ]

  -- What is found after making room was there before; an attempt that is not done stays.
  pub make_room-subset :
      (s : Window A) (k : Key) (a : A)
      → IsWindow done s
      → attempt_at (make_room s).0.entries k ≡ some a
      → attempt_at s.entries k ≡ some a
  make_room-subset s k a w h = elim (make_room-Roomed s w) [
    | inl (room, e) ↦ rw e at h
    | inr (inl (oldest, rest, held, e)) ↦
        let found : attempt_at (delete_attempt s.entries oldest) k ≡ some a = rw e at h in
        ground (arith, attempt-delete s.entries oldest k)
    | inr (inr (full, empty, e)) ↦ rw e at h
  ]

  pub make_room-none :
      (s : Window A) (k : Key)
      → IsWindow done s
      → attempt_at s.entries k ≡ none
      → attempt_at (make_room s).0.entries k ≡ none
  make_room-none s k w h = elim (Option-cases (attempt_at (make_room s).0.entries k)) [
    | inl e ↦ e
    | inr (a, e) ↦ absurd (none-ne-some _ (sym h ∙ make_room-subset s k a w e))
  ]

  pub make_room-kept :
      (s : Window A) (k : Key) (a : A)
      → IsWindow done s
      → attempt_at s.entries k ≡ some a
      → done a ≡ false
      → attempt_at (make_room s).0.entries k ≡ some a
  make_room-kept s k a w h open_now = elim (make_room-Roomed s w) [
    | inl (room, e) ↦ rw e h
    | inr (inl (oldest, rest, held, e)) ↦
        let waits : member k s.completed ≡ false =
          sym (w.settled k) ∙ ap (is_done done) h ∙ open_now in
        let waits' : member k (oldest ∷ rest) ≡ false = rw held at waits in
        rw e (
          rw (attempt-delete s.entries oldest k)
            (let d : same_key oldest k ≡ false = unfold member in ground arith in rw d h))
    | inr (inr (full, empty, e)) ↦ rw e h
  ]

  pub make_room-full :
      (s : Window A)
      → IsWindow done s
      → length s.entries ≡ s.max_entries
      → s.completed ≡ []
      → (make_room s).1 ≡ false
  make_room-full s w full empty = elim (make_room-Roomed s w) [
    | inl (room, e) ↦ absurd (omega (arith, room, full))
    | inr (inl (oldest, rest, held, e)) ↦ let clash = sym held ∙ empty in cc
    | inr (inr (_, _, e)) ↦ rw e refl
  ]
