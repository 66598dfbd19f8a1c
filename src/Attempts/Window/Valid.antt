-- ===== src/Attempts/Window/Valid.antt =====
-- The invariant of an attempt store, and the changes that keep it. `done` tells whether an attempt's
-- channel is closed.
use ia_cstudio.Prelude.{
  ◌≤◌, ◌<◌, ◌≡◌, refl, sym, ap, ◌∙◌, Bool, true, false, List, [], ◌∷◌, ◌++◌, Option, none, some,
  if◌then◌else◌, length, arith, inl, inr, Bool-cases,
}
use ia_cstudio.Attempts.Window.{
  Key, same_key, Window, attempt_at, set_attempt, delete_attempt, member,
}
use ia_cstudio.Attempts.Window.Keeps.{
  same_key→eq, same_key_sym, attempt-set, attempt-delete, length-set-le, length-set-same,
  length-delete-le,
}

abbrev pub Distinct : List Key → Type 0
Distinct [] = Unit
Distinct (k ∷ keys) = (member k keys ≡ false) × Distinct keys

pub member-append :
    (k : Key) (keys : List Key) (key : Key)
    → member k (keys ++ key ∷ []) ≡ (if member k keys then true else same_key key k)
unfolding member
member-append k [] key = ground arith
member-append k (j ∷ keys) key = elim (Bool-cases (same_key j k)) [
  | inl same ↦ rw same refl
  | inr differ ↦ rw differ (member-append k keys key)
]

pub Distinct-append :
    (keys : List Key) (key : Key)
    → Distinct keys
    → member key keys ≡ false
    → Distinct (keys ++ key ∷ [])
unfolding member
Distinct-append [] key d h = (refl, tt)
Distinct-append (j ∷ keys) key (new, d) h = (
  rw (member-append j keys key, new) (same_key_sym j key (ground arith)),
  Distinct-append keys key d (ground arith),
)

module _ {A : Type 0} (done : A → Bool) where
  abbrev pub is_done : Option A → Bool
  is_done none = false
  is_done (some a) = done a

  -- At least one entry and at most the limit; the completed keys, each once, are those whose attempt
  -- is done.
  pub record IsWindow (s : Window A) : Type 0 where
    pub positive : 1 ≤ s.max_entries
    pub bounded : length s.entries ≤ s.max_entries
    pub settled : (k : Key) → is_done (attempt_at s.entries k) ≡ member k s.completed
    pub distinct : Distinct s.completed

  pub is_done→held : (o : Option A) → is_done o ≡ true → (a : A) × (o ≡ some a)
  is_done→held none h = cc
  is_done→held (some a) h = (a, refl)

  -- A new attempt under a key that has none.
  pub start-IsWindow :
      (s : Window A) (key : Key) (a : A)
      → IsWindow s
      → length s.entries < s.max_entries
      → attempt_at s.entries key ≡ none
      → done a ≡ false
      → IsWindow (record s { entries = set_attempt s.entries key a })
  start-IsWindow s key a w room fresh open_now = record {
    positive = w.positive;
    bounded = omega (arith, length-set-le s.entries key a);
    settled = λ k. elim (Bool-cases (same_key key k)) [
      | inl same ↦
          rw (attempt-set s.entries key a k, same, open_now)
            (ap is_done (sym fresh) ∙ rw (same_key→eq key k same) (w.settled k))
      | inr differ ↦ rw (attempt-set s.entries key a k, differ) (w.settled k)
    ];
    distinct = w.distinct;
  }

  -- An attempt that ends well is completed, the newest of the queue.
  pub complete-IsWindow :
      (s : Window A) (key : Key) (a b : A)
      → IsWindow s
      → attempt_at s.entries key ≡ some a
      → done a ≡ false
      → done b ≡ true
      → IsWindow
          (record s { entries = set_attempt s.entries key b; completed = s.completed ++ key ∷ [] })
  complete-IsWindow s key a b w held open_now closed =
      let fresh : member key s.completed ≡ false =
        sym (w.settled key) ∙ ap is_done held ∙ open_now in
      record {
        positive = w.positive;
        bounded = omega (arith, length-set-same s.entries key b a held, w.bounded);
        settled = λ k. elim (Bool-cases (same_key key k)) [
          | inl same ↦
              rw (attempt-set s.entries key b k, member-append k s.completed key, same, closed)
                (ground arith)
          | inr differ ↦
              rw (attempt-set s.entries key b k, member-append k s.completed key, differ)
                (ground (arith, w.settled k))
        ];
        distinct = Distinct-append s.completed key w.distinct fresh;
      }

  -- An attempt that fails is forgotten.
  pub forget-IsWindow :
      (s : Window A) (key : Key) (a : A)
      → IsWindow s
      → attempt_at s.entries key ≡ some a
      → done a ≡ false
      → IsWindow (record s { entries = delete_attempt s.entries key })
  forget-IsWindow s key a w held open_now =
      let fresh : member key s.completed ≡ false =
        sym (w.settled key) ∙ ap is_done held ∙ open_now in
      record {
        positive = w.positive;
        bounded = omega (arith, length-delete-le s.entries key, w.bounded);
        settled = λ k. elim (Bool-cases (same_key key k)) [
          | inl same ↦
              rw (attempt-delete s.entries key k, same) (sym (rw (same_key→eq key k same) at fresh))
          | inr differ ↦ rw (attempt-delete s.entries key k, differ) (w.settled k)
        ];
        distinct = w.distinct;
      }
