-- ===== src/Attempts/Window/Keeps.antt =====
-- Lookups after an assignment and a deletion.
use mathlib.Core.Option.{some-injective}
use ia_cstudio.Prelude.{
  ◌⊎◌, suc, ◌≤◌, ◌<◌, ◌≡◌, refl, sym, ap, ap₂, ◌∙◌, Bool, true, false, List, [], ◌∷◌, none, some,
  if◌then◌else◌, length, arith, inl, inr, Bool-cases, eq_iff, eq_refl,
}
use ia_cstudio.Attempts.Window.{Key, same_key, attempt_at, set_attempt, delete_attempt}

pub same_key→eq : (a b : Key) → same_key a b ≡ true → a ≡ b
unfolding same_key
same_key→eq a b e =
    ap₂ (λ r k. record { run_id = r; key = k }) ((eq_iff a.run_id b.run_id).0 (ground arith))
      ((eq_iff a.key b.key).0 (ground arith))

pub same_key_refl : (a : Key) → same_key a a ≡ true
unfolding same_key
same_key_refl a = ground (arith, eq_refl a.run_id, eq_refl a.key)

-- Equal keys answer every test alike.
pub same_key_left : (a b c : Key) → same_key a b ≡ true → same_key a c ≡ same_key b c
same_key_left a b c e = ap (λ k. same_key k c) (same_key→eq a b e)

pub same_key_sym : (a b : Key) → same_key a b ≡ false → same_key b a ≡ false
same_key_sym a b e = elim (Bool-cases (same_key b a)) [
  | inl same ↦ let clash = rw (same_key→eq b a same, same_key_refl a) at e in cc
  | inr differ ↦ differ
]

module _ {A : Type 0} where
  pub attempt-set :
      (entries : List (Key × A)) (key : Key) (a : A) (k : Key)
      → attempt_at (set_attempt entries key a) k
        ≡ (if same_key key k then some a else attempt_at entries k)
  unfolding attempt_at set_attempt
  attempt-set [] key a k = refl
  attempt-set ((j, b) ∷ rest) key a k = elim (Bool-cases (same_key j key)) [
    | inl same ↦ rw (same, same_key_left j key k same) (ground arith)
    | inr differ ↦ rw differ (elim (Bool-cases (same_key j k)) [
      | inr apart ↦ rw apart (attempt-set rest key a k)
      | inl now ↦ rw now (rw (sym (same_key→eq j k now), same_key_sym j key differ) refl)
    ])
  ]

  pub attempt-delete :
      (entries : List (Key × A)) (key : Key) (k : Key)
      → attempt_at (delete_attempt entries key) k
        ≡ (if same_key key k then none else attempt_at entries k)
  unfolding attempt_at delete_attempt
  attempt-delete [] key k = ground arith
  attempt-delete ((j, b) ∷ rest) key k = elim (Bool-cases (same_key j key)) [
    | inl same ↦
        rw (same, same_key_left j key k same) (rw (attempt-delete rest key k) (ground arith))
    | inr differ ↦ rw differ (elim (Bool-cases (same_key j k)) [
      | inr apart ↦ rw apart (attempt-delete rest key k)
      | inl now ↦ rw now (rw (sym (same_key→eq j k now), same_key_sym j key differ) refl)
    ])
  ]

  -- An assignment adds one entry at most; a deletion adds none, and removes a key that is there.
  pub length-set-le :
      (entries : List (Key × A)) (key : Key) (a : A)
      → length (set_attempt entries key a) ≤ suc (length entries)
  unfolding set_attempt
  length-set-le [] key a = omega arith
  length-set-le ((j, b) ∷ rest) key a = ground (arith, length-set-le rest key a)

  pub length-set-same :
      (entries : List (Key × A)) (key : Key) (a b : A)
      → attempt_at entries key ≡ some b
      → length (set_attempt entries key a) ≡ length entries
  unfolding attempt_at set_attempt
  length-set-same [] key a b h = cc
  length-set-same ((j, c) ∷ rest) key a b h = elim (Bool-cases (same_key j key)) [
    | inl same ↦ rw same refl
    | inr differ ↦ rw differ (ap suc (length-set-same rest key a b (rw differ at h)))
  ]

  pub length-delete-le :
      (entries : List (Key × A)) (key : Key) → length (delete_attempt entries key) ≤ length entries
  unfolding delete_attempt
  length-delete-le [] key = omega arith
  length-delete-le ((j, b) ∷ rest) key = ground (arith, length-delete-le rest key)

  pub length-delete-lt :
      (entries : List (Key × A)) (key : Key) (a : A)
      → attempt_at entries key ≡ some a
      → length (delete_attempt entries key) < length entries
  unfolding attempt_at delete_attempt
  length-delete-lt [] key a h = cc
  length-delete-lt ((j, b) ∷ rest) key a h = elim (Bool-cases (same_key j key)) [
    | inl same ↦ rw same (omega (arith, length-delete-le rest key))
    | inr differ ↦ rw differ (omega (arith, length-delete-lt rest key a (rw differ at h)))
  ]

  -- What is found after an assignment is what was assigned, or was there before; likewise after a
  -- deletion.
  pub found-set :
      (entries : List (Key × A)) (key : Key) (b : A) (k : Key) (a : A)
      → attempt_at (set_attempt entries key b) k ≡ some a
      → ((key ≡ k) × (b ≡ a)) ⊎ (attempt_at entries k ≡ some a)
  found-set entries key b k a h =
      found (same_key key k) refl (sym (attempt-set entries key b k) ∙ h)
    where
      found :
          (t : Bool)
          → same_key key k ≡ t
          → (if t then some b else attempt_at entries k) ≡ some a
          → ((key ≡ k) × (b ≡ a)) ⊎ (attempt_at entries k ≡ some a)
      found true same e = inl (same_key→eq key k same, some-injective _ _ e)
      found false differ e = inr e

  pub found-delete :
      (entries : List (Key × A)) (key : Key) (k : Key) (a : A)
      → attempt_at (delete_attempt entries key) k ≡ some a
      → attempt_at entries k ≡ some a
  found-delete entries key k a h = ground (arith, attempt-delete entries key k)
