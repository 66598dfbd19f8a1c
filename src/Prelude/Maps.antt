-- ===== src/Prelude/Maps.antt =====
-- Go maps with string keys, as association lists: a lookup with a value for a missing key, and an
-- assignment.
use mathlib.Core.Path.{◌≡◌, refl}
use mathlib.Core.Logic.{inl, inr}
use mathlib.Core.Option.{Option, none, some}
use mathlib.Core.List.{List, [], ◌∷◌}
use Prim.Native.String.{String}
use text.Mathlib.Text.{◌==◌}
use text.Mathlib.TextEquality.{eq_iff}
use native.Mathlib.Omega.{arith}
use ia_cstudio.Prelude.Tests.{if◌then◌else◌, Bool-cases}

module _ {ℓ} {A : Type ℓ} where
  unfoldable pub entry : List (String × A) → String → Option A
  entry [] key = none
  entry ((k, a) ∷ rest) key = if k == key then some a else entry rest key

  abbrev pub or_else : Option A → A → A
  or_else none a = a
  or_else (some b) a = b

  unfoldable pub assign : List (String × A) → String → A → List (String × A)
  assign [] key a = (key, a) ∷ []
  assign ((k, b) ∷ rest) key a =
      let later = assign rest key a in if k == key then (key, a) ∷ rest else (k, b) ∷ later

  pub entry-assign :
      (m : List (String × A)) (key : String) (a : A) (key' : String)
      → entry (assign m key a) key' ≡ (if key == key' then some a else entry m key')
  unfolding entry assign
  entry-assign [] key a key' = refl
  entry-assign ((k, b) ∷ rest) key a key' = elim (Bool-cases (k == key)) [
    | inl same ↦
        rw (same, (eq_iff k key).0 same)
          (elim (Bool-cases (key == key')) [ inl now ↦ rw now refl | inr apart ↦ rw apart refl ])
    | inr differ ↦ rw differ (elim (Bool-cases (k == key')) [
      | inl now ↦ rw now (elim (Bool-cases (key == key')) [
        | inl both ↦ absurd (ground (arith, eq_iff k key', eq_iff key key', eq_iff k key))
        | inr apart ↦ rw apart refl
      ])
      | inr apart ↦ rw apart (entry-assign rest key a key')
    ])
  ]

  pub entry_empty : (key : String) → entry [] key ≡ none
  unfolding entry
  entry_empty key = refl

  -- `delete(m, key)`
  unfoldable pub erase : List (String × A) → String → List (String × A)
  erase [] key = []
  erase ((k, b) ∷ rest) key =
      let later = erase rest key in if k == key then later else (k, b) ∷ later

  pub entry-erase :
      (m : List (String × A)) (key : String) (key' : String)
      → entry (erase m key) key' ≡ (if key == key' then none else entry m key')
  unfolding entry erase
  entry-erase [] key key' = ground arith
  entry-erase ((k, b) ∷ rest) key key' = elim (Bool-cases (k == key)) [
    | inl same ↦ rw same (elim (Bool-cases (key == key')) [
      | inl now ↦ rw now (rw (entry-erase rest key key', now) refl)
      | inr apart ↦ elim (Bool-cases (k == key')) [
        | inl both ↦ absurd (ground (arith, eq_iff k key', eq_iff key key', eq_iff k key))
        | inr away ↦ rw (apart, away) (rw (entry-erase rest key key', apart) refl)
      ]
    ])
    | inr differ ↦ rw differ (elim (Bool-cases (k == key')) [
      | inl now ↦ rw now (elim (Bool-cases (key == key')) [
        | inl both ↦ absurd (ground (arith, eq_iff k key', eq_iff key key', eq_iff k key))
        | inr apart ↦ rw apart refl
      ])
      | inr apart ↦ rw apart (entry-erase rest key key')
    ])
  ]
