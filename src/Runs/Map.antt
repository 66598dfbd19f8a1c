-- ===== src/Runs/Map.antt =====
-- Laws of the map of runs of internal/agentruns/store.go, and of its eviction.
use ia_cstudio.Prelude.{
  ℕ, zero, suc, ◌+◌, ◌-◌, ◌≤◌, ◌<◌, ◌≡◌, refl, sym, ap, ap₂, ◌∙◌, String, Bool, true, false, ◌||◌,
  List, [], ◌∷◌, ◌++◌, none, some, arith, Bool-cases, inl, inr, ◌≢◌, ◌==◌, eq_iff, eq_refl, subst,
  if◌then◌else◌, ltb, length,
}
use ia_cstudio.Text.Numbered.{numbered_injective}
use ia_cstudio.Runs.Types.{Run}
use ia_cstudio.Runs.Store.{find, put, remove, evict, run_id}

abbrev pub Runs : Type 0
Runs = List (String × Run)

pub find-put :
    (i j : String) (r : Run) (m : Runs) → find j (put i r m) ≡ (if i == j then some r else find j m)
unfolding find put
find-put i j r [] = refl
find-put i j r ((k, old) ∷ m) = ground (arith, eq_iff i j, eq_iff k i, eq_iff k j, find-put i j r m)

pub find-remove :
    (i j : String) (m : Runs) → find j (remove i m) ≡ (if i == j then none else find j m)
unfolding find remove
find-remove i j [] = ground arith
find-remove i j ((k, old) ∷ m) =
    ground (arith, eq_iff i j, eq_iff k i, eq_iff k j, find-remove i j m)

-- the ids of the `n` runs numbered after `lo`
abbrev pub ids : ℕ → ℕ → List String
ids lo zero = []
ids lo (suc n) = run_id (lo + 1) ∷ ids (lo + 1) n

-- whether an id is one of them
abbrev pub among : String → ℕ → ℕ → Bool
among j lo zero = false
among j lo (suc n) = run_id (lo + 1) == j || among j (lo + 1) n

pub length-ids : (lo n : ℕ) → length (ids lo n) ≡ n
length-ids lo zero = refl
length-ids lo (suc n) = ap suc (length-ids (lo + 1) n)

pub ids-snoc : (lo n : ℕ) → ids lo n ++ run_id (lo + n + 1) ∷ [] ≡ ids lo (suc n)
ids-snoc lo zero = ap (λ k. run_id k ∷ []) (omega arith)
ids-snoc lo (suc n) =
    ap (λ l. run_id (lo + 1) ∷ l)
      (ap (λ k. ids (lo + 1) n ++ run_id k ∷ []) (omega arith) ∙ ids-snoc (lo + 1) n)

-- An id with a number is among them exactly when the number is in the range.
pub among-lt : (k lo n : ℕ) → among (run_id k) lo n ≡ true → (lo < k) × (k ≤ lo + n)
among-lt k lo zero h = cc
among-lt k lo (suc n) h = elim (Bool-cases (run_id (lo + 1) == run_id k)) [
  | inl same ↦
      let e = numbered_injective "run_" (lo + 1) k ((eq_iff _ _).0 same) in
      (omega arith, omega arith)
  | inr other ↦
      let (above, below) = among-lt k (lo + 1) n (rw other at h) in (omega arith, omega arith)
]

pub among_of_lt : (k lo n : ℕ) → lo < k → k ≤ lo + n → among (run_id k) lo n ≡ true
among_of_lt k lo zero above below = absurd (omega arith)
among_of_lt k lo (suc n) above below = elim (Bool-cases (run_id (lo + 1) == run_id k)) [
  | inl same ↦ rw same
  | inr other ↦
      let ne : lo + 1 ≢ k = λ e. cc (rw (e, eq_refl) at other) in
      rw other (among_of_lt k (lo + 1) n (omega arith) (omega arith))
]

-- An id among them has a number in the range.
pub among_number :
    (j : String) (lo n : ℕ)
    → among j lo n ≡ true
    → (k : ℕ) × (j ≡ run_id k) × (lo < k) × (k ≤ lo + n)
among_number j lo zero h = cc
among_number j lo (suc n) h = elim (Bool-cases (run_id (lo + 1) == j)) [
  | inl same ↦ (lo + 1, sym ((eq_iff _ _).0 same), omega arith, omega arith)
  | inr other ↦
      let (k, e, above, below) = among_number j (lo + 1) n (rw other at h) in
      (k, e, omega arith, omega arith)
]

pub among_split :
    (j : String) (lo a b : ℕ) → among j lo (a + b) ≡ (among j lo a || among j (lo + a) b)
among_split j lo zero b = ap₂ (among j) (omega arith) (omega arith)
among_split j lo (suc a) b =
    let shift : suc (a + b) ≡ suc a + b = omega arith in
    let start : lo + 1 + a ≡ lo + suc a = omega arith in
    rw (← shift, ← start) (ground (arith, among_split j (lo + 1) a b))

-- Ranges that follow one another share no id.
pub among_disjoint : (j : String) (lo a b : ℕ) → among j lo a ≡ true → among j (lo + a) b ≡ false
among_disjoint j lo a b h = elim (Bool-cases (among j (lo + a) b)) [
  | inl both ↦
      let (k, e, above, below) = among_number j lo a h in
      let (later, further) = among-lt k (lo + a) b (rw e at both) in absurd (omega arith)
  | inr apart ↦ apart
]

ids-eq : {a b c d : ℕ} → a ≡ c → b ≡ d → ids a b ≡ ids c d
ids-eq p q = cc

-- whether a list of ids is over the limit
over_iff : (max n lo : ℕ) → ltb max (length (ids lo n)) ≡ ltb max n
over_iff max n lo = ap (ltb max) (length-ids lo n)

-- Eviction drops the oldest ids, and keeps the newest `max` of them.
pub evict-ids :
    (max n lo : ℕ) (m : Runs) → (evict max (ids lo n) m).0 ≡ ids (lo + (n - max)) (n - (n - max))
unfolding evict
evict-ids max zero lo m = ids-eq {a = lo} {b = 0} (omega arith) (omega arith)
evict-ids max (suc n) lo m = elim (Bool-cases (ltb max (suc n))) [
  | inl full ↦
      rw (over_iff max (suc n) lo, full)
        (evict-ids max n (lo + 1) (remove (run_id (lo + 1)) m)
          ∙ ids-eq (ground arith) (ground arith))
  | inr fits ↦
      rw (over_iff max (suc n) lo, fits) (ids-eq {a = lo} {b = suc n} (ground arith) (ground arith))
]

-- Eviction drops the runs of those ids, and no other.
pub find-evict :
    (max n lo : ℕ) (m : Runs) (j : String)
    → find j (evict max (ids lo n) m).1 ≡ (if among j lo (n - max) then none else find j m)
unfolding evict
find-evict max zero lo m j =
    subst (λ k. find j m ≡ (if among j lo k then none else find j m)) {x = 0} (omega arith) refl
find-evict max (suc n) lo m j = elim (Bool-cases (ltb max (suc n))) [
  | inl full ↦
      let step : suc (n - max) ≡ suc n - max = ground arith in
      rw (over_iff max (suc n) lo, full, ← step)
        (find-evict max n (lo + 1) (remove (run_id (lo + 1)) m) j
          ∙ ground (arith, find-remove (run_id (lo + 1)) j m))
  | inr fits ↦
      let none_left : 0 ≡ suc n - max = ground arith in
      rw (over_iff max (suc n) lo, fits, ← none_left) refl
]
