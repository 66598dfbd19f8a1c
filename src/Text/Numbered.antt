-- ===== src/Text/Numbered.antt =====
-- `fmt.Sprintf("run_%06d", n)` and its kin.
use Prim.Native.Char.{Char, code}
use text.Mathlib.TextLemmas.{append_cancel_left}
use ia_cstudio.Prelude.{
  ℕ, zero, suc, ◌+◌, ◌-◌, ◌*◌, ◌/◌, ◌%◌, ◌≤◌, ◌<◌, ◌≡◌, refl, sym, ◌∙◌, ap, String, ◌<>◌, arith,
  leb, if◌then◌else◌, Bool-cases, inl, inr,
}

-- the digit of a number below ten
abbrev digit : ℕ → Char
digit zero = "0"
digit (suc zero) = "1"
digit (suc (suc zero)) = "2"
digit (suc (suc (suc zero))) = "3"
digit (suc (suc (suc (suc zero)))) = "4"
digit (suc (suc (suc (suc (suc zero))))) = "5"
digit (suc (suc (suc (suc (suc (suc zero)))))) = "6"
digit (suc (suc (suc (suc (suc (suc (suc zero))))))) = "7"
digit (suc (suc (suc (suc (suc (suc (suc (suc zero)))))))) = "8"
digit _ = "9"

-- the decimal digits of `n` in front of `rest`, `width` of them at least: `%0<width>d`
padded : (fuel : ℕ) (width : ℕ) → ℕ → String → String
padded zero width n rest = rest
padded (suc fuel) width n rest =
    let more = padded fuel (width - 1) (n / 10) (String.◌∷◌ (digit (n % 10)) rest) in
    if leb n 0 then (if leb width 0 then rest else more) else more

-- `fmt.Sprintf(prefix + "%06d", n)`
unfoldable pub numbered : String → ℕ → String
unfolding padded
numbered prefix n = prefix <> padded (n + 7) 6 n ""

-- `%d`
unfoldable pub decimal : ℕ → String
unfolding padded
decimal n = padded (n + 2) 1 n ""

-- what a decimal text stands for, read after the number `n`
value_from : ℕ → String → ℕ
value_from n String.[] = n
value_from n (String.◌∷◌ c s) = value_from (n * 10 + (code c - b'0')) s

code-digit : (d : ℕ) → d < 10 → code (digit d) - b'0' ≡ d
code-digit zero h = refl
code-digit (suc zero) h = refl
code-digit (suc (suc zero)) h = refl
code-digit (suc (suc (suc zero))) h = refl
code-digit (suc (suc (suc (suc zero)))) h = refl
code-digit (suc (suc (suc (suc (suc zero))))) h = refl
code-digit (suc (suc (suc (suc (suc (suc zero)))))) h = refl
code-digit (suc (suc (suc (suc (suc (suc (suc zero))))))) h = refl
code-digit (suc (suc (suc (suc (suc (suc (suc (suc zero)))))))) h = refl
code-digit (suc (suc (suc (suc (suc (suc (suc (suc (suc zero))))))))) h = refl
code-digit (suc (suc (suc (suc (suc (suc (suc (suc (suc (suc d)))))))))) h = absurd (omega arith)

last_digit : (n : ℕ) → n / 10 * 10 + (code (digit (n % 10)) - b'0') ≡ n
last_digit n = omega (arith, code-digit (n % 10) (omega arith))

-- Reading back what was printed.
value_from-padded :
    (fuel width n : ℕ) (rest : String)
    → n ≤ fuel
    → value_from 0 (padded fuel width n rest) ≡ value_from n rest
unfolding padded value_from
value_from-padded zero width n rest h = ap (λ k. value_from k rest) (omega arith)
value_from-padded (suc fuel) width n rest h =
    let step =
      value_from-padded fuel (width - 1) (n / 10) (String.◌∷◌ (digit (n % 10)) rest) (omega arith)
      ∙ ap (λ k. value_from k rest) (last_digit n) in
    elim (Bool-cases (leb n 0)) [
      | inl z ↦ elim (Bool-cases (leb width 0)) [
        | inl w ↦ rw (z, w) (ap (λ k. value_from k rest) (ground arith))
        | inr w ↦ rw (z, w) step
      ]
      | inr z ↦ rw z step
    ]

-- Two ids with one prefix and one text have one number.
pub numbered_injective : (prefix : String) (m n : ℕ) → numbered prefix m ≡ numbered prefix n → m ≡ n
unfolding numbered value_from
numbered_injective prefix m n e =
    sym (value_from-padded (m + 7) 6 m "" (omega arith))
    ∙ ap (value_from 0) (append_cancel_left prefix _ _ e)
    ∙ value_from-padded (n + 7) 6 n "" (omega arith)

test : numbered "run_" 1204 ≡ "run_001204"
unfolding numbered
test = refl

test_wide : numbered "run_" 12345678 ≡ "run_12345678"
unfolding numbered
test_wide = refl
