-- ===== src/Text/Cut.antt =====
-- `truncate` and `safeUTF8PrefixLen` of internal/agentruns/store.go.
use Prim.Native.Char.{Char, len_utf8}
use Prim.Native.Nat.{compare as compare_ℕ, Ordering}
use Prim.Native.String.{slice, fits}
use Prim.Native.String.len
use Prim.Native.String.slice
use text.Mathlib.TextPositions.{len-append}
use ia_cstudio.Prelude.{
  ℕ, ◌+◌, ◌-◌, ◌≤◌, ◌<◌, ◌≡◌, refl, ◌||◌, String, ◌<>◌, len, arith, ltb, leb, eqb, if◌then◌else◌,
  Bool-cases, inl, inr,
}

-- the loop `for i := range text { if i > limit { break }; last = i }`, at the character that
-- begins at byte `i`
last_start : ℕ → ℕ → ℕ → String → ℕ
last_start limit i last String.[] = last
last_start limit i last (String.◌∷◌ c s) =
    let next = last_start limit (i + len_utf8 c) i s in if ltb limit i then last else next

unfoldable pub safe_utf8_prefix_len : String → ℕ → ℕ
unfolding last_start
safe_utf8_prefix_len text limit =
    if eqb limit 0 then 0 else if leb (len text) limit then len text else last_start limit 0 0 text

unfoldable pub truncate : String → ℕ → String
truncate text limit =
    if eqb limit 0 || leb (len text) limit
    then text
    else if leb limit 3
    then slice text 0 (safe_utf8_prefix_len text limit)
    else slice text 0 (safe_utf8_prefix_len text (limit - 3)) <> "..."

last_start-le : (limit i last : ℕ) (s : String) → last ≤ limit → last_start limit i last s ≤ limit
unfolding last_start
last_start-le limit i last String.[] h = h
last_start-le limit i last (String.◌∷◌ c s) h = elim (Bool-cases (ltb limit i)) [
  | inl stop ↦ rw stop h
  | inr go ↦ rw go (last_start-le limit (i + len_utf8 c) i s (ground arith))
]

-- The cut lies at or before the limit.
pub safe_utf8_prefix_len-le : (text : String) (limit : ℕ) → safe_utf8_prefix_len text limit ≤ limit
unfolding safe_utf8_prefix_len
safe_utf8_prefix_len-le text limit = ground (arith, last_start-le limit 0 0 text)

len-fits :
    (o : Ordering) (c : Char) (s : String) (b : ℕ)
    → compare_ℕ (len_utf8 c) b ≡ o
    → len s ≤ b - len_utf8 c
    → len (fits o c s) ≤ b
len-fits Ordering.lt c s b e h = rw (len.cons c s) (ground arith)
len-fits Ordering.eq c s b e h = rw (len.cons c s) (ground arith)
len-fits Ordering.gt c s b e h = omega arith

-- A slice from the start has at most as many bytes as its end says.
len-slice-le : (s : String) (b : ℕ) → len (slice s 0 b) ≤ b
len-slice-le String.[] b = rw (slice.nil 0 b) (omega arith)
len-slice-le (String.◌∷◌ c s) b =
    rw (slice.cons-zero c s b) (len-fits _ c _ b refl (len-slice-le s (b - len_utf8 c)))

-- A truncated text has at most `limit` bytes, where a limit is given.
pub len-truncate-le : (text : String) (limit : ℕ) → 0 < limit → len (truncate text limit) ≤ limit
unfolding truncate
len-truncate-le text limit h = ground (
  arith,
  len-slice-le text (safe_utf8_prefix_len text limit),
  safe_utf8_prefix_len-le text limit,
  len-slice-le text (safe_utf8_prefix_len text (limit - 3)),
  safe_utf8_prefix_len-le text (limit - 3),
  len-append (slice text 0 (safe_utf8_prefix_len text (limit - 3))) "...",
)

-- A text within the limit is kept as it is.
pub truncate_short : (text : String) (limit : ℕ) → len text ≤ limit → truncate text limit ≡ text
unfolding truncate
truncate_short text limit h = ground arith

cut_test : truncate "abcdefgh" 6 ≡ "abc..."
unfolding truncate safe_utf8_prefix_len
cut_test = refl
