-- ===== src/Runner/Output.antt =====
-- `limitedWriter` of internal/runner/safe_runner.go, which keeps the first bytes of the output of a
-- command. A byte is a number, the limit is not negative.
use ia_cstudio.Prelude.{
  ℕ, zero, suc, ◌+◌, ◌-◌, ◌≤◌, ◌<◌, ◌≡◌, refl, sym, ap, ap₂, ◌∙◌, ◌⊎◌, ltb→lt, ltb-false→le, Bool,
  true, false, List, [], ◌∷◌, ◌++◌, take, length, length-append, ltb, if◌then◌else◌, arith,
  Bool-cases, inl, inr,
}

pub record LimitedWriter : Type 0 where
  pub buf : List ℕ
  pub truncated : Bool

unfoldable pub write : ℕ → LimitedWriter → List ℕ → LimitedWriter
write limit lw p =
    let remaining = limit - length lw.buf in
    if ltb limit (length lw.buf + length p)
    then record {
      buf = if ltb 0 remaining then lw.buf ++ take remaining p else lw.buf;
      truncated = true;
    }
    else record lw { buf = lw.buf ++ p }

-- what a writer holds after a command wrote its output in pieces
unfoldable pub write_all : ℕ → LimitedWriter → List (List ℕ) → LimitedWriter
unfolding write
write_all limit lw [] = lw
write_all limit lw (p ∷ ps) = write_all limit (write limit lw p) ps

unfoldable pub new_writer : LimitedWriter
new_writer = record { buf = []; truncated = false }

-- the whole output
abbrev pub joined : List (List ℕ) → List ℕ
joined [] = []
joined (p ∷ ps) = p ++ joined ps

take_all : (n : ℕ) (xs : List ℕ) → length xs ≤ n → take n xs ≡ xs
take_all n [] h = refl
take_all zero (x ∷ xs) h = absurd (omega arith)
take_all (suc n) (x ∷ xs) h = ap (λ ys. x ∷ ys) (take_all n xs (omega arith))

take_zero : (xs : List ℕ) → take 0 xs ≡ []
take_zero [] = refl
take_zero (x ∷ xs) = refl

take-append : (n : ℕ) (xs ys : List ℕ) → take n (xs ++ ys) ≡ take n xs ++ take (n - length xs) ys
take-append n [] ys = ap (λ k. take k ys) (omega arith)
take-append zero (x ∷ xs) ys = sym (ap (λ k. take k ys) (omega arith) ∙ take_zero ys)
take-append (suc n) (x ∷ xs) ys =
    ap (λ zs. x ∷ zs) (take-append n xs ys ∙ ap (λ k. take n xs ++ take k ys) (omega arith))

length-take :
    (n : ℕ) (xs : List ℕ)
    → (length xs ≤ n) × (length (take n xs) ≡ length xs)
      ⊎ (n ≤ length xs) × (length (take n xs) ≡ n)
length-take n [] = inl (omega arith, refl)
length-take zero (x ∷ xs) = inr (omega arith, refl)
length-take (suc n) (x ∷ xs) = elim (length-take n xs) [
  | inl (short, kept) ↦ inl (omega arith, omega arith)
  | inr (long, cut) ↦ inr (omega arith, omega arith)
]

length-take-le : (n : ℕ) (xs : List ℕ) → length (take n xs) ≤ length xs
length-take-le n xs = elim (length-take n xs) [
  | inl (short, kept) ↦ omega arith
  | inr (long, cut) ↦ omega arith
]

-- What a cut leaves to fill is what the whole output leaves.
room-take : (n : ℕ) (xs : List ℕ) → n - length (take n xs) ≡ n - length xs
room-take n xs = elim (length-take n xs) [
  | inl (short, kept) ↦ omega arith
  | inr (long, cut) ↦ omega arith
]

lt→ltb : (a b : ℕ) → a < b → ltb a b ≡ true
lt→ltb a b h = ground arith

le→ltb-false : (a b : ℕ) → b ≤ a → ltb a b ≡ false
le→ltb-false a b h = ground arith

ltb-zero : (a : ℕ) → ltb 0 a ≡ false → a ≡ 0
ltb-zero a h = ground arith

append_nil : (xs : List ℕ) → xs ++ [] ≡ xs
append_nil [] = refl
append_nil (x ∷ xs) = ap (λ ys. x ∷ ys) (append_nil xs)

append_assoc : (xs ys zs : List ℕ) → (xs ++ ys) ++ zs ≡ xs ++ (ys ++ zs)
append_assoc [] ys zs = refl
append_assoc (x ∷ xs) ys zs = ap (λ r. x ∷ r) (append_assoc xs ys zs)

-- What a writer holds of an output: its first bytes, up to the limit, and whether it was cut.
abbrev pub limited : ℕ → List ℕ → LimitedWriter
limited limit output = record { buf = take limit output; truncated = ltb limit (length output) }

write-past :
    (limit : ℕ) (lw : LimitedWriter) (p : List ℕ)
    → limit < length lw.buf + length p
    → write limit lw p ≡ record { buf = lw.buf ++ take (limit - length lw.buf) p; truncated = true }
unfolding write
write-past limit lw p h = rw (lt→ltb _ _ h) (elim (Bool-cases (ltb 0 (limit - length lw.buf))) [
  | inl room ↦ rw room refl
  | inr full ↦ rw full (
      ap (λ buf. record { buf = buf; truncated = true })
        (sym (
          ap (λ k. lw.buf ++ take k p) (ltb-zero _ full)
          ∙ ap (λ r. lw.buf ++ r) (take_zero p)
          ∙ append_nil lw.buf)))
])

write-within :
    (limit : ℕ) (lw : LimitedWriter) (p : List ℕ)
    → length lw.buf + length p ≤ limit
    → write limit lw p ≡ record { buf = lw.buf ++ p; truncated = lw.truncated }
unfolding write
write-within limit lw p h = rw (le→ltb-false _ _ h) refl

pieces :
    {buf buf' : List ℕ} {cut cut' : Bool}
    → buf ≡ buf'
    → cut ≡ cut'
    → ◌≡◌ {A = LimitedWriter}
        (record { buf = buf; truncated = cut })
        (record { buf = buf'; truncated = cut' })
pieces same_buf same_cut = ap₂ (λ b c. record { buf = b; truncated = c }) same_buf same_cut

first_bytes :
    (limit : ℕ) (output p : List ℕ)
    → take limit output ++ take (limit - length (take limit output)) p ≡ take limit (output ++ p)
first_bytes limit output p =
    ap (λ k. take limit output ++ take k p) (room-take limit output)
    ∙ sym (take-append limit output p)

whole_flag :
    (limit : ℕ) (output p : List ℕ)
    → length (take limit output) + length p ≤ limit
    → ltb limit (length output) ≡ ltb limit (length (output ++ p))
whole_flag limit output p h = elim (length-take limit output) [
  | inl (short, kept) ↦ ground (arith, length-append output p)
  | inr (long, cut) ↦ ground (arith, length-append output p)
]

-- Writing a piece continues the output.
write-limited :
    (limit : ℕ) (output p : List ℕ)
    → write limit (limited limit output) p ≡ limited limit (output ++ p)
write-limited limit output p =
    elim (Bool-cases (ltb limit (length (take limit output) + length p))) [
      | inl cut ↦
          write-past limit (limited limit output) p (ltb→lt _ _ cut)
          ∙ pieces (first_bytes limit output p) (
              sym (
                lt→ltb limit _ (
                  omega
                    (arith, ltb→lt _ _ cut, length-append output p, length-take-le limit output))))
      | inr whole ↦
          let fits = ltb-false→le _ _ whole in
          write-within limit (limited limit output) p fits
          ∙ pieces
              (ap (λ q. take limit output ++ q) (sym (take_all _ p (omega (arith, fits))))
                ∙ first_bytes limit output p)
              (whole_flag limit output p fits)
    ]

write_all-cons :
    (limit : ℕ) (lw : LimitedWriter) (p : List ℕ) (ps : List (List ℕ))
    → write_all limit lw (p ∷ ps) ≡ write_all limit (write limit lw p) ps
unfolding write_all
write_all-cons limit lw p ps = refl

write_all-limited :
    (limit : ℕ) (output : List ℕ) (ps : List (List ℕ))
    → write_all limit (limited limit output) ps ≡ limited limit (output ++ joined ps)
unfolding write_all
write_all-limited limit output [] = ap (limited limit) (sym (append_nil output))
write_all-limited limit output (p ∷ ps) =
    write_all-cons limit (limited limit output) p ps
    ∙ ap (λ lw. write_all limit lw ps) (write-limited limit output p)
    ∙ write_all-limited limit (output ++ p) ps
    ∙ ap (limited limit) (append_assoc output p (joined ps))

-- Whatever the pieces are in which a command writes its output, the writer holds exactly the first
-- bytes of the output, up to the limit, and its flag is on exactly if the output is longer than the
-- limit.
pub write_all_exact :
    (limit : ℕ) (ps : List (List ℕ)) → write_all limit new_writer ps ≡ limited limit (joined ps)
unfolding new_writer
write_all_exact limit ps =
    ap (λ lw. write_all limit lw ps) (pieces refl (sym (le→ltb-false limit 0 (omega arith))))
    ∙ write_all-limited limit [] ps
