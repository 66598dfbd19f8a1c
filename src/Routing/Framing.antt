-- ===== src/Routing/Framing.antt =====
-- The bytes that internal/agentrouting/approval_binding.go hashes.
use ia_cstudio.Prelude.{
  ℕ, ◌/◌, ◌%◌, ◌^◌, ◌<◌, ◌≡◌, refl, sym, ap, ap₂, ◌∙◌, String, true, List, [], ◌∷◌, ◌++◌, arith,
  length, All, cons_injective, append_injective,
}
use ia_cstudio.Routing.Policy.{Request, valid_request}
use ia_cstudio.Routing.Bytes.{
  bytes_injective, mode_text_injective, risk_text_injective, valid_request-known, same_fields,
}
use ia_cstudio.Routing.Binding.{
  bytes, put_uint64, binding_field, binding_fields, binding_prefix, operation_fields,
  binding_message,
}

-- the last byte and the others
low_byte : (m n : ℕ) → m % 256 ≡ n % 256 → m / 256 ≡ n / 256 → m ≡ n
low_byte m n low high = omega arith

put_uint64_injective :
    (m n : ℕ) {rest rest' : List ℕ}
    → m < 2 ^ 64
    → n < 2 ^ 64
    → put_uint64 m ++ rest ≡ put_uint64 n ++ rest'
    → (m ≡ n) × (rest ≡ rest')
unfolding put_uint64
put_uint64_injective m n {rest} {rest'} fits fits' e =
    let (b₇, e₇) = cons_injective e in
    let (b₆, e₆) = cons_injective e₇ in
    let (b₅, e₅) = cons_injective e₆ in
    let (b₄, e₄) = cons_injective e₅ in
    let (b₃, e₃) = cons_injective e₄ in
    let (b₂, e₂) = cons_injective e₃ in
    let (b₁, e₁) = cons_injective e₂ in
    let (b₀, e₀) = cons_injective e₁ in
    let h₇ : m / 2 ^ 56 ≡ n / 2 ^ 56 = omega (arith, fits, fits', b₇) in
    let h₆ : m / 2 ^ 48 ≡ n / 2 ^ 48 = low_byte _ _ b₆ (omega (arith, h₇)) in
    let h₅ : m / 2 ^ 40 ≡ n / 2 ^ 40 = low_byte _ _ b₅ (omega (arith, h₆)) in
    let h₄ : m / 2 ^ 32 ≡ n / 2 ^ 32 = low_byte _ _ b₄ (omega (arith, h₅)) in
    let h₃ : m / 2 ^ 24 ≡ n / 2 ^ 24 = low_byte _ _ b₃ (omega (arith, h₄)) in
    let h₂ : m / 2 ^ 16 ≡ n / 2 ^ 16 = low_byte _ _ b₂ (omega (arith, h₃)) in
    let h₁ : m / 2 ^ 8 ≡ n / 2 ^ 8 = low_byte _ _ b₁ (omega (arith, h₂)) in (low_byte m n b₀ h₁, e₀)

append_assoc : (xs ys zs : List ℕ) → (xs ++ ys) ++ zs ≡ xs ++ (ys ++ zs)
append_assoc [] ys zs = refl
append_assoc (x ∷ xs) ys zs = ap (λ t. x ∷ t) (append_assoc xs ys zs)

abbrev pub Fits : List (List ℕ) → Type 0
Fits fields = All (λ field. length field < 2 ^ 64) fields

-- As many fields, each shorter than 2^64 bytes, are read back from what is written.
pub binding_fields_injective :
    (fields fields' : List (List ℕ))
    → length fields ≡ length fields'
    → Fits fields
    → Fits fields'
    → binding_fields fields ≡ binding_fields fields'
    → fields ≡ fields'
unfolding binding_fields binding_field
binding_fields_injective [] [] same fits fits' e = refl
binding_fields_injective [] (g ∷ gs) same fits fits' e = absurd (omega arith)
binding_fields_injective (f ∷ fs) [] same fits fits' e = absurd (omega arith)
binding_fields_injective (f ∷ fs) (g ∷ gs) same (fit, fits) (fit', fits') e =
    let flat =
      sym (append_assoc (put_uint64 (length f)) f (binding_fields fs))
      ∙ e
      ∙ append_assoc (put_uint64 (length g)) g (binding_fields gs) in
    let (lengths, tail) = put_uint64_injective (length f) (length g) fit fit' flat in
    let (one, rest) = append_injective f g lengths tail in
    ap₂ (λ h hs. h ∷ hs) one (binding_fields_injective fs gs (omega arith) fits fits' rest)

-- Two operations that hash the same bytes are the same: they have the same run, the same request, in
-- each of its fields, and the same arguments. The requests are valid, as a binding is made for no
-- other, and each field is shorter than 2^64 bytes.
pub binding_message_injective :
    (run_id run_id' : String) (r r' : Request) (arguments arguments' : List ℕ)
    → valid_request r ≡ true
    → valid_request r' ≡ true
    → Fits (operation_fields run_id r arguments)
    → Fits (operation_fields run_id' r' arguments')
    → binding_message run_id r arguments ≡ binding_message run_id' r' arguments'
    → (run_id ≡ run_id') × (r ≡ r') × (arguments ≡ arguments')
unfolding binding_message operation_fields
binding_message_injective run_id run_id' r r' arguments arguments' valid valid' fits fits' e =
    let fields =
      binding_fields_injective (operation_fields run_id r arguments)
        (operation_fields run_id' r' arguments') (unfold operation_fields in refl) fits fits'
        (append_injective (bytes binding_prefix) (bytes binding_prefix) refl e).1 in
    let (run, e₀) = cons_injective fields in
    let (project, e₁) = cons_injective e₀ in
    let (provider, e₂) = cons_injective e₁ in
    let (connection, e₃) = cons_injective e₂ in
    let (server, e₄) = cons_injective e₃ in
    let (tool, e₅) = cons_injective e₄ in
    let (mode, e₆) = cons_injective e₅ in
    let (risk, e₇) = cons_injective e₆ in
    let (last, _) = cons_injective {xs = []} {ys = []} e₇ in
    let (known, graded) = valid_request-known r valid in
    let (known', graded') = valid_request-known r' valid' in
    (
      bytes_injective _ _ run,
      same_fields r r' (bytes_injective _ _ project) (bytes_injective _ _ provider)
          (bytes_injective _ _ connection) (bytes_injective _ _ server) (bytes_injective _ _ tool)
          (mode_text_injective _ _ known known' (bytes_injective _ _ mode))
          (risk_text_injective _ _ graded graded' (bytes_injective _ _ risk)),
      last,
    )
