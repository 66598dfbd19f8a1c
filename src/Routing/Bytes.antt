-- ===== src/Routing/Bytes.antt =====
-- `[]byte(s)` determines the text: UTF-8 is read back from its first byte.
use Prim.Native.Char.{code}
use text.Mathlib.TextEquality.{Char-path}
use ia_cstudio.Prelude.{
  ℕ, ◌+◌, ◌/◌, ◌%◌, ◌^◌, ◌≤◌, ◌<◌, ◌≡◌, ◌≢◌, refl, sym, ap, ap₂, ◌∙◌, ◌⊎◌, inl, inr, String, List,
  [], ◌∷◌, ◌++◌, arith, Bool-cases, ltb, ltb→lt, ltb-false→le, true, if◌then◌else◌, ◌==◌,
  cons_injective,
}
use ia_cstudio.Runs.Types.{Mode, mode_valid}
use ia_cstudio.Airlock.Types.{ToolRisk, risk_text}
use ia_cstudio.Routing.Policy.{Request, valid_request, valid_risk}
use ia_cstudio.Routing.Binding.{utf8, bytes, mode_text}

-- How many bytes a code point takes.
IsWritten : ℕ → Type 0
IsWritten c =
    ((c < 0x80) × (utf8 c ≡ c ∷ []))
    ⊎ ((0x80 ≤ c) × (c < 0x800) × (utf8 c ≡ (0xc0 + c / 2 ^ 6) ∷ (0x80 + c % 2 ^ 6) ∷ []))
    ⊎ ((0x800 ≤ c)
        × (c < 0x10000)
        × (utf8 c ≡ (0xe0 + c / 2 ^ 12) ∷ (0x80 + c / 2 ^ 6 % 2 ^ 6) ∷ (0x80 + c % 2 ^ 6) ∷ []))
    ⊎ ((0x10000 ≤ c)
        × (utf8 c
            ≡ (0xf0 + c / 2 ^ 18)
              ∷ (0x80 + c / 2 ^ 12 % 2 ^ 6)
              ∷ (0x80 + c / 2 ^ 6 % 2 ^ 6)
              ∷ (0x80 + c % 2 ^ 6)
              ∷ []))

written : (c : ℕ) → IsWritten c
unfolding IsWritten utf8
written c = elim (Bool-cases (ltb c 0x80)) [
  | inl one ↦ inl (ltb→lt _ _ one, rw one refl)
  | inr more ↦ elim (Bool-cases (ltb c 0x800)) [
    | inl two ↦ inr (inl (ltb-false→le _ _ more, ltb→lt _ _ two, rw (more, two) refl))
    | inr longer ↦ elim (Bool-cases (ltb c 0x10000)) [
      | inl three ↦
          inr (inr (inl (ltb-false→le _ _ longer, ltb→lt _ _ three, rw (more, longer, three) refl)))
      | inr four ↦ inr (inr (inr (ltb-false→le _ _ four, rw (more, longer, four) refl)))
    ]
  ]
]

-- The first code point and the rest are read back.
Reads : ℕ → ℕ → Type 0
Reads c d = (xs ys : List ℕ) → utf8 c ++ xs ≡ utf8 d ++ ys → (c ≡ d) × (xs ≡ ys)

read_one : (c d : ℕ) → c < 0x80 → utf8 c ≡ c ∷ [] → Reads c d
unfolding Reads IsWritten
read_one c d uc wc xs ys e = elim (written d) [
  | inl (ud, wd) ↦ let (b0, e0) = cons_injective (rw (wc, wd) at e) in (omega (arith, b0), e0)
  | inr (inl (ld, ud, wd)) ↦
      let (head, _) = cons_injective (rw (wc, wd) at e) in absurd (omega (arith, head))
  | inr (inr (inl (ld, ud, wd))) ↦
      let (head, _) = cons_injective (rw (wc, wd) at e) in absurd (omega (arith, head))
  | inr (inr (inr (ld, wd))) ↦
      let (head, _) = cons_injective (rw (wc, wd) at e) in absurd (omega (arith, head))
]

read_two :
    (c d : ℕ)
    → 0x80 ≤ c
    → c < 0x800
    → utf8 c ≡ (0xc0 + c / 2 ^ 6) ∷ (0x80 + c % 2 ^ 6) ∷ []
    → Reads c d
unfolding Reads IsWritten
read_two c d lc uc wc xs ys e = elim (written d) [
  | inl (ud, wd) ↦ let (head, _) = cons_injective (rw (wc, wd) at e) in absurd (omega (arith, head))
  | inr (inl (ld, ud, wd)) ↦
      let (b0, e0) = cons_injective (rw (wc, wd) at e) in
      let (b1, e1) = cons_injective e0 in (omega (arith, b0, b1), e1)
  | inr (inr (inl (ld, ud, wd))) ↦
      let (head, _) = cons_injective (rw (wc, wd) at e) in absurd (omega (arith, head))
  | inr (inr (inr (ld, wd))) ↦
      let (head, _) = cons_injective (rw (wc, wd) at e) in absurd (omega (arith, head))
]

read_three :
    (c d : ℕ)
    → 0x800 ≤ c
    → c < 0x10000
    → utf8 c ≡ (0xe0 + c / 2 ^ 12) ∷ (0x80 + c / 2 ^ 6 % 2 ^ 6) ∷ (0x80 + c % 2 ^ 6) ∷ []
    → Reads c d
unfolding Reads IsWritten
read_three c d lc uc wc xs ys e = elim (written d) [
  | inl (ud, wd) ↦ let (head, _) = cons_injective (rw (wc, wd) at e) in absurd (omega (arith, head))
  | inr (inl (ld, ud, wd)) ↦
      let (head, _) = cons_injective (rw (wc, wd) at e) in absurd (omega (arith, head))
  | inr (inr (inl (ld, ud, wd))) ↦
      let (b0, e0) = cons_injective (rw (wc, wd) at e) in
      let (b1, e1) = cons_injective e0 in
      let (b2, e2) = cons_injective e1 in (omega (arith, b0, b1, b2), e2)
  | inr (inr (inr (ld, wd))) ↦
      let (head, _) = cons_injective (rw (wc, wd) at e) in absurd (omega (arith, head))
]

read_four :
    (c d : ℕ)
    → 0x10000 ≤ c
    → utf8 c
      ≡ (0xf0 + c / 2 ^ 18)
        ∷ (0x80 + c / 2 ^ 12 % 2 ^ 6)
        ∷ (0x80 + c / 2 ^ 6 % 2 ^ 6)
        ∷ (0x80 + c % 2 ^ 6)
        ∷ []
    → Reads c d
unfolding Reads IsWritten
read_four c d lc wc xs ys e = elim (written d) [
  | inl (ud, wd) ↦ let (head, _) = cons_injective (rw (wc, wd) at e) in absurd (omega (arith, head))
  | inr (inl (ld, ud, wd)) ↦
      let (head, _) = cons_injective (rw (wc, wd) at e) in absurd (omega (arith, head))
  | inr (inr (inl (ld, ud, wd))) ↦
      let (head, _) = cons_injective (rw (wc, wd) at e) in absurd (omega (arith, head))
  | inr (inr (inr (ld, wd))) ↦
      let (b0, e0) = cons_injective (rw (wc, wd) at e) in
      let (b1, e1) = cons_injective e0 in
      let (b2, e2) = cons_injective e1 in
      let (b3, e3) = cons_injective e2 in (omega (arith, b0, b1, b2, b3), e3)
]

utf8-Reads : (c d : ℕ) → Reads c d
unfolding IsWritten
utf8-Reads c d = elim (written c) [
  | inl (uc, wc) ↦ read_one c d uc wc
  | inr (inl (lc, uc, wc)) ↦ read_two c d lc uc wc
  | inr (inr (inl (lc, uc, wc))) ↦ read_three c d lc uc wc
  | inr (inr (inr (lc, wc))) ↦ read_four c d lc wc
]

no_bytes : (c : ℕ) (xs : List ℕ) → utf8 c ++ xs ≢ []
unfolding IsWritten
no_bytes c xs e = elim (written c) [
  | inl (uc, wc) ↦ let clash = rw wc at e in cc
  | inr (inl (lc, uc, wc)) ↦ let clash = rw wc at e in cc
  | inr (inr (inl (lc, uc, wc))) ↦ let clash = rw wc at e in cc
  | inr (inr (inr (lc, wc))) ↦ let clash = rw wc at e in cc
]

-- Texts with the same bytes are the same.
pub bytes_injective : (s t : String) → bytes s ≡ bytes t → s ≡ t
unfolding bytes Reads
bytes_injective String.[] String.[] e = refl
bytes_injective String.[] (String.◌∷◌ d t) e = absurd (no_bytes (code d) _ (sym e))
bytes_injective (String.◌∷◌ c s) String.[] e = absurd (no_bytes (code c) _ e)
bytes_injective (String.◌∷◌ c s) (String.◌∷◌ d t) e =
    let (first, rest) = utf8-Reads (code c) (code d) (bytes s) (bytes t) e in
    ap₂ (λ x xs. String.◌∷◌ x xs) (Char-path c d first) (bytes_injective s t rest)

mode_of : String → Mode
mode_of t =
    if t == "read_only"
    then Mode.read_only
    else if t == "propose_only"
    then Mode.propose_only
    else Mode.approved_execute

mode_of-text : (m : Mode) → mode_valid m ≡ true → mode_of (mode_text m) ≡ m
unfolding mode_of mode_valid
mode_of-text Mode.read_only h = refl
mode_of-text Mode.propose_only h = refl
mode_of-text Mode.approved_execute h = refl
mode_of-text (Mode.other t) h = cc

pub mode_text_injective :
    (m m' : Mode) → mode_valid m ≡ true → mode_valid m' ≡ true → mode_text m ≡ mode_text m' → m ≡ m'
mode_text_injective m m' h h' e = sym (mode_of-text m h) ∙ ap mode_of e ∙ mode_of-text m' h'

risk_of : String → ToolRisk
risk_of t =
    if t == "read_only"
    then ToolRisk.read_only
    else if t == "generate_code"
    then ToolRisk.generate_code
    else if t == "modify_workspace"
    then ToolRisk.modify_workspace
    else if t == "cloud_mutation"
    then ToolRisk.cloud_mutation
    else if t == "secret_sensitive"
    then ToolRisk.secret_sensitive
    else if t == "destructive"
    then ToolRisk.destructive
    else ToolRisk.unknown

risk_of-text : (r : ToolRisk) → valid_risk r ≡ true → risk_of (risk_text r) ≡ r
unfolding risk_of valid_risk
risk_of-text ToolRisk.read_only h = refl
risk_of-text ToolRisk.generate_code h = refl
risk_of-text ToolRisk.modify_workspace h = refl
risk_of-text ToolRisk.cloud_mutation h = refl
risk_of-text ToolRisk.secret_sensitive h = refl
risk_of-text ToolRisk.destructive h = refl
risk_of-text ToolRisk.unknown h = refl
risk_of-text (ToolRisk.other t) h = cc

pub risk_text_injective :
    (r r' : ToolRisk)
    → valid_risk r ≡ true
    → valid_risk r' ≡ true
    → risk_text r ≡ risk_text r'
    → r ≡ r'
risk_text_injective r r' h h' e = sym (risk_of-text r h) ∙ ap risk_of e ∙ risk_of-text r' h'

-- The mode and the risk of a valid request are among the known ones.
pub valid_request-known :
    (r : Request) → valid_request r ≡ true → (mode_valid r.mode ≡ true) × (valid_risk r.risk ≡ true)
unfolding valid_request
valid_request-known r h = (ground arith, ground arith)

-- Requests that agree in every field are the same.
pub same_fields :
    (r r' : Request)
    → r.project ≡ r'.project
    → r.provider_id ≡ r'.provider_id
    → r.connection_id ≡ r'.connection_id
    → r.server_id ≡ r'.server_id
    → r.tool_name ≡ r'.tool_name
    → r.mode ≡ r'.mode
    → r.risk ≡ r'.risk
    → r ≡ r'
same_fields r r' a b c d e f g = λ i. record {
  project = a i;
  provider_id = b i;
  connection_id = c i;
  server_id = d i;
  tool_name = e i;
  mode = f i;
  risk = g i;
}
