-- ===== src/Attempts/Executions/Fingerprint.antt =====
-- What the fingerprint of an execution covers.
use ia_cstudio.Prelude.{◌≡◌, ◌↔◌, refl, ap₂, true, List, [], ℕ, cons_injective}
use ia_cstudio.Routing.Policy.{Request, valid_request}
use ia_cstudio.Routing.Bytes.{
  bytes_injective, mode_text_injective, valid_request-known, same_fields,
}
use ia_cstudio.Routing.Framing.{Fits, binding_fields_injective}
use ia_cstudio.Attempts.Executions.{intent_fields, execution_message}

-- Two executions of valid requests hash the same bytes exactly if they have the same arguments and
-- their requests are the same in every field but the risk, which may differ, provided that each field
-- is shorter than 2^64 bytes.
pub execution_message_injective :
    (r r' : Request) (arguments arguments' : List ℕ)
    → valid_request r ≡ true
    → valid_request r' ≡ true
    → Fits (intent_fields r arguments)
    → Fits (intent_fields r' arguments')
    → (execution_message r arguments ≡ execution_message r' arguments')
      ↔ ((record r { risk = r'.risk } ≡ r') × (arguments ≡ arguments'))
unfolding execution_message intent_fields
execution_message_injective r r' arguments arguments' valid valid' fits fits' = (
  λ e.
      let (project, e₁) = cons_injective (
        binding_fields_injective (intent_fields r arguments) (intent_fields r' arguments') refl fits
          fits' e) in
      let (provider, e₂) = cons_injective e₁ in
      let (connection, e₃) = cons_injective e₂ in
      let (server, e₄) = cons_injective e₃ in
      let (tool, e₅) = cons_injective e₄ in
      let (mode, e₆) = cons_injective e₅ in
      let (last, _) = cons_injective {xs = []} {ys = []} e₆ in
      let (known, _) = valid_request-known r valid in
      let (known', _) = valid_request-known r' valid' in
      (
        same_fields (record r { risk = r'.risk }) r' (bytes_injective _ _ project)
            (bytes_injective _ _ provider) (bytes_injective _ _ connection)
            (bytes_injective _ _ server) (bytes_injective _ _ tool)
            (mode_text_injective _ _ known known' (bytes_injective _ _ mode)) refl,
        last,
      ),
  λ (same, last). ap₂ execution_message same last,
)
