-- ===== src/Routing/FramingTests.antt =====
-- The bytes of one operation.
use ia_cstudio.Prelude.{ℕ, ◌^◌, ◌<◌, ◌≡◌, refl, String, true, List, [], ◌∷◌, arith}
use ia_cstudio.Text.Trim.{trim_space}
use ia_cstudio.Runs.Types.{mode_valid}
use ia_cstudio.Routing.Policy.{valid_request, valid_field, valid_risk}
use ia_cstudio.Routing.Binding.{bytes, operation_fields}
use ia_cstudio.Routing.Framing.{Fits, binding_message_injective}
use ia_cstudio.Routing.Tests.{request}

fields_fit : Fits (operation_fields "run_000001" request (123 ∷ 125 ∷ []))
unfolding operation_fields bytes
fields_fit =
    let small : (n : ℕ) → n < 100 → n < 2 ^ 64 = λ n h. omega arith in
    (
      small _ (omega arith),
      (
        small _ (omega arith),
        (
          small _ (omega arith),
          (
            small _ (omega arith),
            (
              small _ (omega arith),
              (
                small _ (omega arith),
                (small _ (omega arith), (small _ (omega arith), (small _ (omega arith), tt))),
              ),
            ),
          ),
        ),
      ),
    )

valid_test : valid_request request ≡ true
unfolding valid_request valid_field trim_space mode_valid valid_risk
valid_test = refl

binding_message_injective_example :
    (◌≡◌ {A = String} "run_000001" "run_000001")
    × (request ≡ request)
    × (◌≡◌ {A = List ℕ} (123 ∷ 125 ∷ []) (123 ∷ 125 ∷ []))
binding_message_injective_example =
    binding_message_injective "run_000001" "run_000001" request request (123 ∷ 125 ∷ [])
      (123 ∷ 125 ∷ []) valid_test valid_test fields_fit fields_fit refl
