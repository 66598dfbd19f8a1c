-- ===== src/Runs/Blank.antt =====
-- Gates of internal/agentruns/store.go whose binding is spent.
use mathlib.Core.Option.{none-ne-some, some-injective}
use ia_cstudio.Prelude.{
  ◌+◌, ◌≡◌, ◌≢◌, refl, sym, ap, ◌∙◌, String, true, false, not, ◌||◌, List, [], ◌∷◌, ◌++◌, Option,
  none, some, arith, inl, inr, Result, ok, length, Result-cases, Bool-cases, ◌==◌, eq_iff,
  if◌then◌else◌,
}
use ia_cstudio.Runs.Types.{Run, Time, Error, ApprovalGate, ApprovalStatus}
use ia_cstudio.Runs.Gates.{is_approved}
use ia_cstudio.Runs.Changes
use ia_cstudio.Runs.Store.{Host}
use ia_cstudio.Runs.Effect.{Mutation}
use ia_cstudio.Runs.Updates.{Found, kept, changed}

-- the first gate with the id, which the loops of the source act on
unfoldable pub first_gate : String → List ApprovalGate → Option ApprovalGate
first_gate id [] = none
first_gate id (g ∷ gates) = if g.id == id then some g else first_gate id gates

-- The gate is there, and has no binding.
abbrev pub IsSpent : String → Run → Type 0
IsSpent id r =
    (g : ApprovalGate) × (first_gate id r.approvals ≡ some g) × (g.operation_binding.value ≡ "")

-- What `spend` needs, and what it leaves.
pub spend-ok :
    (id : String) (gates later : List ApprovalGate)
    → Changes.spend id gates ≡ ok later
    → ((g : ApprovalGate) × (first_gate id gates ≡ some g)
        × (is_approved g.status ≡ true)
        × (g.operation_binding.value ≢ ""))
      × ((g : ApprovalGate) × (first_gate id later ≡ some g) × (g.operation_binding.value ≡ ""))
unfolding Changes.spend first_gate
spend-ok id [] later e = cc
spend-ok id (g ∷ gates) later e = elim (Bool-cases (g.id == id)) [
  | inl same ↦
      let fine : (not (is_approved g.status) || g.operation_binding.value == "") ≡ false =
        ground arith in
      let shape : later ≡ record g { operation_binding = record { value = "" } } ∷ gates =
        ground arith in
      (
        (
          g,
          rw same refl,
          ground arith,
          λ none_left. ground (arith, eq_iff g.operation_binding.value ""),
        ),
        (record g { operation_binding = record { value = "" } }, rw (shape, same) refl, refl),
      )
  | inr other ↦ elim (Result-cases (Changes.spend id gates)) [
    | inl (rest, found) ↦
        let (before, after) = spend-ok id gates rest found in
        let shape : later ≡ g ∷ rest = ground arith in
        (
          (before.0, rw other before.1, before.2, before.3),
          (after.0, rw (shape, other) after.1, after.2),
        )
    | inr (x, failed) ↦ absurd (ground arith)
  ]
]

-- A spent gate cannot be spent.
pub spend_spent :
    (id : String) (gates : List ApprovalGate) (g : ApprovalGate)
    → first_gate id gates ≡ some g
    → g.operation_binding.value ≡ ""
    → (later : List ApprovalGate) → Changes.spend id gates ≢ ok later
spend_spent id gates g first blank later e =
    let (before, after) = spend-ok id gates later e in
    before.3 (
      ap (λ (x : ApprovalGate). x.operation_binding.value)
        (some-injective _ _ (sym before.1 ∙ first))
      ∙ blank)

module _ (id : String) where
  -- the gate that is found has no binding
  abbrev IsBlank : List ApprovalGate → Type 0
  IsBlank gates =
      (g : ApprovalGate) × (first_gate id gates ≡ some g) × (g.operation_binding.value ≡ "")

  IsBlank-append : (gates more : List ApprovalGate) → IsBlank gates → IsBlank (gates ++ more)
  unfolding first_gate
  IsBlank-append [] more (g, first, blank) = absurd (none-ne-some _ first)
  IsBlank-append (h ∷ gates) more (g, first, blank) = elim (Bool-cases (h.id == id)) [
    | inl same ↦ (g, rw same (rw same at first), blank)
    | inr other ↦
        let (x, later, y) = IsBlank-append gates more (g, rw other at first, blank) in
        (x, rw other later, y)
  ]

  IsBlank-spend :
      (other : String) (gates later : List ApprovalGate)
      → Changes.spend other gates ≡ ok later
      → IsBlank gates
      → IsBlank later
  unfolding first_gate Changes.spend
  IsBlank-spend other [] later e b = cc
  IsBlank-spend other (h ∷ gates) later e (g, first, blank) = elim (Bool-cases (h.id == other)) [
    | inl same ↦
        let shape : later ≡ record h { operation_binding = record { value = "" } } ∷ gates =
          ground arith in
        rw shape (elim (Bool-cases (h.id == id)) [
          | inl mine ↦ (record h { operation_binding = record { value = "" } }, rw mine refl, refl)
          | inr apart ↦ (g, rw apart (rw apart at first), blank)
        ])
    | inr differ ↦ elim (Result-cases (Changes.spend other gates)) [
      | inl (rest, found) ↦
          let shape : later ≡ h ∷ rest = ground arith in
          rw shape (elim (Bool-cases (h.id == id)) [
            | inl mine ↦ (g, rw mine (rw mine at first), blank)
            | inr apart ↦
                let (x, next, y) =
                  IsBlank-spend other gates rest found (g, rw apart at first, blank) in
                (x, rw apart next, y)
          ])
      | inr (x, failed) ↦ absurd (ground arith)
    ]
  ]

  IsBlank-decide_gate :
      (redact : String → String) (other : String) (decision : ApprovalStatus) (by : String)
      (now : Time) (gates : List ApprovalGate) {found : ApprovalGate × List ApprovalGate}
      → Changes.decide_gate redact other decision by now gates ≡ ok found
      → IsBlank gates
      → IsBlank found.1
  unfolding first_gate Changes.decide_gate Changes.decided_gate
  IsBlank-decide_gate redact other decision by now [] e b = cc
  IsBlank-decide_gate redact other decision by now (h ∷ gates) {found} e (g, first, blank) =
      elim (Bool-cases (h.id == other)) [
        | inl same ↦
            let decided : ApprovalGate = Changes.decided_gate redact decision by now h in
            let shape : found.1 ≡ decided ∷ gates = ground arith in
            rw shape (elim (Bool-cases (h.id == id)) [
              | inl mine ↦
                  let is : h ≡ g = some-injective _ _ (rw mine at first) in
                  (decided, rw mine refl, rw is blank)
              | inr apart ↦ (g, rw apart (rw apart at first), blank)
            ])
        | inr differ ↦
            elim (Result-cases (Changes.decide_gate redact other decision by now gates)) [
              | inl (rest, decided) ↦
                  let shape : found.1 ≡ h ∷ rest.1 = ground arith in
                  rw shape (elim (Bool-cases (h.id == id)) [
                    | inl mine ↦ (g, rw mine (rw mine at first), blank)
                    | inr apart ↦
                        let (x, next, y) =
                          IsBlank-decide_gate redact other decision by now gates decided
                            (g, rw apart at first, blank) in
                        (x, rw apart next, y)
                  ])
              | inr (x, failed) ↦ absurd (ground arith)
            ]
      ]

-- the gates of a run after a closure
same_gates : (id : String) (r r' : Run) → r'.approvals ≡ r.approvals → IsSpent id r → IsSpent id r'
same_gates id r r' e b = rw e b

pub consume_gates :
    (redact : String → String) (id message : String) (r : Run) (now : Time) {r' : Run}
    → Changes.consume redact id message r now ≡ ok r'
    → Changes.spend id r.approvals ≡ ok r'.approvals
unfolding Changes.consume
consume_gates redact id message r now e = ground arith

decide_gates :
    (redact : String → String) (id : String) (decision : ApprovalStatus) (by : String) (r : Run)
    (now : Time) {r' : Run}
    → Changes.decide_approval redact id decision by r now ≡ ok r'
    → (g : ApprovalGate) × (Changes.decide_gate redact id decision by now r.approvals
        ≡ ok (g, r'.approvals))
unfolding Changes.decide_approval
decide_gates redact id decision by r now {r'} e =
    elim (Result-cases (Changes.decide_gate redact id decision by now r.approvals)) [
      | inl (found, decided) ↦
          let last : r'.approvals ≡ found.1 = ground arith in (found.0, rw last decided)
      | inr (x, failed) ↦ absurd (ground arith)
    ]

-- No closure gives a spent gate its binding back.
Mutation-IsSpent :
    {host : Host} {mutate : Run → Time → Result Error Run} (id : String) (r : Run) (now : Time)
    {r' : Run}
    → Mutation host mutate
    → mutate r now ≡ ok r'
    → IsSpent id r
    → IsSpent id r'
unfolding Changes.set_status Changes.cancel Changes.fail Changes.add_log Changes.add_patch
    Changes.add_approval
Mutation-IsSpent id r now {r'} (Mutation.set_status status v) e b =
    same_gates id r r' (ground arith) b
Mutation-IsSpent id r now {r'} Mutation.cancel e b = same_gates id r r' (ground arith) b
Mutation-IsSpent id r now {r'} (Mutation.fail message) e b = same_gates id r r' (ground arith) b
Mutation-IsSpent id r now {r'} (Mutation.add_log level message reject) e b =
    same_gates id r r' (ground arith) b
Mutation-IsSpent {host} id r now {r'} (Mutation.consume other message) e b =
    IsBlank-spend id other r.approvals r'.approvals
      (consume_gates host.redact other message r now e) b
Mutation-IsSpent id r now {r'} (Mutation.add_patch path patch) e b =
    same_gates id r r' (ground arith) b
Mutation-IsSpent {host} id r now {r'} (Mutation.add_approval gate bound) e b =
    let more = Changes.new_gate host.redact gate (length r.approvals + 1) now ∷ [] in
    let shape : r'.approvals ≡ r.approvals ++ more = ground arith in
    rw shape (IsBlank-append id r.approvals more b)
Mutation-IsSpent {host} id r now {r'} (Mutation.decide other decision by d) e b =
    let (g, decided) = decide_gates host.redact other decision by r now e in
    IsBlank-decide_gate id host.redact other decision by now r.approvals decided b

pub Found-IsSpent :
    {host : Host} (id : String) (now : Time) (r u : Run)
    → Found host now r u
    → IsSpent id r
    → IsSpent id u
Found-IsSpent id now r u (kept same) b = rw same b
Found-IsSpent id now r u (changed r' m done is) b = rw is (Mutation-IsSpent id r now m done b)
