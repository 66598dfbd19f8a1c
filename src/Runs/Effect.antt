-- ===== src/Runs/Effect.antt =====
-- What an operation of internal/agentruns/store.go can do to the store, as relations: nothing, the
-- insertion of a new run, or one closure applied to one run.
use ia_cstudio.Prelude.{
  ◌≡◌, String, Bool, true, false, not, ◌&&◌, ◌||◌, arith, Result, Bool-cases, inl, inr, ◌⊎◌, ◌==◌,
  eq_iff, Result-cases,
}
use ia_cstudio.Text.Trim.{trim_space}
use ia_cstudio.Runs.Types.{
  Status, Mode, LogLevel, ApprovalStatus, Time, ProposedPatch, ApprovalGate, Run, Error,
  CreateRequest, mode_valid, valid_status, valid_log_level, valid_approval_kind,
}
use ia_cstudio.Runs.Gates.{valid_approval_binding, is_approved, is_rejected}
use ia_cstudio.Runs.Changes
use ia_cstudio.Runs.Store
use ia_cstudio.Runs.Store.{Store, Host, insert_run, update, default_mode}
use ia_cstudio.Runs.PatchPath.{normalize_patch_path}
use ia_cstudio.Runs.Trace.{Op, step}

abbrev pub is_decision : ApprovalStatus → Bool
is_decision d = is_approved d || is_rejected d

-- The closures, with what the operations check before they take the lock.
pub data Mutation (host : Host) : (Run → Time → Result Error Run) → Type 0 where
  set_status :
      (status : Status) → valid_status status ≡ true → Mutation host (Changes.set_status status)
  cancel : Mutation host (Changes.cancel host.redact)
  fail : (message : String) → Mutation host (Changes.fail host.redact message)
  add_log :
      (level : LogLevel) (message : String) (reject : Bool)
      → Mutation host (Changes.add_log host.redact level message reject)
  consume : (id message : String) → Mutation host (Changes.consume host.redact id message)
  add_patch :
      (path : String) (patch : ProposedPatch)
      → Mutation host (Changes.add_patch host.redact path patch)
  add_approval :
      (gate : ApprovalGate)
      → (gate.operation_binding.value ≡ "")
        ⊎ (valid_approval_binding gate.operation_binding.value ≡ true)
      → Mutation host (Changes.add_approval host.redact gate)
  decide :
      (id : String) (decision : ApprovalStatus) (by : String)
      → is_decision decision ≡ true
      → Mutation host (Changes.decide_approval host.redact id decision by)

pub data Effect (host : Host) (s : Store) (now : Time) : Store → Type 0 where
  unchanged : Effect host s now s
  inserted :
      (req : CreateRequest) (mode : Mode)
      → mode_valid mode ≡ true
      → Effect host s now (insert_run host req mode s now).0
  updated :
      (id : String) {mutate : Run → Time → Result Error Run}
      → Mutation host mutate
      → Effect host s now (update id mutate s now).0

-- a binding that passes the test of `AddApproval`
accepted :
    (value : String)
    → (not (value == "") && not (valid_approval_binding value)) ≡ false
    → (value ≡ "") ⊎ (valid_approval_binding value ≡ true)
accepted value h = ground (arith, eq_iff value "")

module _ (host : Host) (s : Store) (now : Time) where
  create-Effect : (req : CreateRequest) → Effect host s now (Store.create host req s now).0
  unfolding Store.create
  create-Effect req = elim (Bool-cases (trim_space req.project == "")) [
    | inl e ↦ rw e unchanged
    | inr e ↦ elim (Bool-cases (trim_space req.prompt == "")) [
      | inl f ↦ rw (e, f) unchanged
      | inr f ↦ elim (Bool-cases (mode_valid (default_mode req.mode))) [
        | inl v ↦ rw (e, f, v) (inserted req (default_mode req.mode) v)
        | inr v ↦ rw (e, f, v) unchanged
      ]
    ]
  ]

  add_patch-Effect :
      (id : String) (patch : ProposedPatch)
      → Effect host s now (Store.add_patch host id patch s now).0
  unfolding Store.add_patch
  add_patch-Effect id patch = elim (Result-cases (normalize_patch_path patch.path)) [
    | inl (path, e) ↦ rw (e, Store.add_patch) (updated id (Mutation.add_patch path patch))
    | inr (x, e) ↦ rw (e, Store.add_patch) unchanged
  ]

  add_approval-Effect :
      (id : String) (gate : ApprovalGate)
      → Effect host s now (Store.add_approval host id gate s now).0
  unfolding Store.add_approval
  add_approval-Effect id gate =
      let value = gate.operation_binding.value in
      let refused = not (value == "") && not (valid_approval_binding value) in
      elim (Bool-cases (valid_approval_kind gate.kind)) [
        | inl k ↦ elim (Bool-cases refused) [
          | inl e ↦ rw (k, e) unchanged
          | inr e ↦ rw (k, e) (updated id (Mutation.add_approval gate (accepted value e)))
        ]
        | inr k ↦ rw k unchanged
      ]

  -- Every operation has one of these effects.
  pub step-Effect : (op : Op) → Effect host s now (step host op s now).0
  unfolding step Store.set_status Store.cancel Store.fail Store.add_log
      Store.consume_approval_binding Store.decide_approval
  step-Effect (Op.create req) = create-Effect req
  step-Effect (Op.set_status id status) = elim (Bool-cases (valid_status status)) [
    | inl v ↦ rw v (updated id (Mutation.set_status status v))
    | inr v ↦ rw v unchanged
  ]
  step-Effect (Op.cancel id) = updated id Mutation.cancel
  step-Effect (Op.fail id message) = updated id (Mutation.fail message)
  step-Effect (Op.add_log id level message reject) = elim (Bool-cases (valid_log_level level)) [
    | inl v ↦ rw v (updated id (Mutation.add_log level message reject))
    | inr v ↦ rw v unchanged
  ]
  step-Effect (Op.consume id approval_id message) =
      updated id (Mutation.consume approval_id message)
  step-Effect (Op.add_patch id patch) = add_patch-Effect id patch
  step-Effect (Op.add_approval id gate) = add_approval-Effect id gate
  step-Effect (Op.decide id approval_id decision by) = elim (Bool-cases (is_decision decision)) [
    | inl v ↦ rw v (updated id (Mutation.decide approval_id decision by v))
    | inr v ↦ rw v unchanged
  ]
