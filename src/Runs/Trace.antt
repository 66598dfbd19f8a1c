-- ===== src/Runs/Trace.antt =====
-- internal/agentruns/store.go: the operations as data, and a sequence of them. The store's lock
-- makes every interleaving of callers such a sequence, each operation at the clock's reading.
use ia_cstudio.Prelude.{String, Bool, List, [], ◌∷◌, Result}
use ia_cstudio.Runs.Types.{
  Status, LogLevel, ApprovalStatus, Time, ProposedPatch, ApprovalGate, Run, CreateRequest, Error,
}
use ia_cstudio.Runs.Store
use ia_cstudio.Runs.Store.{Store, Host}

pub data Op : Type 0 where
  create : CreateRequest → Op
  set_status : String → Status → Op
  cancel : String → Op
  fail : String → String → Op
  add_log : String → LogLevel → String → Bool → Op
  consume : String → String → String → Op
  add_patch : String → ProposedPatch → Op
  add_approval : String → ApprovalGate → Op
  decide : String → String → ApprovalStatus → String → Op

module _ (host : Host) where
  unfoldable pub step : Op → Store → Time → Store × Result Error Run
  step (create req) = Store.create host req
  step (set_status id status) = Store.set_status id status
  step (cancel id) = Store.cancel host id
  step (fail id message) = Store.fail host id message
  step (add_log id level message reject) = Store.add_log host id level message reject
  step (consume id approval_id message) = Store.consume_approval_binding host id approval_id message
  step (add_patch id patch) = Store.add_patch host id patch
  step (add_approval id gate) = Store.add_approval host id gate
  step (decide id approval_id decision by) = Store.decide_approval host id approval_id decision by

  unfoldable pub run_ops : List (Op × Time) → Store → Store
  run_ops [] s = s
  run_ops ((op, now) ∷ ops) s = run_ops ops (step op s now).0
