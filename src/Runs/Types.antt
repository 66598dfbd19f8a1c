-- ===== src/Runs/Types.antt =====
-- internal/agentruns/store.go: the types of a run and of its parts. A Go string type with constants
-- is a data type; `other` holds any value that is none of the constants.
use ia_cstudio.Prelude.{ℕ, String, Bool, true, false, List, Option}

pub data Status : Type 0 where
  queued running waiting_approval completed failed canceled : Status
  other : String → Status

pub data Mode : Type 0 where
  read_only propose_only approved_execute : Mode
  other : String → Mode

pub data LogLevel : Type 0 where
  info warn error audit : LogLevel
  other : String → LogLevel

pub data ApprovalKind : Type 0 where
  file_write command iac_action cloud_write secret_read mcp_network : ApprovalKind
  other : String → ApprovalKind

pub data ApprovalStatus : Type 0 where
  pending approved rejected : ApprovalStatus
  other : String → ApprovalStatus

-- `Mode.Valid`
unfoldable pub mode_valid : Mode → Bool
mode_valid (Mode.other _) = false
mode_valid _ = true

unfoldable pub valid_status : Status → Bool
valid_status (Status.other _) = false
valid_status _ = true

unfoldable pub terminal_status : Status → Bool
terminal_status Status.completed = true
terminal_status Status.failed = true
terminal_status Status.canceled = true
terminal_status _ = false

unfoldable pub valid_log_level : LogLevel → Bool
valid_log_level (LogLevel.other _) = false
valid_log_level _ = true

unfoldable pub valid_approval_kind : ApprovalKind → Bool
valid_approval_kind (ApprovalKind.other _) = false
valid_approval_kind _ = true

-- an instant, in the clock's unit
abbrev pub Time : Type 0
Time = ℕ

-- The binding's only field, `value`; "" for the zero binding.
pub record ApprovalBinding : Type 0 where
  pub value : String

pub record LogEntry : Type 0 where
  pub id : String
  pub at : Time
  pub level : LogLevel
  pub message : String

pub record ProposedPatch : Type 0 where
  pub id : String
  pub path : String
  pub summary : String
  pub diff : String
  pub created_at : Time

pub record ApprovalGate : Type 0 where
  pub id : String
  pub kind : ApprovalKind
  pub status : ApprovalStatus
  pub summary : String
  pub created_at : Time
  pub decided_at : Option Time
  pub decided_by : String
  pub operation_binding : ApprovalBinding

pub record Run : Type 0 where
  pub id : String
  pub project : String
  pub provider_id : String
  pub mode : Mode
  pub status : Status
  pub prompt_preview : String
  pub prompt_hash : String
  pub created_by : String
  pub created_at : Time
  pub updated_at : Time
  pub started_at : Option Time
  pub completed_at : Option Time
  pub canceled : Bool
  pub error : String
  pub logs : List LogEntry
  pub patches : List ProposedPatch
  pub approvals : List ApprovalGate

pub record CreateRequest : Type 0 where
  pub project : String
  pub prompt : String
  pub provider_id : String
  pub mode : Mode
  pub created_by : String

-- the errors that the operations return
pub data Error : Type 0 where
  not_found terminated approval_pending approval_not_found approval_decided : Error
  approval_binding_unavailable invalid_approval_binding unsafe_patch_path : Error
  project_required prompt_required patch_path_required : Error
  invalid_mode : Mode → Error
  invalid_status : Status → Error
  invalid_log_level : LogLevel → Error
  invalid_approval_kind : ApprovalKind → Error
  invalid_decision : ApprovalStatus → Error
