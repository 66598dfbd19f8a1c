-- ===== src/Runs/Gates.antt =====
-- internal/agentruns/store.go: limits, the binding of an approval, and tests on statuses and gates.
use Prim.Native.Char.{code}
use ia_cstudio.Prelude.{
  ℕ, String, len, Bool, true, false, not, ◌&&◌, ◌||◌, List, Option, none, some, leb, ltb,
  if◌then◌else◌, any, Result, ok, err, ◌==◌,
}
use ia_cstudio.Runs.Types.{
  Status, ApprovalKind, ApprovalStatus, Time, ApprovalBinding, ApprovalGate, Error,
}

abbrev pub max_prompt_preview_len : ℕ
max_prompt_preview_len = 240

abbrev pub max_log_message_len : ℕ
max_log_message_len = 2000

abbrev pub max_patch_diff_len : ℕ
max_patch_diff_len = 20000

abbrev pub max_approval_binding_len : ℕ
max_approval_binding_len = 256

-- every byte lies between '!' and '~'
all_printable : String → Bool
all_printable String.[] = true
all_printable (String.◌∷◌ c s) = leb b'!' (code c) && leb (code c) b'~' && all_printable s

-- `validateApprovalBinding`: whether it returns nil (both of its errors are
-- `ErrInvalidApprovalBinding`)
unfoldable pub valid_approval_binding : String → Bool
unfolding all_printable
valid_approval_binding value =
    not (value == "" || ltb max_approval_binding_len (len value)) && all_printable value

unfoldable pub new_approval_binding : String → Result Error ApprovalBinding
new_approval_binding value =
    if valid_approval_binding value
    then ok (record { value = value })
    else err Error.invalid_approval_binding

unfoldable pub is_pending : ApprovalGate → Bool
is_pending gate = elim gate.status [ ApprovalStatus.pending ↦ true | _ ↦ false ]

unfoldable pub has_pending_approvals : List ApprovalGate → Bool
has_pending_approvals approvals = any is_pending approvals

abbrev pub is_waiting : Status → Bool
is_waiting Status.waiting_approval = true
is_waiting _ = false

abbrev pub is_running : Status → Bool
is_running Status.running = true
is_running _ = false

abbrev pub is_canceled : Status → Bool
is_canceled Status.canceled = true
is_canceled _ = false

-- `if t == nil { t = timePtr(now) }`
abbrev pub set_once : Option Time → Time → Option Time
set_once none now = some now
set_once (some t) now = some t

-- The text of an approval kind and of a decision, as `%s` prints it.
abbrev pub kind_text : ApprovalKind → String
kind_text ApprovalKind.file_write = "file_write"
kind_text ApprovalKind.command = "command"
kind_text ApprovalKind.iac_action = "iac_action"
kind_text ApprovalKind.cloud_write = "cloud_write"
kind_text ApprovalKind.secret_read = "secret_read"
kind_text ApprovalKind.mcp_network = "mcp_network"
kind_text (ApprovalKind.other s) = s

abbrev pub decision_text : ApprovalStatus → String
decision_text ApprovalStatus.pending = "pending"
decision_text ApprovalStatus.approved = "approved"
decision_text ApprovalStatus.rejected = "rejected"
decision_text (ApprovalStatus.other s) = s

abbrev pub is_approved : ApprovalStatus → Bool
is_approved ApprovalStatus.approved = true
is_approved _ = false

abbrev pub is_rejected : ApprovalStatus → Bool
is_rejected ApprovalStatus.rejected = true
is_rejected _ = false
