-- ===== src/Runs/Bounded.antt =====
-- The byte limits on what a run of internal/agentruns/store.go keeps.
pub mod Kept
pub mod Always
use ia_cstudio.Prelude.{
  ℕ, suc, ◌+◌, ◌^◌, ◌≤◌, ◌<◌, ◌≡◌, refl, sym, ap, ◌∙◌, String, len, ◌<>◌, Bool, true, false, not,
  ◌&&◌, ◌||◌, List, [], ◌∷◌, ◌++◌, Option, none, some, arith, inl, inr, All, All-append, ◌⊎◌,
  Result, ok, err, length, Result-cases, ◌>>=◌, Bool-cases, ◌==◌, if◌then◌else◌,
}
use ia_cstudio.Text.Numbered.{numbered}
use ia_cstudio.Text.Cut.{truncate, len-truncate-le}
use ia_cstudio.Runs.Types.{
  Run, Time, Error, LogEntry, ProposedPatch, ApprovalGate, ApprovalStatus, LogLevel, Mode, Status,
  CreateRequest, mode_valid, terminal_status,
}
use ia_cstudio.Runs.Gates.{
  max_log_message_len, max_patch_diff_len, max_prompt_preview_len, is_pending, set_once, kind_text,
  decision_text, is_rejected, is_waiting, has_pending_approvals,
}
use ia_cstudio.Runs.Changes
use ia_cstudio.Runs.Store.{Host}
use ia_cstudio.Runs.Effect.{Mutation}

abbrev pub LogFits : LogEntry → Type 0
LogFits l = len l.message ≤ max_log_message_len

abbrev pub PatchFits : ProposedPatch → Type 0
PatchFits p = (len p.summary ≤ max_log_message_len) × (len p.diff ≤ max_patch_diff_len)

abbrev pub GateFits : ApprovalGate → Type 0
GateFits g = (len g.summary ≤ max_log_message_len) × (len g.decided_by ≤ max_log_message_len)

-- every text that a run keeps, but its project and its hash
pub record IsBounded (r : Run) : Type 0 where
  pub preview : len r.prompt_preview ≤ max_prompt_preview_len
  pub provider : len r.provider_id ≤ max_log_message_len
  pub creator : len r.created_by ≤ max_log_message_len
  pub error : len r.error ≤ max_log_message_len
  pub logs : All LogFits r.logs
  pub patches : All PatchFits r.patches
  pub gates : All GateFits r.approvals

pub message_fits : (text : String) → len (truncate text max_log_message_len) ≤ max_log_message_len
message_fits text = len-truncate-le text max_log_message_len (omega arith)
