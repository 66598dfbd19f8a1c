-- ===== src/Runs/Store.antt =====
-- internal/agentruns/store.go: the store and its operations. The map is an association list, the
-- lock is held for a whole operation, so an operation is a function from the store to the store and
-- its result. A run that is returned is the stored one: cloning shares no pointer with the store.
use ia_cstudio.Prelude.{
  ℕ, ◌+◌, ◌%◌, ◌^◌, String, Bool, false, not, ◌&&◌, ◌||◌, List, [], ◌∷◌, ◌++◌, Option, none, some,
  ltb, if◌then◌else◌, length, Result, ok, err, ◌==◌,
}
use ia_cstudio.Text.Trim.{trim_space}
use ia_cstudio.Text.Cut.{truncate}
use ia_cstudio.Text.Numbered.{numbered}
use ia_cstudio.Runs.PatchPath.{normalize_patch_path}
use ia_cstudio.Runs.Types.{
  Status, Mode, LogLevel, ApprovalStatus, Time, ProposedPatch, ApprovalGate, Run, CreateRequest,
  Error, mode_valid, valid_status, valid_log_level, valid_approval_kind,
}
use ia_cstudio.Runs.Changes
use ia_cstudio.Runs.Gates.{
  is_approved, is_rejected, max_log_message_len, max_prompt_preview_len, valid_approval_binding,
}

-- `runs` maps ids to runs, `order` lists the ids from the oldest.
pub record Store : Type 0 where
  pub max_runs : ℕ
  pub next : ℕ  -- uint64
  pub runs : List (String × Run)
  pub order : List String
  pub hash_key : List ℕ

-- What the store calls: `redact` stands for `redactText`, `hash_text` for `hashText`.
pub record Host : Type 0 where
  pub redact : String → String
  pub hash_text : String → List ℕ → String

unfoldable pub find : String → List (String × Run) → Option Run
find id [] = none
find id ((k, run) ∷ rest) = if k == id then some run else find id rest

-- `s.runs[id] = run`
unfoldable pub put : String → Run → List (String × Run) → List (String × Run)
put id run [] = (id, run) ∷ []
put id run ((k, old) ∷ rest) = if k == id then (id, run) ∷ rest else (k, old) ∷ put id run rest

-- `delete(s.runs, id)`
unfoldable pub remove : String → List (String × Run) → List (String × Run)
remove id [] = []
remove id ((k, run) ∷ rest) =
    let others = remove id rest in if k == id then others else (k, run) ∷ others

-- The loop of `evictLocked` over `s.order` and `s.runs`.
unfoldable pub evict : ℕ → List String → List (String × Run) → List String × List (String × Run)
evict max_runs [] runs = ([], runs)
evict max_runs (oldest ∷ order) runs =
    let next = evict max_runs order (remove oldest runs) in
    if ltb max_runs (length (oldest ∷ order)) then next else (oldest ∷ order, runs)

abbrev pub default_max_runs : ℕ
default_max_runs = 100

-- the options of `NewStore`; the clock is an argument of each operation instead
pub data StoreOption : Type 0 where
  with_max_runs : ℕ → StoreOption
  with_prompt_hash_key : List ℕ → StoreOption

unfoldable pub apply_option : StoreOption → Store → Store
apply_option (with_max_runs n) s = if ltb 0 n then record s { max_runs = n } else s
apply_option (with_prompt_hash_key []) s = s
apply_option (with_prompt_hash_key (b ∷ key)) s = record s { hash_key = b ∷ key }

unfoldable pub apply_options : List StoreOption → Store → Store
unfolding apply_option
apply_options [] s = s
apply_options (o ∷ os) s = apply_options os (apply_option o s)

abbrev or_key : List ℕ → List ℕ → List ℕ
or_key [] fresh = fresh
or_key (b ∷ key) fresh = b ∷ key

-- `NewStore`; `fresh` is the key that `newPromptHashKey` draws.
unfoldable pub new_store : List StoreOption → List ℕ → Store
unfolding apply_options
new_store options fresh =
    let s =
      apply_options options
        (record { max_runs = default_max_runs; next = 0; runs = []; order = []; hash_key = [] }) in
    record s { hash_key = or_key s.hash_key fresh }

-- `update`: the run under the id is changed, or nothing is.
unfoldable pub update :
    String → (Run → Time → Result Error Run) → Store → Time → Store × Result Error Run
update id mutate s now = elim (find id s.runs) [
  | none ↦ (s, err Error.not_found)
  | some run ↦ elim (mutate run now) [
    | err e ↦ (s, err e)
    | ok changed ↦
        let stored = record changed { updated_at = now } in
        (record s { runs = put id stored s.runs }, ok stored)
  ]
]

abbrev pub default_mode : Mode → Mode
default_mode (Mode.other s) = if s == "" then Mode.read_only else Mode.other s
default_mode m = m

unfoldable pub sanitize_metadata : Host → String → String
sanitize_metadata host text = truncate (host.redact (trim_space text)) max_log_message_len

abbrev pub run_id : ℕ → String
run_id n = numbered "run_" n

-- the run that `Create` stores
unfoldable pub created_run : Host → CreateRequest → Mode → String → List ℕ → Time → Run
unfolding sanitize_metadata
created_run host req mode id key now = record {
  id = id;
  project = trim_space req.project;
  provider_id = sanitize_metadata host req.provider_id;
  mode = mode;
  status = Status.queued;
  prompt_preview = truncate (host.redact req.prompt) max_prompt_preview_len;
  prompt_hash = host.hash_text req.prompt key;
  created_by = sanitize_metadata host req.created_by;
  created_at = now;
  updated_at = now;
  started_at = none;
  completed_at = none;
  canceled = false;
  error = "";
  logs = [];
  patches = [];
  approvals = [];
}

-- the part of `Create` under the lock
unfoldable pub insert_run : Host → CreateRequest → Mode → Store → Time → Store × Result Error Run
insert_run host req mode s now =
    let next = (s.next + 1) % 2 ^ 64 in
    let run = created_run host req mode (run_id next) s.hash_key now in
    let kept = evict s.max_runs (s.order ++ run_id next ∷ []) (put (run_id next) run s.runs) in
    (record s { next = next; order = kept.0; runs = kept.1 }, ok run)

unfoldable pub create : Host → CreateRequest → Store → Time → Store × Result Error Run
unfolding insert_run
create host req s now =
    if trim_space req.project == ""
    then (s, err Error.project_required)
    else if trim_space req.prompt == ""
    then (s, err Error.prompt_required)
    else if not (mode_valid (default_mode req.mode))
    then (s, err (Error.invalid_mode (default_mode req.mode)))
    else insert_run host req (default_mode req.mode) s now

unfoldable pub get : String → Store → Option Run
get id s = find id s.runs

unfoldable pub list_from : List String → List (String × Run) → List Run
list_from [] runs = []
list_from (id ∷ order) runs =
    let rest = list_from order runs in elim (find id runs) [ none ↦ rest | some run ↦ run ∷ rest ]

unfoldable pub list : Store → List Run
unfolding list_from find
list s = list_from s.order s.runs

unfoldable pub set_status : String → Status → Store → Time → Store × Result Error Run
set_status id status s now =
    if valid_status status
    then update id (Changes.set_status status) s now
    else (s, err (Error.invalid_status status))

module _ (host : Host) where
  unfoldable pub cancel : String → Store → Time → Store × Result Error Run
  cancel id = update id (Changes.cancel host.redact)

  unfoldable pub fail : String → String → Store → Time → Store × Result Error Run
  fail id message = update id (Changes.fail host.redact message)

  -- `addLog`, which `AddLog` and `AddLogIfNoPendingApprovals` call
  unfoldable pub add_log :
      String → LogLevel → String → Bool → Store → Time → Store × Result Error Run
  add_log id level message reject_pending s now =
      if valid_log_level level
      then update id (Changes.add_log host.redact level message reject_pending) s now
      else (s, err (Error.invalid_log_level level))

  unfoldable pub consume_approval_binding :
      String → String → String → Store → Time → Store × Result Error Run
  consume_approval_binding id approval_id message =
      update id (Changes.consume host.redact approval_id message)

  unfoldable pub add_patch : String → ProposedPatch → Store → Time → Store × Result Error Run
  add_patch id patch s now = elim (normalize_patch_path patch.path) [
    | err e ↦ (s, err e)
    | ok patch_path ↦ update id (Changes.add_patch host.redact patch_path patch) s now
  ]

  unfoldable pub add_approval : String → ApprovalGate → Store → Time → Store × Result Error Run
  add_approval id gate s now =
      if not (valid_approval_kind gate.kind)
      then (s, err (Error.invalid_approval_kind gate.kind))
      else if not (gate.operation_binding.value == "")
          && not (valid_approval_binding gate.operation_binding.value)
      then (s, err Error.invalid_approval_binding)
      else update id (Changes.add_approval host.redact gate) s now

  unfoldable pub decide_approval :
      String → String → ApprovalStatus → String → Store → Time → Store × Result Error Run
  decide_approval id approval_id decision decided_by s now =
      if is_approved decision || is_rejected decision
      then update id (Changes.decide_approval host.redact approval_id decision decided_by) s now
      else (s, err (Error.invalid_decision decision))
