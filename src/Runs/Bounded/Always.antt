-- ===== src/Runs/Bounded/Always.antt =====
-- The byte limits of internal/agentruns/store.go over sequences of operations.
use ia_cstudio.Prelude.{ℕ, ◌^◌, ◌<◌, ◌≡◌, String, true, List, arith, length}
use ia_cstudio.Text.Trim.{trim_space}
use ia_cstudio.Text.Cut.{len-truncate-le}
use ia_cstudio.Runs.Types.{Run, Time, Mode, CreateRequest, mode_valid}
use ia_cstudio.Runs.Gates.{max_prompt_preview_len}
use ia_cstudio.Runs.Store.{Host, StoreOption, new_store, created_run, sanitize_metadata}
use ia_cstudio.Runs.Trace.{Op, run_ops}
use ia_cstudio.Runs.Updates.{Found, kept, changed, stamped}
use ia_cstudio.Runs.History.{EachRun, EachRun-run_ops}
use ia_cstudio.Runs.Fresh.{new_store-Queued, new_store-EachRun, next-new_store}
use ia_cstudio.Runs.Bounded.{IsBounded, message_fits}
use ia_cstudio.Runs.Bounded.Kept.{Mutation-IsBounded}

created-IsBounded :
    (host : Host) (req : CreateRequest) (mode : Mode) (id : String) (key : List ℕ) (now : Time)
    → mode_valid mode ≡ true
    → IsBounded (created_run host req mode id key now)
unfolding created_run sanitize_metadata
created-IsBounded host req mode id key now v = record {
  preview = len-truncate-le (host.redact req.prompt) max_prompt_preview_len (omega arith);
  provider = message_fits (host.redact (trim_space req.provider_id));
  creator = message_fits (host.redact (trim_space req.created_by));
  error = omega arith;
  logs = tt;
  patches = tt;
  gates = tt;
}

stamped-IsBounded : (r : Run) (now : Time) → IsBounded r → IsBounded (stamped r now)
stamped-IsBounded r now b = record {
  preview = b.preview;
  provider = b.provider;
  creator = b.creator;
  error = b.error;
  logs = b.logs;
  patches = b.patches;
  gates = b.gates;
}

Found-IsBounded :
    {host : Host} (now : Time) (r u : Run) → Found host now r u → IsBounded r → IsBounded u
Found-IsBounded now r u (kept same) b = rw same b
Found-IsBounded now r u (changed r' m done is) b =
    rw is (stamped-IsBounded r' now (Mutation-IsBounded r now m done b))

-- From a new store on, whatever `redact` returns and for fewer than 2^64 operations, every run that
-- the store holds has its texts within the limits: 240 bytes for the prompt's preview, 2000 for the
-- error, the provider, the creator, each log message, each summary and each decider, and 20000 for
-- each diff.
pub run_ops-IsBounded :
    (host : Host) (options : List StoreOption) (fresh : List ℕ) (ops : List (Op × Time))
    → length ops < 2 ^ 64
    → EachRun IsBounded (run_ops host ops (new_store options fresh))
run_ops-IsBounded host options fresh ops fits =
    EachRun-run_ops host IsBounded (created-IsBounded host) Found-IsBounded ops
      (new_store options fresh) (new_store-Queued options fresh)
      (omega (arith, next-new_store options fresh)) (new_store-EachRun IsBounded options fresh)
