-- ===== src/Runs/Terminal.antt =====
-- Completed, failed and canceled runs of internal/agentruns/store.go.
use ia_cstudio.Prelude.{
  ℕ, ◌+◌, ◌^◌, ◌≤◌, ◌<◌, ◌≡◌, refl, sym, ◌∙◌, String, true, List, some, arith, inr, Result, err,
  length,
}
use ia_cstudio.Runs.Types.{
  Run, Time, Error, terminal_status, valid_status, Mode, CreateRequest, mode_valid,
}
use ia_cstudio.Runs.Changes
use ia_cstudio.Runs.Store.{Store, Host, StoreOption, find, run_id, new_store, created_run}
use ia_cstudio.Runs.Trace.{Op, run_ops}
use ia_cstudio.Runs.Effect.{Mutation}
use ia_cstudio.Runs.Updates.{Found, kept, changed, stamped}
use ia_cstudio.Runs.History.{Queued, Holds, EachRun, Holds-run_ops, EachRun-run_ops}
use ia_cstudio.Runs.Fresh.{new_store-Queued, new_store-EachRun, next-new_store}
use ia_cstudio.Runs.Lifecycle.{IsRun}
use ia_cstudio.Runs.Lifecycle.Kept.{Mutation-IsRun}

-- Every closure refuses a run in a terminal status.
pub terminal-Mutation :
    {host : Host} {mutate : Run → Time → Result Error Run} (r : Run) (now : Time)
    → Mutation host mutate
    → terminal_status r.status ≡ true
    → mutate r now ≡ err Error.terminated
unfolding Changes.set_status Changes.cancel Changes.fail Changes.add_log Changes.consume
    Changes.add_patch Changes.add_approval Changes.decide_approval
terminal-Mutation r now (Mutation.set_status status v) t = rw t refl
terminal-Mutation r now _ t = rw t refl

Found-terminal :
    {host : Host} (frozen : Run)
    → terminal_status frozen.status ≡ true
    → (now : Time) (r u : Run) → Found host now r u
    → r ≡ frozen
    → u ≡ frozen
Found-terminal frozen t now r u (kept same) e = same ∙ e
Found-terminal frozen t now r u (changed r' m done is) e =
    let over : terminal_status r.status ≡ true = rw e t in
    let clash = sym done ∙ terminal-Mutation r now m over in cc

-- A run in a terminal status never changes: in a store that is a queue, and as long as the counter of
-- ids does not wrap around, after any operations the run's id finds the same run, or no run any more.
pub terminal_run_frozen :
    (host : Host) (k : ℕ) (ops : List (Op × Time)) (s : Store) (r : Run)
    → Queued s
    → s.next + length ops < 2 ^ 64
    → k ≤ s.next
    → find (run_id k) s.runs ≡ some r
    → terminal_status r.status ≡ true
    → Holds (λ u. u ≡ r) (run_id k) (run_ops host ops s)
terminal_run_frozen host k ops s r q fits old held t =
    Holds-run_ops host (λ u. u ≡ r) (Found-terminal r t) k ops s q fits old (inr (r, held, refl))

created-IsRun :
    (host : Host) (req : CreateRequest) (mode : Mode) (id : String) (key : List ℕ) (now : Time)
    → mode_valid mode ≡ true
    → IsRun (created_run host req mode id key now)
unfolding created_run terminal_status valid_status
created-IsRun host req mode id key now v = record {
  valid = refl;
  mode = v;
  completed = refl;
  canceled = refl;
  started = λ e. cc;
  gates = tt;
}

stamped-IsRun : (r : Run) (now : Time) → IsRun r → IsRun (stamped r now)
stamped-IsRun r now w = record {
  valid = w.valid;
  mode = w.mode;
  completed = w.completed;
  canceled = w.canceled;
  started = w.started;
  gates = w.gates;
}

Found-IsRun : {host : Host} (now : Time) (r u : Run) → Found host now r u → IsRun r → IsRun u
Found-IsRun now r u (kept same) w = rw same w
Found-IsRun now r u (changed r' m done is) w =
    rw is (stamped-IsRun r' now (Mutation-IsRun r now m done w))

-- From a new store on, whatever its options, and for fewer than 2^64 operations, every run that the
-- store holds is well formed: its status and mode are known; it has a completion time exactly in a
-- terminal status, is flagged as canceled exactly in that status, and has a start time if it runs;
-- each gate has a decision time exactly if it is not pending, is pending, approved or rejected, and
-- has no binding or a valid one.
pub run_ops-IsRun :
    (host : Host) (options : List StoreOption) (fresh : List ℕ) (ops : List (Op × Time))
    → length ops < 2 ^ 64
    → EachRun IsRun (run_ops host ops (new_store options fresh))
run_ops-IsRun host options fresh ops fits =
    EachRun-run_ops host IsRun (created-IsRun host) Found-IsRun ops (new_store options fresh)
      (new_store-Queued options fresh) (omega (arith, next-new_store options fresh))
      (new_store-EachRun IsRun options fresh)
