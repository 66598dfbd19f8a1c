-- ===== src/Runs/Queue.antt =====
-- The store of internal/agentruns/store.go as a bounded queue of ids: the predicate, and `Create`.
use ia_cstudio.Prelude.{
  ℕ, suc, ◌+◌, ◌-◌, ◌%◌, ◌^◌, ◌≤◌, ◌<◌, ◌≡◌, sym, ap, ◌∙◌, String, Bool, true, false, [], ◌∷◌, ◌++◌,
  Option, none, some, arith, ◌==◌, eq_iff, if◌then◌else◌,
}
use ia_cstudio.Runs.Types.{Run, Mode, Time, CreateRequest}
use ia_cstudio.Runs.Store.{Store, Host, find, run_id, insert_run, created_run}
use ia_cstudio.Runs.Map.{
  ids, among, ids-snoc, among_split, among_disjoint, evict-ids, find-put, find-evict,
}

abbrev pub found : Option Run → Bool
found none = false
found (some r) = true

-- `oldest` is the number before the first id, `count` the number of ids.
pub record IsQueue (s : Store) (oldest count : ℕ) : Type 0 where
  pub order_ids : s.order ≡ ids oldest count
  pub newest : oldest + count ≡ s.next
  pub room : count ≤ s.max_runs
  pub keys : (j : String) → found (find j s.runs) ≡ among j oldest count
  pub own : (j : String) (r : Run) → find j s.runs ≡ some r → r.id ≡ j

-- the runs after `put` and eviction in `insert_run`
module _ (host : Host) (req : CreateRequest) (mode : Mode) (s : Store) (now : Time)
    {oldest count : ℕ} (q : IsQueue s oldest count) (fits : s.next + 1 < 2 ^ 64) where
  next_id : (s.next + 1) % 2 ^ 64 ≡ s.next + 1
  next_id = omega arith

  pushed_order : s.order ++ run_id (s.next + 1) ∷ [] ≡ ids oldest (suc count)
  pushed_order =
      rw q.order_ids
        (ap (λ k. ids oldest count ++ run_id (k + 1) ∷ []) (sym q.newest) ∙ ids-snoc oldest count)

  -- the rounds of the eviction
  unfoldable pub dropped : ℕ
  dropped = suc count - s.max_runs

  unfoldable pub new_run : Run
  new_run = created_run host req mode (run_id (s.next + 1)) s.hash_key now

  insert_order :
      (insert_run host req mode s now).0.order ≡ ids (oldest + dropped) (suc count - dropped)
  unfolding insert_run dropped
  insert_order = rw (next_id, pushed_order) (evict-ids s.max_runs (suc count) oldest _)

  pub insert_find :
      (j : String)
      → find j (insert_run host req mode s now).0.runs ≡ (
          if among j oldest dropped
          then none
          else if run_id (s.next + 1) == j
          then some new_run
          else find j s.runs)
  unfolding insert_run dropped new_run
  insert_find j =
      rw (next_id, pushed_order)
        (find-evict s.max_runs (suc count) oldest _ j
          ∙ ap (λ o. if among j oldest (suc count - s.max_runs) then none else o)
              (find-put _ j _ _))

  insert_keys :
      (j : String)
      → found (find j (insert_run host req mode s now).0.runs)
        ≡ among j (oldest + dropped) (suc count - dropped)
  unfolding dropped
  insert_keys j =
      let whole : dropped + (suc count - dropped) ≡ count + 1 = omega arith in
      let last : run_id (oldest + count + 1) ≡ run_id (s.next + 1) =
        ap (λ k. run_id (k + 1)) q.newest in
      let parts =
        sym (among_split j oldest dropped (suc count - dropped))
        ∙ ap (among j oldest) whole
        ∙ among_split j oldest count 1 in
      rw (insert_find j) (
        ground
          (arith, parts, last, q.keys j, among_disjoint j oldest dropped (suc count - dropped)))

  insert_own :
      (j : String) (r : Run) → find j (insert_run host req mode s now).0.runs ≡ some r → r.id ≡ j
  unfolding new_run created_run
  insert_own j r e =
      ground (arith, sym (insert_find j) ∙ e, q.own j r, eq_iff (run_id (s.next + 1)) j)

  -- `insert_run` keeps the store a queue.
  pub insert-IsQueue :
      IsQueue (insert_run host req mode s now).0 (oldest + dropped) (suc count - dropped)
  unfolding dropped insert_run
  insert-IsQueue = record {
    order_ids = insert_order;
    newest = rw next_id (omega arith);
    room = omega arith;
    keys = insert_keys;
    own = insert_own;
  }
