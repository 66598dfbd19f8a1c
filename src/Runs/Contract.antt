-- ===== src/Runs/Contract.antt =====
-- `Create` of internal/agentruns/store.go, and a store that starts from `NewStore`.
use ia_cstudio.Prelude.{
  ℕ, ◌+◌, ◌%◌, ◌^◌, ◌<◌, ◌≡◌, refl, sym, ◌∙◌, true, false, List, none, some, arith, inl, inr, ok,
  Bool-cases, Option-cases, ◌==◌, eq_refl, length,
}
use ia_cstudio.Text.Trim.{trim_space}
use ia_cstudio.Runs.Types.{Run, Time, Mode, Status, CreateRequest, mode_valid}
use ia_cstudio.Runs.Store
use ia_cstudio.Runs.Store.{
  Store, Host, find, run_id, insert_run, created_run, default_mode, StoreOption, new_store,
}
use ia_cstudio.Runs.Map.{among, among-lt}
use ia_cstudio.Runs.Queue.{IsQueue, dropped, new_run, insert_find}
use ia_cstudio.Runs.History.{Queued, run_ops-Queued}
use ia_cstudio.Runs.Fresh.{new_store-Queued, next-new_store}
use ia_cstudio.Runs.Trace.{Op, run_ops}

-- A created run: its id is the next one, new to the store, and finds the run afterwards.
pub record IsCreated (s s' : Store) (u : Run) : Type 0 where
  pub id : u.id ≡ run_id (s.next + 1)
  pub unused : find u.id s.runs ≡ none
  pub held : find u.id s'.runs ≡ some u
  pub queued : u.status ≡ Status.queued

-- An id above the numbers of a queue finds nothing in it.
unused_id :
    (s : Store) {oldest count : ℕ} (k : ℕ)
    → IsQueue s oldest count
    → oldest + count < k
    → find (run_id k) s.runs ≡ none
unused_id s {oldest} {count} k q above = elim (Option-cases (find (run_id k) s.runs)) [
  | inl missing ↦ missing
  | inr (r, held) ↦
      let in_range : among (run_id k) oldest count ≡ true =
        sym (q.keys (run_id k)) ∙ rw held refl in
      let (lower, upper) = among-lt k oldest count in_range in absurd (omega arith)
]

not_among : (k lo n : ℕ) → lo + n < k → among (run_id k) lo n ≡ false
not_among k lo n above = elim (Bool-cases (among (run_id k) lo n)) [
  | inl in_range ↦ let (lower, upper) = among-lt k lo n in_range in absurd (omega arith)
  | inr out ↦ out
]

module _ (host : Host) (req : CreateRequest) (mode : Mode) (s : Store) (now : Time)
    {oldest count : ℕ} (q : IsQueue s oldest count) (fits : s.next + 1 < 2 ^ 64)
    (space : 0 < s.max_runs) where
  inserted_run : (insert_run host req mode s now).1 ≡ ok (new_run host req mode s now q fits)
  unfolding insert_run new_run
  inserted_run = let same : (s.next + 1) % 2 ^ 64 ≡ s.next + 1 = omega arith in rw same refl

  kept_new :
      find (run_id (s.next + 1)) (insert_run host req mode s now).0.runs
      ≡ some (new_run host req mode s now q fits)
  unfolding dropped
  kept_new =
      let out : among (run_id (s.next + 1)) oldest (dropped host req mode s now q fits) ≡ false =
        not_among (s.next + 1) oldest (dropped host req mode s now q fits)
          (omega (arith, q.newest, q.room, space)) in
      insert_find host req mode s now q fits (run_id (s.next + 1)) ∙ rw (out, eq_refl) refl

  insert-IsCreated :
      {u : Run}
      → (insert_run host req mode s now).1 ≡ ok u
      → IsCreated s (insert_run host req mode s now).0 u
  unfolding new_run created_run
  insert-IsCreated {u} e =
      let is : u ≡ new_run host req mode s now q fits = ground (arith, sym inserted_run ∙ e) in
      rw is (record {
        id = refl;
        unused = unused_id s (s.next + 1) q (omega (arith, q.newest));
        held = kept_new;
        queued = refl;
      })

-- A run that is created, in a store that is a queue with a limit above 0 and whose counter does not
-- wrap around, has the next id, which no stored run has; it is queued, and its id finds it
-- afterwards.
pub create-IsCreated :
    (host : Host) (req : CreateRequest) (s : Store) (now : Time) {u : Run}
    → Queued s
    → s.next + 1 < 2 ^ 64
    → 0 < s.max_runs
    → (Store.create host req s now).1 ≡ ok u
    → IsCreated s (Store.create host req s now).0 u
unfolding Store.create
create-IsCreated host req s now (oldest, count, q) fits space e =
    elim (Bool-cases (trim_space req.project == "")) [
      | inl blank ↦ let clash = rw (blank, Store.create) at e in cc
      | inr p ↦ elim (Bool-cases (trim_space req.prompt == "")) [
        | inl blank ↦ let clash = rw (p, blank, Store.create) at e in cc
        | inr t ↦ elim (Bool-cases (mode_valid (default_mode req.mode))) [
          | inr bad ↦ let clash = rw (p, t, bad, Store.create) at e in cc
          | inl good ↦
              rw (p, t, good, Store.create)
                (insert-IsCreated host req (default_mode req.mode) s now q fits space
                  (rw (p, t, good, Store.create) at e))
        ]
      ]
    ]

-- From a new store on, and for fewer than 2^64 operations, the store is a bounded queue: the listed
-- ids are consecutive numbers up to the last one issued, no more of them than the limit, exactly
-- these ids find a run, and each run has the id that finds it.
pub run_ops-IsQueue :
    (host : Host) (options : List StoreOption) (fresh : List ℕ) (ops : List (Op × Time))
    → length ops < 2 ^ 64
    → Queued (run_ops host ops (new_store options fresh))
run_ops-IsQueue host options fresh ops fits =
    run_ops-Queued host ops (new_store options fresh) (new_store-Queued options fresh)
      (omega (arith, next-new_store options fresh))
