-- ===== src/Runs/History.antt =====
-- What a sequence of operations of internal/agentruns/store.go does to the store and to one run.
use ia_cstudio.Prelude.{
  ℕ, ◌+◌, ◌^◌, ◌≤◌, ◌<◌, ◌≡◌, refl, sym, ◌∙◌, String, true, false, List, [], ◌∷◌, none, some, arith,
  Bool-cases, inl, inr, ◌⊎◌, ◌==◌, eq_iff, Result, Option-cases, length, subst,
}
use mathlib.Core.Option.{none-ne-some, some-injective}
use ia_cstudio.Text.Numbered.{numbered_injective}
use ia_cstudio.Runs.Types.{Run, Time, Error, Mode, CreateRequest, mode_valid}
use ia_cstudio.Runs.Store.{Store, Host, find, update, insert_run, run_id, created_run}
use ia_cstudio.Runs.Map.{among, among_number}
use ia_cstudio.Runs.Trace.{Op, step, run_ops}
use ia_cstudio.Runs.Effect.{Effect, unchanged, inserted, updated, step-Effect}
use ia_cstudio.Runs.Queue.{IsQueue, found, dropped, new_run, insert_find, insert-IsQueue}
use ia_cstudio.Runs.Updates.{Found, kept, find-update-none, find-update-some, update-IsQueue}

abbrev pub Queued : Store → Type 0
Queued s = (oldest : ℕ) × (count : ℕ) × IsQueue s oldest count

next-update :
    (id : String) (mutate : Run → Time → Result Error Run) (s : Store) (now : Time)
    → (update id mutate s now).0.next ≡ s.next
unfolding update
next-update id mutate s now = ground arith

-- One operation keeps the store a queue while ids last, and issues one id at most.
pub Effect-Queued :
    {host : Host} {s : Store} {now : Time} {s' : Store}
    → Effect host s now s'
    → Queued s
    → s.next + 1 < 2 ^ 64
    → Queued s' × (s.next ≤ s'.next) × (s'.next ≤ s.next + 1)
unfolding insert_run
Effect-Queued unchanged q fits = (q, omega arith, omega arith)
Effect-Queued {host} {s} {now} (inserted req mode v) (lo, n, q) fits =
    ((_, _, insert-IsQueue host req mode s now q fits), omega arith, omega arith)
Effect-Queued {host} {s} {now} (updated id {mutate} m) (lo, n, q) fits =
    let same = next-update id mutate s now in
    ((lo, n, update-IsQueue id mutate s now m q), omega arith, omega arith)

-- A number above the range is the number of no id in it.
unissued :
    (j : String) (lo n next : ℕ) → among j lo n ≡ true → lo + n < next → (run_id next == j) ≡ false
unissued j lo n next held above = elim (Bool-cases (run_id next == j)) [
  | inl same ↦
      let (k, is, lower, upper) = among_number j lo n held in
      let e = numbered_injective "run_" next k ((eq_iff _ _).0 same ∙ is) in absurd (omega arith)
  | inr apart ↦ apart
]

-- A held run stays, changes by a closure, or is evicted.
Effect-Found :
    {host : Host} {s : Store} {now : Time} {s' : Store} (j : String) (r : Run)
    → Effect host s now s'
    → Queued s
    → s.next + 1 < 2 ^ 64
    → find j s.runs ≡ some r
    → (find j s'.runs ≡ none) ⊎ ((u : Run) × (find j s'.runs ≡ some u) × Found host now r u)
Effect-Found j r unchanged q fits e = inr (r, e, kept refl)
Effect-Found {host} {s} {now} j r (inserted req mode v) (lo, n, q) fits e =
    elim (Bool-cases (among j lo (dropped host req mode s now q fits))) [
      | inl out ↦ inl (insert_find host req mode s now q fits j ∙ rw out refl)
      | inr stays ↦
          let held : among j lo n ≡ true = sym (q.keys j) ∙ rw e refl in
          let old : (run_id (s.next + 1) == j) ≡ false =
            unissued j lo n (s.next + 1) held (omega (arith, q.newest)) in
          inr (r, insert_find host req mode s now q fits j ∙ rw (stays, old) e, kept refl)
    ]
Effect-Found {host} {s} {now} j r (updated id {mutate} m) (lo, n, q) fits e =
    inr (find-update-some id mutate s now m j r e)

run_id_ne : (a b : ℕ) → b < a → (run_id a == run_id b) ≡ false
run_id_ne a b h = elim (Bool-cases (run_id a == run_id b)) [
  | inl same ↦ let e = numbered_injective "run_" a b ((eq_iff _ _).0 same) in absurd (omega arith)
  | inr apart ↦ apart
]

-- An issued id that is not held is never held again.
Effect-gone :
    {host : Host} {s : Store} {now : Time} {s' : Store} (k : ℕ)
    → Effect host s now s'
    → Queued s
    → s.next + 1 < 2 ^ 64
    → k ≤ s.next
    → find (run_id k) s.runs ≡ none
    → find (run_id k) s'.runs ≡ none
Effect-gone k unchanged q fits old e = e
Effect-gone {host} {s} {now} k (inserted req mode v) (lo, n, q) fits old e =
    let other : (run_id (s.next + 1) == run_id k) ≡ false =
      run_id_ne (s.next + 1) k (omega arith) in
    insert_find host req mode s now q fits (run_id k) ∙ ground (arith, other)
Effect-gone {host} {s} {now} k (updated id {mutate} m) q fits old e =
    find-update-none id mutate s now (run_id k) e

-- what an issued id finds: no run, or a run with the property
abbrev pub Holds : (Run → Type 0) → String → Store → Type 0
Holds P j s = (find j s.runs ≡ none) ⊎ ((u : Run) × (find j s.runs ≡ some u) × P u)

module _ (host : Host) (P : Run → Type 0)
    (keep : (now : Time) (r u : Run) → Found host now r u → P r → P u) where
  Holds-Effect :
      {s : Store} {now : Time} {s' : Store} (k : ℕ)
      → Effect host s now s'
      → Queued s
      → s.next + 1 < 2 ^ 64
      → k ≤ s.next
      → Holds P (run_id k) s
      → Holds P (run_id k) s'
  Holds-Effect k effect q fits old (inl gone) = inl (Effect-gone k effect q fits old gone)
  Holds-Effect {now} k effect q fits old (inr (r, e, p)) =
      elim (Effect-Found (run_id k) r effect q fits e) [
        | inl evicted ↦ inl evicted
        | inr (u, held, fate) ↦ inr (u, held, keep now r u fate p)
      ]

  -- A property that every closure keeps holds of a run through every sequence of operations.
  pub Holds-run_ops :
      (k : ℕ) (ops : List (Op × Time)) (s : Store)
      → Queued s
      → s.next + length ops < 2 ^ 64
      → k ≤ s.next
      → Holds P (run_id k) s
      → Holds P (run_id k) (run_ops host ops s)
  unfolding run_ops
  Holds-run_ops k [] s q fits old h = h
  Holds-run_ops k ((op, now) ∷ ops) s q fits old h =
      let effect = step-Effect host s now op in
      let (q', up, one) = Effect-Queued effect q (omega arith) in
      Holds-run_ops k ops (step host op s now).0 q' (omega arith) (omega arith)
        (Holds-Effect k effect q (omega arith) old h)

-- Every sequence of operations keeps the store a queue, while ids last.
pub run_ops-Queued :
    (host : Host) (ops : List (Op × Time)) (s : Store)
    → Queued s
    → s.next + length ops < 2 ^ 64
    → Queued (run_ops host ops s)
unfolding run_ops
run_ops-Queued host [] s q fits = q
run_ops-Queued host ((op, now) ∷ ops) s q fits =
    let (q', up, one) = Effect-Queued (step-Effect host s now op) q (omega arith) in
    run_ops-Queued host ops (step host op s now).0 q' (omega arith)

-- a property of every run that the store holds
abbrev pub EachRun : (Run → Type 0) → Store → Type 0
EachRun P s = (j : String) (r : Run) → find j s.runs ≡ some r → P r

module _ (host : Host) (P : Run → Type 0)
    (start : (req : CreateRequest) (mode : Mode) (id : String) (key : List ℕ) (now : Time)
      → mode_valid mode ≡ true
      → P (created_run host req mode id key now))
    (keep : (now : Time) (r u : Run) → Found host now r u → P r → P u) where
  EachRun-Effect :
      {s : Store} {now : Time} {s' : Store}
      → Effect host s now s'
      → Queued s
      → s.next + 1 < 2 ^ 64
      → EachRun P s
      → EachRun P s'
  EachRun-Effect unchanged q fits each j r e = each j r e
  EachRun-Effect {s} {now} (inserted req mode v) (lo, n, q) fits each j r e =
      let at = sym (insert_find host req mode s now q fits j) ∙ e in
      elim (Bool-cases (among j lo (dropped host req mode s now q fits))) [
        | inl out ↦ absurd (none-ne-some _ (rw out at at))
        | inr stays ↦ elim (Bool-cases (run_id (s.next + 1) == j)) [
          | inl new ↦
              subst P (some-injective _ _ (rw (stays, new) at at))
                (unfold new_run in start req mode _ _ now v)
          | inr old ↦ each j r (rw (stays, old) at at)
        ]
      ]
  EachRun-Effect {s} {now} (updated id {mutate} m) q fits each j r e =
      elim (Option-cases (find j s.runs)) [
        | inl missing ↦
            absurd (none-ne-some _ (sym (find-update-none id mutate s now j missing) ∙ e))
        | inr (old, held) ↦
            let (u, found, fate) = find-update-some id mutate s now m j old held in
            subst P (some-injective _ _ (sym found ∙ e)) (keep now old u fate (each j old held))
      ]

  -- A property of new runs that every closure keeps holds of every run, at any time.
  pub EachRun-run_ops :
      (ops : List (Op × Time)) (s : Store)
      → Queued s
      → s.next + length ops < 2 ^ 64
      → EachRun P s
      → EachRun P (run_ops host ops s)
  unfolding run_ops
  EachRun-run_ops [] s q fits each = each
  EachRun-run_ops ((op, now) ∷ ops) s q fits each =
      let effect = step-Effect host s now op in
      let (q', up, one) = Effect-Queued effect q (omega arith) in
      EachRun-run_ops ops (step host op s now).0 q' (omega arith)
        (EachRun-Effect effect q (omega arith) each)
