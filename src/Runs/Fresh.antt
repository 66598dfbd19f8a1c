-- ===== src/Runs/Fresh.antt =====
-- New stores of internal/agentruns/store.go, `NewStore`.
use mathlib.Core.Option.{none-ne-some}
use ia_cstudio.Prelude.{ℕ, ◌≡◌, refl, sym, List, [], ◌∷◌, arith}
use ia_cstudio.Runs.Types.{Run}
use ia_cstudio.Runs.Store.{
  Store, StoreOption, with_max_runs, with_prompt_hash_key, apply_option, apply_options,
  default_max_runs, find, new_store,
}
use ia_cstudio.Runs.History.{Queued, EachRun}

-- a store that has issued no id
record IsEmpty (s : Store) : Type 0 where
  next : s.next ≡ 0
  runs : s.runs ≡ []
  order : s.order ≡ []

apply_options-IsEmpty :
    (options : List StoreOption) (s : Store) → IsEmpty s → IsEmpty (apply_options options s)
unfolding apply_options
apply_options-IsEmpty [] s h = h
apply_options-IsEmpty (with_max_runs n ∷ options) s h =
    apply_options-IsEmpty options (apply_option (with_max_runs n) s)
      (unfold apply_option in ground arith)
apply_options-IsEmpty (with_prompt_hash_key [] ∷ options) s h = apply_options-IsEmpty options s h
apply_options-IsEmpty (with_prompt_hash_key (b ∷ key) ∷ options) s h =
    apply_options-IsEmpty options (record s { hash_key = b ∷ key }) (ground arith)

abbrev blank : Store
blank = record { max_runs = default_max_runs; next = 0; runs = []; order = []; hash_key = [] }

-- A new store is a queue, whatever its options.
pub new_store-Queued :
    (options : List StoreOption) (fresh : List ℕ) → Queued (new_store options fresh)
unfolding new_store find
new_store-Queued options fresh =
    let e =
      apply_options-IsEmpty options blank (record { next = refl; runs = refl; order = refl }) in
    (
      0,
      0,
      record {
        order_ids = e.order;
        newest = sym e.next;
        room = omega arith;
        keys = λ j. rw e.runs refl;
        own = λ j r held. absurd (none-ne-some _ (rw e.runs at held));
      },
    )

-- No run is held at first.
pub new_store-EachRun :
    (P : Run → Type 0) (options : List StoreOption) (fresh : List ℕ)
    → EachRun P (new_store options fresh)
unfolding new_store find
new_store-EachRun P options fresh j r held =
    let e =
      apply_options-IsEmpty options blank (record { next = refl; runs = refl; order = refl }) in
    absurd (none-ne-some _ (rw e.runs at held))

pub next-new_store :
    (options : List StoreOption) (fresh : List ℕ) → (new_store options fresh).next ≡ 0
unfolding new_store
next-new_store options fresh =
    (apply_options-IsEmpty options blank (record { next = refl; runs = refl; order = refl })).next
