-- ===== src/Attempts/Window.antt =====
-- What the two attempt stores of internal/api share: the map of entries, the queue of completed keys
-- and `makeRoomLocked`. A Go map is an association list in which a key stands once.
pub mod Keeps
pub mod Valid
pub mod Room
use ia_cstudio.Prelude.{
  ℕ, String, Bool, true, false, ◌&&◌, List, [], ◌∷◌, Option, none, some, if◌then◌else◌, ltb, leb,
  length, ◌==◌,
}

-- `agentToolRouteAttemptKey` and `agentToolExecutionAttemptKey`
pub record Key : Type 0 where
  pub run_id : String
  pub key : String

-- `==` on keys
unfoldable pub same_key : Key → Key → Bool
same_key a b = a.run_id == b.run_id && a.key == b.key

pub record Window (A : Type 0) : Type 0 where
  pub entries : List (Key × A)
  pub completed : List Key
  pub max_entries : ℕ

module _ {A : Type 0} where
  -- `s.entries[key]`
  unfoldable pub attempt_at : List (Key × A) → Key → Option A
  unfolding same_key
  attempt_at [] key = none
  attempt_at ((k, a) ∷ rest) key = if same_key k key then some a else attempt_at rest key

  -- `s.entries[key] = attempt`
  unfoldable pub set_attempt : List (Key × A) → Key → A → List (Key × A)
  unfolding same_key
  set_attempt [] key a = (key, a) ∷ []
  set_attempt ((k, b) ∷ rest) key a =
      let later = set_attempt rest key a in
      if same_key k key then (key, a) ∷ rest else (k, b) ∷ later

  -- `delete(s.entries, key)`
  unfoldable pub delete_attempt : List (Key × A) → Key → List (Key × A)
  unfolding same_key
  delete_attempt [] key = []
  delete_attempt ((k, b) ∷ rest) key =
      let later = delete_attempt rest key in if same_key k key then later else (k, b) ∷ later

  -- the loop of `makeRoomLocked`
  unfoldable pub evict_oldest : ℕ → List (Key × A) → List Key → List (Key × A) × List Key
  evict_oldest max_entries entries [] = (entries, [])
  evict_oldest max_entries entries (oldest ∷ completed) =
      let later = evict_oldest max_entries (delete_attempt entries oldest) completed in
      if leb max_entries (length entries) then later else (entries, oldest ∷ completed)

  -- `makeRoomLocked`
  unfoldable pub make_room : Window A → Window A × Bool
  unfolding evict_oldest
  make_room s =
      let (entries, completed) = evict_oldest s.max_entries s.entries s.completed in
      (record s { entries = entries; completed = completed }, ltb (length entries) s.max_entries)

-- whether a key is among those of a list
unfoldable pub member : Key → List Key → Bool
unfolding same_key
member key [] = false
member key (k ∷ keys) = if same_key k key then true else member key keys
