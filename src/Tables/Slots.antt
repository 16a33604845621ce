-- ===== src/Tables/Slots.antt =====
-- The searches that the tables of src/tables.rs make over their arrays of optional entries:
-- the iterator chains, `oldest_index` and `class_victim`.
pub mod Count
pub mod Lookup
pub mod Victim
pub mod Choice
pub mod Unique
use rs_reticulum_lite.Prelude.{
  ℕ, suc, ◌+◌, List, [], ◌∷◌, Option, none, some, Bool, true, false, not, if◌then◌else◌, ltb,
  or_else, is_some_and, is_none,
}

module _ {ℓ} {A : Type ℓ} where
  -- `entries.iter().flatten().find(p)`
  unfoldable pub find : (A → Bool) → List (Option A) → Option A
  find p [] = none
  find p (none ∷ es) = find p es
  find p (some a ∷ es) = if p a then some a else find p es

  -- `entries.iter().flatten().any(p)`
  unfoldable pub any : (A → Bool) → List (Option A) → Bool
  any p [] = false
  any p (none ∷ es) = any p es
  any p (some a ∷ es) = if p a then true else any p es

  -- `entries.iter().flatten().filter(p).count()`
  unfoldable pub count : (A → Bool) → List (Option A) → ℕ
  count p [] = 0
  count p (none ∷ es) = count p es
  count p (some a ∷ es) = if p a then suc (count p es) else count p es

  -- `entries.iter().position(p)`, started at index `i`
  unfoldable pub position_from : ℕ → (Option A → Bool) → List (Option A) → Option ℕ
  position_from i p [] = none
  position_from i p (e ∷ es) = if p e then some i else position_from (i + 1) p es

  unfoldable pub position : (Option A → Bool) → List (Option A) → Option ℕ
  position p es = position_from 0 p es

  -- `for slot in &mut entries { if slot.is_some_and(p) { *slot = None } }`
  unfoldable pub clear_if : (A → Bool) → List (Option A) → List (Option A)
  clear_if p [] = []
  clear_if p (e ∷ es) = (if is_some_and p e then none else e) ∷ clear_if p es

  -- `if let Some(e) = entries.iter_mut().flatten().find(p) { *e = f(e) }`
  unfoldable pub update_first : (A → Bool) → (A → A) → List (Option A) → List (Option A)
  update_first p f [] = []
  update_first p f (none ∷ es) = none ∷ update_first p f es
  update_first p f (some a ∷ es) = if p a then some (f a) ∷ es else some a ∷ update_first p f es

  -- `entry.filter(p)`
  unfoldable pub keep : (A → Bool) → Option A → Option A
  keep p none = none
  keep p (some a) = if p a then some a else none

  -- One round of a loop that keeps the first entry for which no later one `better`s it.
  unfoldable pub better_of : (A → A → Bool) → ℕ → Option A → Option (ℕ × A) → Option (ℕ × A)
  better_of better i none best = best
  better_of better i (some a) none = some (i, a)
  better_of better i (some a) (some (j, b)) = if better a b then some (i, a) else some (j, b)

  -- The loop over `entries.iter().enumerate()` that passes over the entries failing `p`.
  unfoldable pub best_from :
      (A → Bool) → (A → A → Bool) → ℕ → Option (ℕ × A) → List (Option A) → Option (ℕ × A)
  best_from p better i best [] = best
  best_from p better i best (e ∷ es) =
      best_from p better (i + 1) (better_of better i (keep p e) best) es

  unfoldable pub best_index : (A → Bool) → (A → A → Bool) → List (Option A) → Option (ℕ × A)
  best_index p better es = best_from p better 0 none es

  abbrev pub index_of : Option (ℕ × A) → Option ℕ
  index_of none = none
  index_of (some (i, a)) = some i

  abbrev pub older : (A → ℕ) → A → A → Bool
  older age a b = ltb (age a) (age b)

  -- `oldest_index`
  unfoldable pub oldest_index : (A → ℕ) → List (Option A) → Option ℕ
  oldest_index age es = index_of (best_index (λ _. true) (older age) es)

  -- `class_victim`
  unfoldable pub class_victim : Bool → (A → Bool) → (A → ℕ) → List (Option A) → Option ℕ
  class_victim newcomer_bulk bulk age es =
      or_else (index_of (best_index bulk (older age) es))
        (if newcomer_bulk then none else oldest_index age es)

  -- `entries.iter().position(Option::is_none).or_else(|| oldest_index(..))`
  unfoldable pub free_or_oldest : (A → ℕ) → List (Option A) → Option ℕ
  free_or_oldest age es = or_else (position is_none es) (oldest_index age es)
