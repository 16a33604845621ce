-- ===== src/Tables/Generations.antt =====
-- The generation bookkeeping that `PathTable`, `ReverseTable` and `LinkTable` of src/tables.rs share:
-- each slot has a generation, and a generation names one use of a slot.
pub mod Laws
use rs_reticulum_lite.Prelude.{
  ℕ, ◌+◌, List, [], ◌∷◌, Option, none, some, Bool, true, false, ◌&&◌, if◌then◌else◌, ◌==◌, or_else,
  length,
}
use rs_reticulum_lite.Prelude.Words.{checked_add}

-- `next_generation`, from the number of slots and `last_generation`.
unfoldable pub next_generation : ℕ → ℕ → Option ℕ
next_generation n last = if n == 0 then none else checked_add last 1

module _ {ℓ κ} {A : Type ℓ} {B : Type κ} where
  -- `entries.iter().zip(generations.iter()).find_map(f)`
  unfoldable pub find_map : (Option A → ℕ → Option B) → List (Option A) → List ℕ → Option B
  find_map f [] gs = none
  find_map f (e ∷ es) [] = none
  find_map f (e ∷ es) (g ∷ gs) = or_else (f e g) (find_map f es gs)

module _ {ℓ} {A : Type ℓ} where
  -- `generation`: the generation of the slot whose entry passes the test, if it is not 0.
  abbrev pub generation_at : (A → Bool) → Option A → ℕ → Option ℕ
  generation_at p none g = none
  generation_at p (some a) g = if p a then (if g == 0 then none else some g) else none

  unfoldable pub generation : (A → Bool) → List (Option A) → List ℕ → Option ℕ
  generation p es gs = find_map (generation_at p) es gs

  -- `get_generation`: the entry of a slot of the generation that passes the test.
  abbrev pub entry_at : (A → Bool) → ℕ → Option A → ℕ → Option A
  entry_at p generation none g = none
  entry_at p generation (some a) g = if g == generation && p a then some a else none

  unfoldable pub get_generation : (A → Bool) → ℕ → List (Option A) → List ℕ → Option A
  get_generation p generation es gs =
      if generation == 0 then none else find_map (entry_at p generation) es gs
