-- ===== src/Tables/Slots/Choice.antt =====
-- The slot that an insertion takes where the key is new: a free one, or that of the oldest entry.
use rs_reticulum_lite.Prelude.{
  ℕ, ◌<◌, ◌≡◌, refl, sym, ◌∙◌, List, Option, none, some, true, length, get_or, is_none, inl, inr,
  Option-cases,
}
use rs_reticulum_lite.Tables.Slots.{count, position, oldest_index, free_or_oldest}
use rs_reticulum_lite.Tables.Slots.Lookup.{position-some, position_full}
use rs_reticulum_lite.Tables.Slots.Victim.{IsOldest, oldest_index-some, oldest_index-none}

module _ {ℓ} {A : Type ℓ} where
  pub is_none_of : (o : Option A) → is_none o ≡ true → o ≡ none
  is_none_of none h = refl
  is_none_of (some a) h = cc

-- An entry is evicted only where no slot is free, and then one that expires first.
pub data Choice {ℓ} {A : Type ℓ} (age : A → ℕ) (es : List (Option A)) : Option ℕ → Type ℓ where
  free : (idx : ℕ) → idx < length es → get_or es idx none ≡ none → Choice age es (some idx)
  evicts :
      (idx : ℕ) (victim : A)
      → count (λ _. true) es ≡ length es
      → IsOldest age (λ _. true) es idx victim
      → Choice age es (some idx)
  no_slots : length es ≡ 0 → Choice age es none

pub free_or_oldest-Choice {ℓ} :
    {A : Type ℓ} (age : A → ℕ) (es : List (Option A)) → Choice age es (free_or_oldest age es)
unfolding free_or_oldest
free_or_oldest-Choice age es = elim (Option-cases (position is_none es)) [
  | inr (idx, p) ↦
      let (l, z) = position-some is_none es idx p in
      rw (p, free_or_oldest) (free idx l (is_none_of _ z))
  | inl n ↦ elim (Option-cases (oldest_index age es)) [
    | inl m ↦
        rw (n, m, free_or_oldest) (no_slots (sym (position_full es n) ∙ oldest_index-none age es m))
    | inr (idx, m) ↦
        let (victim, o) = oldest_index-some age es idx m in
        rw (n, m, free_or_oldest) (evicts idx victim (position_full es n) o)
  ]
]
