-- ===== src/Tables/Queue/Fifo.antt =====
-- What `Queue` promises: a list, oldest first, of at most `n` entries that drops its oldest.
use mathlib.Core.Option
use rs_reticulum_lite.Prelude.{
  ℕ, zero, suc, ◌≤◌, ◌<◌, ◌≡◌, refl, ap, List, [], ◌∷◌, ◌++◌, Option, none, some, Bool, true, false,
  if◌then◌else◌, ◌==◌, ltb, length, get_elem?, drop, arith,
}

module _ {ℓ} {A : Type ℓ} where
  unfoldable pub push : ℕ → List A → A → List A × Bool
  push n xs v =
      if n == 0
      then (xs, false)
      else if length xs == n
      then (drop 1 xs ++ (v ∷ []), true)
      else (xs ++ (v ∷ []), false)

  unfoldable pub pop : List A → Option A × List A
  pop [] = (none, [])
  pop (x ∷ xs) = (some x, xs)

  unfoldable pub remove_at : ℕ → List A → List A
  remove_at i [] = []
  remove_at zero (x ∷ xs) = xs
  remove_at (suc i) (x ∷ xs) = x ∷ remove_at i xs

  unfoldable pub modify : ℕ → (A → A) → List A → List A
  modify i f [] = []
  modify zero f (x ∷ xs) = f x ∷ xs
  modify (suc i) f (x ∷ xs) = x ∷ modify i f xs

  pub get_elem?-snoc :
      (xs : List A) (v : A) (i : ℕ)
      → i ≤ length xs
      → get_elem? (xs ++ (v ∷ [])) i ≡ (if i == length xs then some v else get_elem? xs i)
  get_elem?-snoc [] v zero h = refl
  get_elem?-snoc [] v (suc i) h = absurd (omega arith)
  get_elem?-snoc (x ∷ xs) v zero h = ground arith
  get_elem?-snoc (x ∷ xs) v (suc i) h = ground (arith, get_elem?-snoc xs v i (omega arith))

  pub get_elem?-remove_at :
      (xs : List A) (o i : ℕ)
      → get_elem? (remove_at o xs) i ≡ (if ltb i o then get_elem? xs i else get_elem? xs (suc i))
  unfolding remove_at
  get_elem?-remove_at [] o i = ground arith
  get_elem?-remove_at (x ∷ xs) zero zero = refl
  get_elem?-remove_at (x ∷ xs) zero (suc i) = ground arith
  get_elem?-remove_at (x ∷ xs) (suc o) zero = ground arith
  get_elem?-remove_at (x ∷ xs) (suc o) (suc i) = ground (arith, get_elem?-remove_at xs o i)

  pub length-remove_at :
      (xs : List A) (o : ℕ) → o < length xs → suc (length (remove_at o xs)) ≡ length xs
  unfolding remove_at
  length-remove_at [] o h = absurd (omega arith)
  length-remove_at (x ∷ xs) zero h = refl
  length-remove_at (x ∷ xs) (suc o) h = ap suc (length-remove_at xs o (omega arith))

  pub get_elem?_beyond : (xs : List A) (i : ℕ) → length xs ≤ i → get_elem? xs i ≡ none
  get_elem?_beyond [] i h = refl
  get_elem?_beyond (x ∷ xs) zero h = absurd (omega arith)
  get_elem?_beyond (x ∷ xs) (suc i) h = get_elem?_beyond xs i (omega arith)

  pub remove_at_beyond : (xs : List A) (o : ℕ) → length xs ≤ o → remove_at o xs ≡ xs
  unfolding remove_at
  remove_at_beyond [] o h = refl
  remove_at_beyond (x ∷ xs) zero h = absurd (omega arith)
  remove_at_beyond (x ∷ xs) (suc o) h = ap (◌∷◌ x) (remove_at_beyond xs o (omega arith))

  pub modify_beyond : (f : A → A) (xs : List A) (o : ℕ) → length xs ≤ o → modify o f xs ≡ xs
  unfolding modify
  modify_beyond f [] o h = refl
  modify_beyond f (x ∷ xs) zero h = absurd (omega arith)
  modify_beyond f (x ∷ xs) (suc o) h = ap (◌∷◌ x) (modify_beyond f xs o (omega arith))

  pub length-modify : (f : A → A) (xs : List A) (o : ℕ) → length (modify o f xs) ≡ length xs
  unfolding modify
  length-modify f [] o = refl
  length-modify f (x ∷ xs) zero = refl
  length-modify f (x ∷ xs) (suc o) = ap suc (length-modify f xs o)

  pub get_elem?-modify :
      (f : A → A) (xs : List A) (o i : ℕ)
      → get_elem? (modify o f xs) i
        ≡ (if i == o then Option.map f (get_elem? xs o) else get_elem? xs i)
  unfolding modify
  get_elem?-modify f [] o i = ground arith
  get_elem?-modify f (x ∷ xs) zero zero = refl
  get_elem?-modify f (x ∷ xs) zero (suc i) = ground arith
  get_elem?-modify f (x ∷ xs) (suc o) zero = ground arith
  get_elem?-modify f (x ∷ xs) (suc o) (suc i) = ground (arith, get_elem?-modify f xs o i)

  abbrev pub get : List A → ℕ → Option A
  get xs o = get_elem? xs o
