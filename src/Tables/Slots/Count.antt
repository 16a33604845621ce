-- ===== src/Tables/Slots/Count.antt =====
-- How the searches of `Slots` change the number of entries with a property. A key that is held
-- once is an entry counted at most once.
use rs_reticulum_lite.Prelude.{
  ℕ, zero, suc, ◌+◌, ◌≤◌, ◌<◌, ◌≡◌, refl, ap, List, [], ◌∷◌, Option, none, some, Bool, true, false,
  is_some_and, to_bit, arith, length, set, get_or, replicate, ◌⊎◌, inr,
}
use rs_reticulum_lite.Tables.Slots.{any, count, clear_if, update_first}

module _ {ℓ} {A : Type ℓ} where
  pub length-clear_if : (p : A → Bool) (es : List (Option A)) → length (clear_if p es) ≡ length es
  unfolding clear_if
  length-clear_if p [] = refl
  length-clear_if p (e ∷ es) = ap suc (length-clear_if p es)

  pub length-update_first :
      (p : A → Bool) (f : A → A) (es : List (Option A)) → length (update_first p f es) ≡ length es
  unfolding update_first
  length-update_first p f [] = refl
  length-update_first p f (none ∷ es) = ap suc (length-update_first p f es)
  length-update_first p f (some a ∷ es) = ground (arith, length-update_first p f es)

  pub count-replicate : (p : A → Bool) (n : ℕ) → count p (replicate n none) ≡ 0
  unfolding count
  count-replicate p zero = refl
  count-replicate p (suc n) = count-replicate p n

  -- A write moves the count by what it removes and what it adds.
  pub count-set :
      (p : A → Bool) (es : List (Option A)) (i : ℕ) (e : Option A)
      → i < length es
      → count p (set es i e) + to_bit (is_some_and p (get_or es i none))
        ≡ count p es + to_bit (is_some_and p e)
  unfolding count
  count-set p [] i e h = absurd (omega arith)
  count-set p (none ∷ es) zero none h = refl
  count-set p (none ∷ es) zero (some b) h = ground arith
  count-set p (some a ∷ es) zero none h = ground arith
  count-set p (some a ∷ es) zero (some b) h = ground arith
  count-set p (none ∷ es) (suc i) e h = count-set p es i e (omega arith)
  count-set p (some a ∷ es) (suc i) e h = ground (arith, count-set p es i e (omega arith))

  pub count-clear_if_le :
      (p q : A → Bool) (es : List (Option A)) → count p (clear_if q es) ≤ count p es
  unfolding count clear_if
  count-clear_if_le p q [] = omega arith
  count-clear_if_le p q (none ∷ es) = count-clear_if_le p q es
  count-clear_if_le p q (some a ∷ es) = ground (arith, count-clear_if_le p q es)

  pub count-clear_if_apart :
      (p q : A → Bool) (es : List (Option A))
      → ((a : A) → p a ≡ true → q a ≡ false)
      → count p (clear_if q es) ≡ count p es
  unfolding count clear_if
  count-clear_if_apart p q [] h = refl
  count-clear_if_apart p q (none ∷ es) h = count-clear_if_apart p q es h
  count-clear_if_apart p q (some a ∷ es) h = ground (arith, count-clear_if_apart p q es h, h a)

  pub count-clear_if_none :
      (p q : A → Bool) (es : List (Option A))
      → ((a : A) → p a ≡ true → q a ≡ true)
      → count p (clear_if q es) ≡ 0
  unfolding count clear_if
  count-clear_if_none p q [] h = refl
  count-clear_if_none p q (none ∷ es) h = count-clear_if_none p q es h
  count-clear_if_none p q (some a ∷ es) h = ground (arith, count-clear_if_none p q es h, h a)

  -- Clearing what does not have `q` changes no count of what has `p` and `q`.
  pub count-update_first :
      (p q : A → Bool) (f : A → A) (es : List (Option A))
      → ((a : A) → q a ≡ true → p (f a) ≡ p a)
      → count p (update_first q f es) ≡ count p es
  unfolding count update_first
  count-update_first p q f [] h = refl
  count-update_first p q f (none ∷ es) h = count-update_first p q f es h
  count-update_first p q f (some a ∷ es) h = ground (arith, count-update_first p q f es h, h a)

  -- A count bounds the count of a stronger property.
  pub count_mono :
      (p q : A → Bool) (es : List (Option A))
      → ((a : A) → p a ≡ true → q a ≡ true)
      → count p es ≤ count q es
  unfolding count
  count_mono p q [] h = omega arith
  count_mono p q (none ∷ es) h = count_mono p q es h
  count_mono p q (some a ∷ es) h = ground (arith, count_mono p q es h, h a)

  pub any-eq-count : (p : A → Bool) (es : List (Option A)) → (any p es ≡ true) ⊎ (count p es ≡ 0)
  unfolding any count
  any-eq-count p [] = inr refl
  any-eq-count p (none ∷ es) = any-eq-count p es
  any-eq-count p (some a ∷ es) = ground (arith, any-eq-count p es)

  pub any-of-count : (p : A → Bool) (es : List (Option A)) → any p es ≡ true → 0 < count p es
  unfolding any count
  any-of-count p [] h = cc
  any-of-count p (none ∷ es) h = any-of-count p es h
  any-of-count p (some a ∷ es) h = ground (arith, any-of-count p es)

  pub count-le-length : (p : A → Bool) (es : List (Option A)) → count p es ≤ length es
  unfolding count
  count-le-length p [] = omega arith
  count-le-length p (none ∷ es) = omega (arith, count-le-length p es)
  count-le-length p (some a ∷ es) = ground (arith, count-le-length p es)
