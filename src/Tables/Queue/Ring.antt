-- ===== src/Tables/Queue/Ring.antt =====
-- The ring that a queue keeps its entries in: slot `i` counted from the head, and what `iter` reads.
use native.Mathlib.Nat.{zero-add, mod-add-mod, mod-eq_of_lt, mod-eq-sub-mod}
use native.Mathlib.Decide.{dec_lt}
use rs_reticulum_lite.Prelude.{
  ℕ, zero, suc, ◌+◌, ◌-◌, ◌%◌, ◌<◌, max, ◌≡◌, refl, sym, ap, ◌∙◌, List, [], ◌∷◌, Option, none, some,
  true, arith, length, get_or, get_elem?, set, is_some, ◌==◌, if◌then◌else◌, get_or-set_self,
  get_or-set_ne, length-set, Bool-cases, ◌⊎◌, inl, inr,
}
use rs_reticulum_lite.Tables.Queue.{iter_from}

-- A number below two turns is reduced by none or one.
mod_once : (n x : ℕ) → x < n + n → (x % n ≡ x) ⊎ ((x % n + n ≡ x) × (x % n < n))
mod_once n x h = elim (dec_lt x n) [
  | yes p ↦ inl (mod-eq_of_lt p)
  | no p ↦
      let e : x % n ≡ x - n =
        mod-eq-sub-mod {n = x} {m = n} (omega arith)
        ∙ mod-eq_of_lt {n = x - n} {m = n} (omega arith) in
      inr (omega arith, omega arith)
]

-- Two places less than a turn apart are one place only at one offset.
pub mod_add_injective : (n h i j : ℕ) → h < n → i < n → j < n → (h + i) % n ≡ (h + j) % n → i ≡ j
mod_add_injective n h i j hh hi hj e =
    omega (arith, mod_once n (h + i) (omega arith), mod_once n (h + j) (omega arith))

module _ {ℓ} {A : Type ℓ} where
  -- The slot at offset `i` from the head.
  abbrev pub slot : List (Option A) → ℕ → ℕ → Option A
  slot es head i = get_or es ((head + i) % length es) none

  pub slot-set :
      (es : List (Option A)) (h i j : ℕ) (v : Option A)
      → h < length es
      → i < length es
      → j < length es
      → slot (set es ((h + j) % length es) v) h i ≡ (if i == j then v else slot es h i)
  slot-set es h i j v hh hi hj = rw length-set (elim (Bool-cases (i == j)) [
    | inl t ↦
        let e : i ≡ j = ground arith in
        rw (t, e) (get_or-set_self es ((h + j) % length es) v none (omega arith))
    | inr f ↦ rw f (
        get_or-set_ne es ((h + j) % length es) ((h + i) % length es) v none
          (λ e. ground (arith, mod_add_injective (length es) h i j hh hi hj (sym e))))
  ])

  -- The same with the length as a number of its own.
  abbrev pub place : ℕ → List (Option A) → ℕ → ℕ → Option A
  place n es head i = get_or es ((head + i) % n) none

  pub place-set :
      (n : ℕ) (es : List (Option A)) (h i j : ℕ) (v : Option A)
      → length es ≡ n
      → h < n
      → i < n
      → j < n
      → place n (set es ((h + j) % n) v) h i ≡ (if i == j then v else place n es h i)
  place-set n es h i j v e hh hi hj = elim (Bool-cases (i == j)) [
    | inl t ↦
        let ij : i ≡ j = ground arith in
        rw (t, ij) (get_or-set_self es ((h + j) % n) v none (omega arith))
    | inr f ↦ rw f (
        get_or-set_ne es ((h + j) % n) ((h + i) % n) v none
          (λ e. ground (arith, mod_add_injective n h i j hh hi hj (sym e))))
  ]

  -- The slots from one place further round.
  pub slot_next :
      (es : List (Option A)) (h i : ℕ) → slot es ((h + 1) % length es) i ≡ slot es h (i + 1)
  slot_next es h i =
      ap (λ k. get_or es k none)
        (mod-add-mod (h + 1) (length es) i ∙ ap (λ k. k % length es) (omega arith))

  -- A whole turn comes back to the head.
  pub slot_turn :
      (es : List (Option A)) (h : ℕ) → h < length es → slot es h (length es) ≡ slot es h 0
  slot_turn es h hh =
      ap (λ k. get_or es k none)
        (omega (
          arith,
          mod_once (length es) (h + length es) (omega arith),
          mod_once (length es) (h + 0) (omega arith),
        ))

  -- The slots of `head` hold `xs`, oldest first.
  abbrev pub Reads : List (Option A) → ℕ → List A → Type ℓ
  Reads es head xs = (i : ℕ) → i < length xs → slot es head i ≡ get_elem? xs i

  iter_from_step :
      (es : List (Option A)) (h n o : ℕ) (x : A)
      → h < length es
      → slot es h o ≡ some x
      → iter_from es h (suc n) o ≡ x ∷ iter_from es h n (o + 1)
  unfolding iter_from
  iter_from_step es h n o x hh e =
      let full : max (length es) 1 ≡ length es = omega arith in rw (full, e) refl

  -- `iter` returns the list that the slots hold.
  iter_from-Reads :
      (es : List (Option A)) (h o : ℕ) (xs : List A)
      → h < length es
      → ((i : ℕ) → i < length xs → slot es h (o + i) ≡ get_elem? xs i)
      → iter_from es h (length xs) o ≡ xs
  iter_from-Reads es h o [] hh r = unfold iter_from in refl
  iter_from-Reads es h o (x ∷ xs) hh r =
      iter_from_step es h (length xs) o x hh first
      ∙ ap (◌∷◌ x) (iter_from-Reads es h (o + 1) xs hh λ i hi. later i hi)
    where
      first : slot es h o ≡ some x
      first = let z : o + 0 ≡ o = omega arith in rw z at (r 0 (omega arith))

      later : (i : ℕ) → i < length xs → slot es h (o + 1 + i) ≡ get_elem? xs i
      later i hi = let z : o + suc i ≡ o + 1 + i = omega arith in rw z at (r (suc i) (omega arith))

  some_of_is_some : (x : Option A) → is_some x ≡ true → (a : A) × (x ≡ some a)
  some_of_is_some none h = cc
  some_of_is_some (some a) h = (a, refl)

  -- `n` slots from offset `o` on hold `xs`.
  abbrev Holds : List (Option A) → ℕ → ℕ → ℕ → List A → Type ℓ
  Holds es h n o xs = (length xs ≡ n) × ((i : ℕ) → i < n → slot es h (o + i) ≡ get_elem? xs i)

  Holds-cons :
      (es : List (Option A)) (h n o : ℕ) (x : A) (xs : List A)
      → slot es h o ≡ some x
      → Holds es h n (o + 1) xs
      → Holds es h (suc n) o (x ∷ xs)
  Holds-cons es h n o x xs e (l, r) = (ap suc l, at)
    where
      at : (i : ℕ) → i < suc n → slot es h (o + i) ≡ get_elem? (x ∷ xs) i
      at zero hi = let z : o + 0 ≡ o = omega arith in rw z e
      at (suc i) hi = let z : o + suc i ≡ o + 1 + i = omega arith in rw z (r i (omega arith))

  -- Where no slot is empty the slots hold what `iter` returns.
  Holds-iter_from :
      (es : List (Option A)) (h n o : ℕ)
      → h < length es
      → ((i : ℕ) → i < n → is_some (slot es h (o + i)) ≡ true)
      → Holds es h n o (iter_from es h n o)
  Holds-iter_from es h zero o hh f = unfold iter_from in (refl, λ i hi. absurd (omega arith))
  Holds-iter_from es h (suc n) o hh f =
      let z : o + 0 ≡ o = omega arith in
      let (x, e) = some_of_is_some (slot es h o) (rw z at (f 0 (omega arith))) in
      rw (iter_from_step es h n o x hh e) (
        Holds-cons es h n o x (iter_from es h n (o + 1)) e (
          Holds-iter_from es h n (o + 1) hh
            λ i hi. let s : o + 1 + i ≡ o + suc i = omega arith in rw s (f (suc i) (omega arith))))

  -- The same for a whole queue: the two directions between its slots and the list that it holds.
  pub Reads-iter :
      (es : List (Option A)) (h n : ℕ)
      → h < length es
      → ((i : ℕ) → i < n → is_some (slot es h i) ≡ true)
      → (length (iter_from es h n 0) ≡ n) × Reads es h (iter_from es h n 0)
  Reads-iter es h n hh f =
      let (l, r) = Holds-iter_from es h n 0 hh (λ i hi. rw (zero-add i) (f i hi)) in
      (l, λ i hi. rw (zero-add i) at (r i (omega arith)))

  pub iter-Reads :
      (es : List (Option A)) (h n : ℕ) (xs : List A)
      → h < length es
      → length xs ≡ n
      → Reads es h xs
      → iter_from es h n 0 ≡ xs
  iter-Reads es h n xs hh l r =
      rw (← l) (iter_from-Reads es h 0 xs hh λ i hi. rw (zero-add i) (r i hi))
