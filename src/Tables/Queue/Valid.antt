-- ===== src/Tables/Queue/Valid.antt =====
-- The invariants of `Queue`, and what it means that a queue holds a list.
use rs_reticulum_lite.Prelude.{
  ℕ, zero, suc, ◌≤◌, ◌<◌, ◌≡◌, refl, sym, ap, ◌∙◌, ◌⊎◌, inl, inr, List, [], ◌∷◌, true, ◌==◌, arith,
  length, get_elem?, is_some, Bool-cases,
}
use rs_reticulum_lite.Tables.Queue.{Queue, capacity, iter_from, iter}
use rs_reticulum_lite.Tables.Queue.Ring.{slot, Reads, Reads-iter, iter-Reads}

module _ {ℓ} {A : Type ℓ} where
  -- The invariants that the methods assume of the storage fields.
  pub record IsValid (q : Queue A) : Type 0 where
    pub fits : q.len ≤ capacity q
    pub head_in : (capacity q ≡ 0) ⊎ (q.head < capacity q)
    pub filled : (i : ℕ) → i < q.len → is_some (slot q.entries q.head i) ≡ true

  -- The queue holds `xs`, in a ring of at least one slot.
  pub record Holds (q : Queue A) (xs : List A) : Type ℓ where
    pub head_in : q.head < capacity q
    pub len_eq : q.len ≡ length xs
    pub fits : q.len ≤ capacity q
    pub reads : Reads q.entries q.head xs

  pub Holds-iter : (q : Queue A) → IsValid q → 0 < capacity q → Holds q (iter q)
  unfolding iter
  Holds-iter q v h =
      let hh : q.head < capacity q = omega (arith, v.head_in) in
      let (l, r) = Reads-iter q.entries q.head q.len hh v.filled in
      record { head_in = hh; len_eq = sym l; fits = v.fits; reads = r }

  is_some-get_elem? : (xs : List A) (i : ℕ) → i < length xs → is_some (get_elem? xs i) ≡ true
  is_some-get_elem? [] i h = absurd (omega arith)
  is_some-get_elem? (x ∷ xs) zero h = refl
  is_some-get_elem? (x ∷ xs) (suc i) h = is_some-get_elem? xs i (omega arith)

  pub Holds-IsValid : (q : Queue A) (xs : List A) → Holds q xs → IsValid q
  Holds-IsValid q xs h = record {
    fits = h.fits;
    head_in = inr h.head_in;
    filled = λ i hi.
        let hx : i < length xs = omega (arith, h.len_eq) in
        rw (h.reads i hx) (is_some-get_elem? xs i hx);
  }

  pub iter_of_Holds : (q : Queue A) (xs : List A) → Holds q xs → iter q ≡ xs
  unfolding iter
  iter_of_Holds q xs h = iter-Reads q.entries q.head q.len xs h.head_in (sym h.len_eq) h.reads

  pub iter_empty : (q : Queue A) → q.len ≡ 0 → iter q ≡ []
  unfolding iter iter_from
  iter_empty q e = rw (e, iter_from) refl

  pub length-iter : (q : Queue A) → IsValid q → length (iter q) ≡ q.len
  length-iter q v = elim (Bool-cases (capacity q == 0)) [
    | inl t ↦ let z : q.len ≡ 0 = ground (arith, v.fits) in ap length (iter_empty q z) ∙ sym z
    | inr f ↦ sym ((Holds-iter q v (ground arith)).len_eq)
  ]
