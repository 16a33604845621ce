-- ===== src/Tables/Queue/Pop.antt =====
-- `pop` and `peek` against the bounded FIFO.
use native.Mathlib.Nat.{add-zero, mod-eq_of_lt}
use native.Mathlib.Numerals.{add-one}
use rs_reticulum_lite.Prelude.{
  ℕ, suc, ◌+◌, ◌-◌, ◌%◌, ◌<◌, ◌≡◌, refl, sym, ap, ◌∙◌, ◌≢◌, inl, inr, List, [], ◌∷◌, Option, none,
  some, false, ◌==◌, arith, length, get_elem?, get_or, set, length-set, Bool-cases,
}
use rs_reticulum_lite.Tables.Queue.{Queue, capacity, peek, iter, pop}
use rs_reticulum_lite.Tables.Queue.Ring.{slot, slot-set, slot_next}
use rs_reticulum_lite.Tables.Queue.Fifo
use rs_reticulum_lite.Tables.Queue.Fifo.{get_elem?-snoc, get_elem?-remove_at, length-remove_at}
use rs_reticulum_lite.Tables.Queue.Valid.{
  IsValid, Holds, Holds-iter, Holds-IsValid, iter_of_Holds, iter_empty,
}

module _ {ℓ} {A : Type ℓ} where
  Holds-pop :
      (q : Queue A) (x : A) (xs : List A)
      → Holds q (x ∷ xs)
      → Holds
          (record {
            entries = set q.entries q.head none;
            head = (q.head + 1) % capacity q;
            len = q.len - 1;
          })
          xs
  Holds-pop q x xs h = record {
    head_in = rw (length-set q.entries q.head none) (omega (arith, h.head_in));
    len_eq = omega (arith, h.len_eq);
    fits = rw (length-set q.entries q.head none) (omega (arith, h.fits));
    reads = at;
  }
    where
      es : List (Option A)
      es = set q.entries q.head none

      same : length es ≡ capacity q
      same = length-set q.entries q.head none

      at : (i : ℕ) → i < length xs → slot es ((q.head + 1) % capacity q) i ≡ get_elem? xs i
      at i hi =
          let z : (q.head + 0) % capacity q ≡ q.head =
            ap (λ k. k % capacity q) (add-zero q.head) ∙ mod-eq_of_lt h.head_in in
          let n : suc i < capacity q = omega (arith, h.len_eq, h.fits) in
          let w = slot-set q.entries q.head (suc i) 0 none h.head_in n (omega arith) in
          let r = h.reads (suc i) (omega arith) in
          ap (λ k. slot es ((q.head + 1) % k) i) (sym same)
          ∙ slot_next es q.head i
          ∙ rw add-one ((rw z at w) ∙ ground (arith, r))

  first_slot :
      (q : Queue A) (x : A) (xs : List A) → Holds q (x ∷ xs) → get_or q.entries q.head none ≡ some x
  first_slot q x xs h =
      let z : (q.head + 0) % capacity q ≡ q.head =
        ap (λ k. k % capacity q) (add-zero q.head) ∙ mod-eq_of_lt h.head_in in
      rw z at (h.reads 0 (omega arith))

  Holds-pop-peek :
      (q : Queue A) (xs : List A)
      → Holds q xs
      → q.len ≢ 0
      → let (out, q') = pop q in
        let (first, rest) = Fifo.pop xs in Holds q' rest × (out ≡ first) × (peek q ≡ first)
  unfolding pop peek Fifo.pop
  Holds-pop-peek q [] h ne = absurd (ne h.len_eq)
  Holds-pop-peek q (x ∷ xs) h ne =
      let e : (q.len == 0) ≡ false = ground arith in
      let e' : (capacity q == 0) ≡ false = ground (arith, h.head_in) in
      let f = first_slot q x xs h in rw (e, e') (Holds-pop q x xs h, f, f)

  -- `pop` and `peek` return the oldest entry, `pop` leaves the others, and both return `None` on the
  -- empty queue.
  pub pop_refines :
      (q : Queue A)
      → IsValid q
      → let (out, q') = pop q in
        let (first, rest) = Fifo.pop (iter q) in
        IsValid q' × (iter q' ≡ rest) × (out ≡ first) × (peek q ≡ first)
  pop_refines q val = elim (Bool-cases (q.len == 0)) [
    | inl t ↦
        rw (iter_empty q (ground arith))
          (unfold pop peek Fifo.pop in rw t (val, iter_empty q (ground arith), refl, refl))
    | inr f ↦
        let h = Holds-iter q val (ground (arith, val.fits)) in
        let (k, e, p) = Holds-pop-peek q (iter q) h (ground arith) in
        (Holds-IsValid _ _ k, iter_of_Holds _ _ k, e, p)
  ]
