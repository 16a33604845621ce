-- ===== src/Tables/Queue/Push.antt =====
-- `push_drop_oldest` against the bounded FIFO.
use native.Mathlib.Nat.{add-zero, mod-eq_of_lt}
use native.Mathlib.Numerals.{add-one}
use rs_reticulum_lite.Prelude.{
  ℕ, suc, ◌+◌, ◌%◌, ◌≤◌, ◌<◌, ◌≡◌, refl, sym, ap, ◌∙◌, inl, inr, List, [], ◌∷◌, ◌++◌, Option, some,
  true, false, if◌then◌else◌, ◌==◌, arith, length, get_elem?, set, length-set, length-append,
  Bool-cases,
}
use rs_reticulum_lite.Tables.Queue.{Queue, capacity, push_drop_oldest, iter}
use rs_reticulum_lite.Tables.Queue.Ring.{slot, slot-set, slot_next, slot_turn}
use rs_reticulum_lite.Tables.Queue.Fifo
use rs_reticulum_lite.Tables.Queue.Fifo.{get_elem?-snoc, get_elem?-remove_at, length-remove_at}
use rs_reticulum_lite.Tables.Queue.Valid.{IsValid, Holds, Holds-iter, Holds-IsValid, iter_of_Holds}

module _ {ℓ} {A : Type ℓ} where
  Holds-push_room :
      (q : Queue A) (xs : List A) (v : A)
      → Holds q xs
      → length xs < capacity q
      → Holds
          (record q {
            entries = set q.entries ((q.head + q.len) % capacity q) (some v);
            len = q.len + 1;
          })
          (xs ++ (v ∷ []))
  Holds-push_room q xs v h room = record {
    head_in = rw (length-set q.entries ((q.head + q.len) % capacity q) (some v)) h.head_in;
    len_eq = omega (arith, length-append xs (v ∷ []), h.len_eq);
    fits = omega (arith, length-set q.entries ((q.head + q.len) % capacity q) (some v), h.len_eq);
    reads = at;
  }
    where
      at :
          (i : ℕ)
          → i < length (xs ++ (v ∷ []))
          → slot (set q.entries ((q.head + q.len) % capacity q) (some v)) q.head i
            ≡ get_elem? (xs ++ (v ∷ [])) i
      at i hi =
          let l : i ≤ length xs = omega (arith, length-append xs (v ∷ [])) in
          let n : i < capacity q = omega arith in
          let m : q.len < capacity q = omega (arith, h.len_eq) in
          rw
            (
              slot-set q.entries q.head i q.len (some v) h.head_in n m,
              get_elem?-snoc xs v i l,
              h.len_eq,
            )
            (elim (Bool-cases (i == length xs)) [
              | inl t ↦ rw t refl
              | inr f ↦ rw f (h.reads i (ground arith))
            ])

  Holds-push_full :
      (q : Queue A) (x : A) (xs : List A) (v : A)
      → Holds q (x ∷ xs)
      → suc (length xs) ≡ capacity q
      → Holds
          (record q { entries = set q.entries q.head (some v); head = (q.head + 1) % capacity q })
          (xs ++ (v ∷ []))
  Holds-push_full q x xs v h full = record {
    head_in = rw (length-set q.entries q.head (some v)) (omega (arith, h.head_in));
    len_eq = omega (arith, length-append xs (v ∷ []), h.len_eq);
    fits = rw (length-set q.entries q.head (some v)) h.fits;
    reads = at;
  }
    where
      es : List (Option A)
      es = set q.entries q.head (some v)

      same : length es ≡ capacity q
      same = length-set q.entries q.head (some v)

      write :
          (i : ℕ)
          → i < capacity q
          → slot es q.head i ≡ (if i == 0 then some v else slot q.entries q.head i)
      write i hi =
          let z : (q.head + 0) % capacity q ≡ q.head =
            ap (λ k. k % capacity q) (add-zero q.head) ∙ mod-eq_of_lt h.head_in in
          let w = slot-set q.entries q.head i 0 (some v) h.head_in hi (omega arith) in rw z at w

      last : (i : ℕ) → i ≡ length xs → slot es q.head (i + 1) ≡ some v
      last i e =
          ap (slot es q.head) (omega (arith, same))
          ∙ slot_turn es q.head (omega (arith, same, h.head_in))
          ∙ write 0 (omega (arith, h.head_in))

      at :
          (i : ℕ)
          → i < length (xs ++ (v ∷ []))
          → slot es ((q.head + 1) % capacity q) i ≡ get_elem? (xs ++ (v ∷ [])) i
      at i hi =
          let l : i ≤ length xs = omega (arith, length-append xs (v ∷ [])) in
          rw (get_elem?-snoc xs v i l) (
            ap (λ k. slot es ((q.head + 1) % k) i) (sym same)
            ∙ slot_next es q.head i
            ∙ elim (Bool-cases (i == length xs)) [
              | inl t ↦ rw t (last i (ground arith))
              | inr f ↦
                  let n : i < length xs = ground arith in
                  let r = h.reads (suc i) (omega arith) in
                  rw (f, add-one) (write (suc i) (omega arith) ∙ ground (arith, r))
            ])

  Holds-push :
      (q : Queue A) (xs : List A) (v : A)
      → Holds q xs
      → let (q', evicted) = push_drop_oldest q v in
        let (ys, dropped) = Fifo.push (capacity q) xs v in Holds q' ys × (evicted ≡ dropped)
  unfolding push_drop_oldest Fifo.push
  Holds-push q [] v h =
      let some_room : (capacity q == 0) ≡ false = ground (arith, h.head_in) in
      let e : (q.len == capacity q) ≡ false = ground (arith, h.len_eq) in
      let e' : (0 == capacity q) ≡ false = ground (arith, h.len_eq) in
      rw (some_room, e, e') (Holds-push_room q [] v h (ground arith), refl)
  Holds-push q (x ∷ xs) v h =
      let some_room : (capacity q == 0) ≡ false = ground (arith, h.head_in) in
      elim (Bool-cases (suc (length xs) == capacity q)) [
        | inl t ↦
            let e : (q.len == capacity q) ≡ true = ground (arith, h.len_eq) in
            rw (some_room, e, t) (Holds-push_full q x xs v h (ground arith), refl)
        | inr f ↦
            let e : (q.len == capacity q) ≡ false = ground (arith, h.len_eq) in
            rw (some_room, e, f)
              (Holds-push_room q (x ∷ xs) v h (ground (arith, h.fits, h.len_eq)), refl)
      ]

  -- `push_drop_oldest` appends, drops the oldest exactly when the queue is full, and reports that.
  pub push_refines :
      (q : Queue A) (v : A)
      → IsValid q
      → let (q', evicted) = push_drop_oldest q v in
        IsValid q' × ((iter q', evicted) ≡ Fifo.push (capacity q) (iter q) v)
  push_refines q v val = elim (Bool-cases (capacity q == 0)) [
    | inl t ↦ unfold push_drop_oldest Fifo.push in rw t (val, refl)
    | inr f ↦
        let h = Holds-iter q val (ground arith) in
        let (k, e) = Holds-push q (iter q) v h in
        (Holds-IsValid _ _ k, λ i. (iter_of_Holds _ _ k i, e i))
  ]
