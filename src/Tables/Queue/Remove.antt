-- ===== src/Tables/Queue/Remove.antt =====
-- `remove` and `get_mut` against the bounded FIFO: the loop that closes the gap.
use rs_reticulum_lite.Prelude.{
  ℕ, zero, suc, ◌+◌, ◌-◌, ◌%◌, ◌≤◌, ◌<◌, ◌≡◌, refl, sym, ap, ◌∙◌, inl, inr, List, Option, none,
  Bool, true, false, if◌then◌else◌, ◌==◌, ltb, leb, arith, length, get_elem?, get_or, set,
  length-set, Bool-cases,
}
use mathlib.Core.Option
use rs_reticulum_lite.Tables.Queue.{Queue, capacity, iter, get_mut, remove, shift_down}
use rs_reticulum_lite.Tables.Queue.Ring.{place, place-set}
use rs_reticulum_lite.Tables.Queue.Fifo.{
  remove_at, modify, get_elem?-remove_at, length-remove_at, get_elem?_beyond, remove_at_beyond,
  modify_beyond, length-modify, get_elem?-modify,
}
use rs_reticulum_lite.Tables.Queue.Valid.{
  IsValid, Holds, Holds-iter, Holds-IsValid, iter_of_Holds, length-iter,
}

module _ {ℓ} {B : Type ℓ} where
  if_false : (b : Bool) (x y : B) → b ≡ false → (if b then x else y) ≡ y
  if_false true x y h = cc
  if_false false x y h = refl

-- What a round at `s` and the rounds from `s + 1` on read, of a gap that starts at `s`.
after_round {ℓ} :
    {A : Type ℓ} (s i : ℕ) (f : ℕ → Option A)
    → (if ltb i (s + 1)
        then if i == s then f (suc s) else if i == suc s then none else f i
        else if suc i == s
        then f (suc s)
        else if suc i == suc s
        then none
        else f (suc i))
      ≡ (if ltb i s then f i else f (suc i))
after_round s i f = elim (Bool-cases (ltb i s)) [
  | inl t ↦
      let a : ltb i (s + 1) ≡ true = ground arith in
      let b : (i == s) ≡ false = ground arith in
      let c : (i == suc s) ≡ false = ground arith in rw (t, a, b, c) refl
  | inr t ↦ elim (Bool-cases (i == s)) [
    | inl u ↦
        let a : ltb i (s + 1) ≡ true = ground arith in
        let e : i ≡ s = ground arith in rw (t, a, u) (ap (λ k. f (suc k)) (sym e))
    | inr u ↦
        let a : ltb i (s + 1) ≡ false = ground arith in
        let b : (suc i == s) ≡ false = ground arith in
        let c : (suc i == suc s) ≡ false = ground arith in rw (t, a, b, c) refl
  ]
]

module _ {ℓ} {A : Type ℓ} where
  pub length-shift_down :
      (h n shift : ℕ) (es : List (Option A)) → length (shift_down h n shift es) ≡ length es
  unfolding shift_down
  length-shift_down h zero shift es = refl
  length-shift_down h (suc n) shift es =
      length-shift_down h n (shift + 1) _ ∙ length-set (set es _ none) _ _ ∙ length-set es _ none

  -- One round moves the entry at `s + 1` to `s`.
  moved : (n : ℕ) (es : List (Option A)) (h s : ℕ) → List (Option A)
  moved n es h s =
      set (set es ((h + s + 1) % n) none) ((h + s) % n) (get_or es ((h + s + 1) % n) none)

  place-moved :
      (n : ℕ) (es : List (Option A)) (h s i : ℕ)
      → length es ≡ n
      → h < n
      → suc s < n
      → i < n
      → place n (moved n es h s) h i
        ≡ (if i == s then place n es h (suc s) else if i == suc s then none else place n es h i)
  unfolding moved
  place-moved n es h s i e hh hs hi =
      let z : h + s + 1 ≡ h + suc s = omega arith in
      rw (
        z,
        place-set n (set es ((h + suc s) % n) none) h i s (place n es h (suc s))
            (length-set es ((h + suc s) % n) none ∙ e) hh hi (omega arith),
        place-set n es h i (suc s) none e hh hi hs,
      )

  length-moved :
      (n : ℕ) (es : List (Option A)) (h s : ℕ) → length es ≡ n → length (moved n es h s) ≡ n
  unfolding moved
  length-moved n es h s e = length-set (set es _ none) _ _ ∙ length-set es _ none ∙ e

  shift_down_step :
      (n : ℕ) (es : List (Option A)) (h k s : ℕ)
      → length es ≡ n
      → shift_down h (suc k) s es ≡ shift_down h k (s + 1) (moved n es h s)
  unfolding shift_down moved
  shift_down_step n es h k s e = rw e refl

  -- The loop moves each entry behind the gap one place towards the head.
  place-shift_down :
      (n : ℕ) (es : List (Option A)) (h k s i : ℕ)
      → length es ≡ n
      → h < n
      → s + k < n
      → i < s + k
      → place n (shift_down h k s es) h i
        ≡ (if ltb i s then place n es h i else place n es h (suc i))
  place-shift_down n es h zero s i e hh hs hi = unfold shift_down in ground arith
  place-shift_down n es h (suc k) s i e hh hs hi =
      let here = place-moved n es h s i e hh (omega arith) (omega arith) in
      let next = place-moved n es h s (suc i) e hh (omega arith) (omega arith) in
      rw (shift_down_step n es h k s e) (
        place-shift_down n (moved n es h s) h k (s + 1) i (length-moved n es h s e) hh (omega arith)
          (omega arith)
        ∙ rw (here, next) (after_round s i (place n es h)))

  Holds-remove :
      (q : Queue A) (xs : List A) (offset : ℕ)
      → Holds q xs
      → offset < length xs
      → Holds
          (record q {
            entries =
                shift_down q.head
                  (q.len - 1 - offset)
                  offset
                  (set q.entries ((q.head + offset) % capacity q) none);
            len = q.len - 1;
          })
          (remove_at offset xs)
  Holds-remove q xs offset h ho = record {
    head_in = rw same h.head_in;
    len_eq = omega (arith, h.len_eq, length-remove_at xs offset ho);
    fits = rw same (omega (arith, h.fits));
    reads = λ i hi. rw same (at i hi);
  }
    where
      es : List (Option A)
      es = set q.entries ((q.head + offset) % capacity q) none

      same : length (shift_down q.head (q.len - 1 - offset) offset es) ≡ capacity q
      same = length-shift_down q.head (q.len - 1 - offset) offset es ∙ length-set q.entries _ none

      at :
          (i : ℕ)
          → i < length (remove_at offset xs)
          → place (capacity q) (shift_down q.head (q.len - 1 - offset) offset es) q.head i
            ≡ get_elem? (remove_at offset xs) i
      at i hi =
          let size = length-remove_at xs offset ho in
          let n = capacity q in
          let here : place n es q.head i
              ≡ (if i == offset then none else place n q.entries q.head i) =
            place-set n q.entries q.head i offset none refl h.head_in
              (omega (arith, h.len_eq, h.fits)) (omega (arith, h.len_eq, h.fits)) in
          let next : place n es q.head (suc i)
              ≡ (if suc i == offset then none else place n q.entries q.head (suc i)) =
            place-set n q.entries q.head (suc i) offset none refl h.head_in
              (omega (arith, h.len_eq, h.fits)) (omega (arith, h.len_eq, h.fits)) in
          place-shift_down n es q.head (q.len - 1 - offset) offset i (length-set q.entries _ none)
            h.head_in (omega (arith, h.len_eq, h.fits)) (omega (arith, h.len_eq))
          ∙ rw (here, next, get_elem?-remove_at xs offset i)
              (elim (Bool-cases (ltb i offset)) [
                | inl t ↦
                    let b : (i == offset) ≡ false = ground arith in
                    rw (t, b) (h.reads i (omega (arith, size)))
                | inr t ↦
                    let b : (suc i == offset) ≡ false = ground arith in
                    rw (t, b) (h.reads (suc i) (omega (arith, size)))
              ])

  -- `remove` returns the entry at the offset and closes the gap, or returns `None` and changes
  -- nothing where there is no such entry.
  pub remove_refines :
      (q : Queue A) (offset : ℕ)
      → IsValid q
      → let (out, q') = remove offset q in
        IsValid q' × (iter q' ≡ remove_at offset (iter q)) × (out ≡ get_elem? (iter q) offset)
  unfolding remove
  remove_refines q offset val = elim (Bool-cases (leb q.len offset)) [
    | inl t ↦
        let l : length (iter q) ≤ offset = ground (arith, length-iter q val) in
        rw (t, remove_at_beyond (iter q) offset l, get_elem?_beyond (iter q) offset l)
          (val, refl, refl)
    | inr f ↦
        let l : offset < length (iter q) = ground (arith, length-iter q val) in
        let h = Holds-iter q val (ground (arith, val.fits)) in
        let e : (capacity q == 0) ≡ false = ground (arith, val.fits) in
        let k = Holds-remove q (iter q) offset h l in
        rw (f, e) (Holds-IsValid _ _ k, iter_of_Holds _ _ k, h.reads offset l)
  ]

  Holds-get_mut :
      (q : Queue A) (f : A → A) (xs : List A) (offset : ℕ)
      → Holds q xs
      → offset < length xs
      → Holds
          (record q {
            entries =
                set q.entries
                  ((q.head + offset) % capacity q)
                  (Option.map f (get_or q.entries ((q.head + offset) % capacity q) none));
          })
          (modify offset f xs)
  Holds-get_mut q f xs offset h ho = record {
    head_in = rw (length-set q.entries _ _) h.head_in;
    len_eq = omega (arith, h.len_eq, length-modify f xs offset);
    fits = rw (length-set q.entries _ _) h.fits;
    reads = λ i hi. rw (length-set q.entries _ _) (at i (rw (length-modify f xs offset) at hi));
  }
    where
      v : Option A
      v = Option.map f (place (capacity q) q.entries q.head offset)

      at :
          (i : ℕ)
          → i < length xs
          → place (capacity q) (set q.entries ((q.head + offset) % capacity q) v) q.head i
            ≡ get_elem? (modify offset f xs) i
      at i hi =
          place-set (capacity q) q.entries q.head i offset v refl h.head_in
            (omega (arith, h.len_eq, h.fits)) (omega (arith, h.len_eq, h.fits))
          ∙ rw (get_elem?-modify f xs offset i, h.reads offset ho, h.reads i hi) refl

  -- `get_mut` changes the entry at the offset and no other, and changes nothing where there is none.
  pub get_mut_refines :
      (q : Queue A) (f : A → A) (offset : ℕ)
      → IsValid q
      → IsValid (get_mut offset f q) × (iter (get_mut offset f q) ≡ modify offset f (iter q))
  unfolding get_mut
  get_mut_refines q f offset val = elim (Bool-cases (leb q.len offset)) [
    | inl t ↦
        let l : length (iter q) ≤ offset = ground (arith, length-iter q val) in
        rw (t, modify_beyond f (iter q) offset l) (val, refl)
    | inr b ↦
        let l : offset < length (iter q) = ground (arith, length-iter q val) in
        let h = Holds-iter q val (ground (arith, val.fits)) in
        let e : (capacity q == 0) ≡ false = ground (arith, val.fits) in
        let k = Holds-get_mut q f (iter q) offset h l in
        rw (b, e) (Holds-IsValid _ _ k, iter_of_Holds _ _ k)
  ]
