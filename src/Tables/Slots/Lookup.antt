-- ===== src/Tables/Slots/Lookup.antt =====
-- `find` and `position` on an array of optional entries: what they return and what a write changes.
use rs_reticulum_lite.Prelude.{
  ℕ, zero, suc, ◌+◌, ◌-◌, ◌≤◌, ◌<◌, ◌≡◌, refl, ap, List, [], ◌∷◌, Option, none, some, Bool, true,
  false, if◌then◌else◌, is_some_and, is_none, is_some, arith, length, set, get_or, inl, inr,
  Bool-cases,
}
use rs_reticulum_lite.Tables.Slots.Count.{count-clear_if_le}
use rs_reticulum_lite.Tables.Slots.{find, count, position_from, position, clear_if, update_first}

module _ {ℓ} {A : Type ℓ} where
  -- What `find` returns has the property.
  pub find_holds : (p : A → Bool) (es : List (Option A)) (a : A) → find p es ≡ some a → p a ≡ true
  unfolding find
  find_holds p [] a h = cc
  find_holds p (none ∷ es) a h = find_holds p es a h
  find_holds p (some b ∷ es) a h = ground (arith, find_holds p es a)

  pub find-eq-none : (p : A → Bool) (es : List (Option A)) → count p es ≡ 0 → find p es ≡ none
  unfolding find count
  find-eq-none p [] h = refl
  find-eq-none p (none ∷ es) h = find-eq-none p es h
  find-eq-none p (some a ∷ es) h = ground (arith, find-eq-none p es)

  pub count-eq-zero : (p : A → Bool) (es : List (Option A)) → find p es ≡ none → count p es ≡ 0
  unfolding find count
  count-eq-zero p [] h = refl
  count-eq-zero p (none ∷ es) h = count-eq-zero p es h
  count-eq-zero p (some a ∷ es) h = ground (arith, count-eq-zero p es)

  -- A write of the only entry with the property is what `find` returns.
  pub find-set_self :
      (p : A → Bool) (es : List (Option A)) (i : ℕ) (a : A)
      → i < length es
      → p a ≡ true
      → count p (set es i (some a)) ≡ 1
      → find p (set es i (some a)) ≡ some a
  unfolding find count
  find-set_self p [] i a h pa c = absurd (omega arith)
  find-set_self p (e ∷ es) zero a h pa c = rw pa
  find-set_self p (none ∷ es) (suc i) a h pa c = find-set_self p es i a (omega arith) pa c
  find-set_self p (some b ∷ es) (suc i) a h pa c = ground (
    arith,
    find-set_self p es i a (omega arith) pa,
    find-eq-none p (set es i (some a)),
    count_written p es i a (omega arith) pa,
  )
    where
      count_written :
          (q : A → Bool) (fs : List (Option A)) (j : ℕ) (x : A)
          → j < length fs
          → q x ≡ true
          → 0 < count q (set fs j (some x))
      count_written q [] j x l qx = absurd (omega arith)
      count_written q (f ∷ fs) zero x l qx = rw qx (omega arith)
      count_written q (none ∷ fs) (suc j) x l qx = count_written q fs j x (omega arith) qx
      count_written q (some y ∷ fs) (suc j) x l qx =
          ground (arith, count_written q fs j x (omega arith) qx)

  -- A write that neither removes nor adds an entry with the property is not seen by `find`.
  pub find-set_ne :
      (p : A → Bool) (es : List (Option A)) (i : ℕ) (e : Option A)
      → is_some_and p (get_or es i none) ≡ false
      → is_some_and p e ≡ false
      → find p (set es i e) ≡ find p es
  unfolding find
  find-set_ne p [] i e h k = refl
  find-set_ne p (none ∷ es) zero none h k = refl
  find-set_ne p (none ∷ es) zero (some b) h k = ground arith
  find-set_ne p (some a ∷ es) zero none h k = ground arith
  find-set_ne p (some a ∷ es) zero (some b) h k = ground arith
  find-set_ne p (none ∷ es) (suc i) e h k = find-set_ne p es i e h k
  find-set_ne p (some a ∷ es) (suc i) e h k = ground (arith, find-set_ne p es i e)

  -- Clearing entries without the property is not seen by `find`.
  pub find-clear_if :
      (p q : A → Bool) (es : List (Option A))
      → ((a : A) → p a ≡ true → q a ≡ false)
      → find p (clear_if q es) ≡ find p es
  unfolding find clear_if
  find-clear_if p q [] h = refl
  find-clear_if p q (none ∷ es) h = find-clear_if p q es h
  find-clear_if p q (some a ∷ es) h = ground (arith, find-clear_if p q es h, h a)

  pub position_from-some :
      (k : ℕ) (p : Option A → Bool) (es : List (Option A)) (i : ℕ)
      → position_from k p es ≡ some i
      → (k ≤ i) × (i < k + length es) × (p (get_or es (i - k) none) ≡ true)
  unfolding position_from
  position_from-some k p [] i h = cc
  position_from-some k p (e ∷ es) i h = elim (Bool-cases (p e)) [
    | inl t ↦ here (rw t at h) t
    | inr f ↦ there (position_from-some (k + 1) p es i (rw f at h))
  ]
    where
      here :
          some k ≡ some i
          → p e ≡ true
          → (k ≤ i) × (i < k + suc (length es)) × (p (get_or (e ∷ es) (i - k) none) ≡ true)
      here s t = let z : i - k ≡ 0 = ground arith in (ground arith, ground arith, rw z t)

      there :
          (k + 1 ≤ i) × (i < k + 1 + length es) × (p (get_or es (i - (k + 1)) none) ≡ true)
          → (k ≤ i) × (i < k + suc (length es)) × (p (get_or (e ∷ es) (i - k) none) ≡ true)
      there (l, u, t) =
          let z : i - k ≡ suc (i - (k + 1)) = omega arith in (omega arith, omega arith, rw z t)

  -- `position` returns an index in range whose slot passes the test.
  pub position-some :
      (p : Option A → Bool) (es : List (Option A)) (i : ℕ)
      → position p es ≡ some i
      → (i < length es) × (p (get_or es i none) ≡ true)
  unfolding position
  position-some p es i h =
      let r = position_from-some 0 p es i h in
      let z : i - 0 ≡ i = omega arith in (omega (arith, r.1), rw z at (r.2))

  position_from-none :
      (k : ℕ) (p : A → Bool) (es : List (Option A))
      → position_from k (is_some_and p) es ≡ none
      → count p es ≡ 0
  unfolding position_from count
  position_from-none k p [] h = refl
  position_from-none k p (none ∷ es) h = position_from-none (k + 1) p es h
  position_from-none k p (some a ∷ es) h = ground (arith, position_from-none (k + 1) p es)

  -- Where `position` finds nothing, no entry has the property.
  pub position-none :
      (p : A → Bool) (es : List (Option A)) → position (is_some_and p) es ≡ none → count p es ≡ 0
  unfolding position
  position-none p es h = position_from-none 0 p es h

  -- `position(Option::is_none)` fails only where every slot is taken.
  position_from_full :
      (k : ℕ) (es : List (Option A))
      → position_from k is_none es ≡ none
      → count (λ _. true) es ≡ length es
  unfolding position_from count
  position_from_full k [] h = refl
  position_from_full k (none ∷ es) h = cc
  position_from_full k (some a ∷ es) h = ap suc (position_from_full (k + 1) es h)

  pub position_full :
      (es : List (Option A)) → position is_none es ≡ none → count (λ _. true) es ≡ length es
  unfolding position
  position_full es h = position_from_full 0 es h

  -- A slot after clearing.
  pub get_or-clear_if :
      (q : A → Bool) (es : List (Option A)) (i : ℕ)
      → get_or (clear_if q es) i none
        ≡ (if is_some_and q (get_or es i none) then none else get_or es i none)
  unfolding clear_if
  get_or-clear_if q [] i = refl
  get_or-clear_if q (e ∷ es) zero = refl
  get_or-clear_if q (e ∷ es) (suc i) = get_or-clear_if q es i

  pub is_some-update_first :
      (q : A → Bool) (f : A → A) (es : List (Option A)) (i : ℕ)
      → is_some (get_or (update_first q f es) i none) ≡ is_some (get_or es i none)
  unfolding update_first
  is_some-update_first q f [] i = refl
  is_some-update_first q f (none ∷ es) zero = refl
  is_some-update_first q f (none ∷ es) (suc i) = is_some-update_first q f es i
  is_some-update_first q f (some a ∷ es) zero = ground arith
  is_some-update_first q f (some a ∷ es) (suc i) = ground (arith, is_some-update_first q f es i)

  pub count-at :
      (p : A → Bool) (es : List (Option A)) (i : ℕ) (a : A)
      → get_or es i none ≡ some a
      → p a ≡ true
      → 0 < count p es
  unfolding count
  count-at p [] i a g t = cc
  count-at p (none ∷ es) zero a g t = cc
  count-at p (some b ∷ es) zero a g t = ground arith
  count-at p (none ∷ es) (suc i) a g t = count-at p es i a g t
  count-at p (some b ∷ es) (suc i) a g t = ground (arith, count-at p es i a g t)

  -- The only entry with the property is the one that `find` returns.
  pub find_unique :
      (p : A → Bool) (es : List (Option A)) (i : ℕ) (a : A)
      → count p es ≤ 1
      → get_or es i none ≡ some a
      → p a ≡ true
      → find p es ≡ some a
  unfolding find count
  find_unique p [] i a u g t = cc
  find_unique p (none ∷ es) zero a u g t = cc
  find_unique p (some b ∷ es) zero a u g t = let e : b ≡ a = cc in rw (e, t) refl
  find_unique p (none ∷ es) (suc i) a u g t = find_unique p es i a u g t
  find_unique p (some b ∷ es) (suc i) a u g t = elim (Bool-cases (p b)) [
    | inl y ↦
        let pos = count-at p es i a g t in
        let two : suc (count p es) ≤ 1 = rw y at u in absurd (omega arith)
    | inr n ↦ rw n (find_unique p es i a (rw n at u) g t)
  ]

  -- What `find` sees of an array from which entries are cleared.
  pub find-clear_unique :
      (p q : A → Bool) (es : List (Option A))
      → count p es ≤ 1
      → find p (clear_if q es)
        ≡ elim (find p es) [ none ↦ none | some a ↦ if q a then none else some a ]
  unfolding find clear_if count
  find-clear_unique p q [] u = refl
  find-clear_unique p q (none ∷ es) u = find-clear_unique p q es u
  find-clear_unique p q (some a ∷ es) u = elim (Bool-cases (p a)) [
    | inr n ↦ elim (Bool-cases (q a)) [
      | inl c ↦ rw (n, c) (find-clear_unique p q es (rw n at u))
      | inr c ↦ rw (n, c, n) (find-clear_unique p q es (rw n at u))
    ]
    | inl y ↦ elim (Bool-cases (q a)) [
      | inr c ↦ rw (y, c, y) refl
      | inl c ↦
          let two : suc (count p es) ≤ 1 = rw y at u in
          let gone : count p (clear_if q es) ≤ count p es = count-clear_if_le p q es in
          rw (y, c) (find-eq-none p (clear_if q es) (omega arith))
    ]
  ]

  -- A search with a further test is a search of what is left when the entries failing it are cleared.
  pub find-clear_failing :
      (p q r : A → Bool) (es : List (Option A))
      → ((a : A) → r a ≡ (if q a then false else p a))
      → find p (clear_if q es) ≡ find r es
  unfolding find clear_if
  find-clear_failing p q r [] h = refl
  find-clear_failing p q r (none ∷ es) h = find-clear_failing p q r es h
  find-clear_failing p q r (some a ∷ es) h = elim (Bool-cases (q a)) [
    | inl c ↦ rw (h a, c) (find-clear_failing p q r es h)
    | inr c ↦ elim (Bool-cases (p a)) [
      | inl y ↦ rw (h a, c, y) refl
      | inr n ↦ rw (h a, c, n) (find-clear_failing p q r es h)
    ]
  ]

  -- What `find` sees of the entry that `update_first` changed, if the new entry passes the test.
  pub find-update_first :
      (p r : A → Bool) (f : A → A) (es : List (Option A)) (a : A)
      → find p es ≡ some a
      → ((x : A) → p x ≡ true → r (f x) ≡ true)
      → ((x : A) → p x ≡ false → r x ≡ false)
      → find r (update_first p f es) ≡ some (f a)
  unfolding find update_first
  find-update_first p r f [] a h k m = cc
  find-update_first p r f (none ∷ es) a h k m = find-update_first p r f es a h k m
  find-update_first p r f (some b ∷ es) a h k m = elim (Bool-cases (p b)) [
    | inl y ↦ let e : b ≡ a = cc (rw y at h) in rw (y, k b y) (ap (λ x. some (f x)) e)
    | inr n ↦ rw (n, m b n) (find-update_first p r f es a (rw n at h) k m)
  ]

  -- A change of an entry that fails the test before and after is not seen by `find`.
  pub find-update_apart :
      (p q : A → Bool) (f : A → A) (es : List (Option A))
      → ((x : A) → p x ≡ true → q x ≡ false)
      → ((x : A) → p x ≡ true → q (f x) ≡ false)
      → find q (update_first p f es) ≡ find q es
  unfolding find update_first
  find-update_apart p q f [] k m = refl
  find-update_apart p q f (none ∷ es) k m = find-update_apart p q f es k m
  find-update_apart p q f (some b ∷ es) k m = elim (Bool-cases (p b)) [
    | inl y ↦ rw (y, k b y, m b y) refl
    | inr n ↦ rw n (ap (λ x. if q b then some b else x) (find-update_apart p q f es k m))
  ]
