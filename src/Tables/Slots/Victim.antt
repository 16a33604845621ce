-- ===== src/Tables/Slots/Victim.antt =====
-- `oldest_index`, `class_victim` and the other loops that keep the best entry so far.
use rs_reticulum_lite.Prelude.{
  ℕ, suc, ◌+◌, ◌-◌, ◌≤◌, ◌<◌, ◌≡◌, refl, sym, ap, ◌∙◌, List, [], ◌∷◌, Option, none, some, Bool,
  true, false, ◌&&◌, is_some_and, arith, length, get_or, ◌⊎◌, inl, inr, Bool-cases, ltb,
  Option-cases,
}
use rs_reticulum_lite.Tables.Slots.{
  keep, count, better_of, best_from, best_index, index_of, older, oldest_index, class_victim,
}

module _ {ℓ} {A : Type ℓ} (p : A → Bool) (better : A → A → Bool) where
  -- An entry of the array, at an index counted from `k`.
  abbrev At : ℕ → List (Option A) → ℕ → A → Type ℓ
  At k es i a = (k ≤ i) × (i < k + length es) × (get_or es (i - k) none ≡ some a) × (p a ≡ true)

  At-later :
      (k : ℕ) (e : Option A) (es : List (Option A)) (i : ℕ) (a : A)
      → At (k + 1) es i a
      → At k (e ∷ es) i a
  At-later k e es i a (l, u, g, t) =
      let z : i - k ≡ suc (i - (k + 1)) = omega arith in (omega arith, omega arith, rw z g, t)

  At-here :
      (k i : ℕ) (es : List (Option A)) (e : Option A) (b a : A)
      → ◌≡◌ {A = Option (ℕ × A)} (some (k, b)) (some (i, a))
      → (e ≡ some b) × (p b ≡ true)
      → At k (e ∷ es) i a
  At-here k i es e b a s (eb, t) =
      let ki : k ≡ i = cc in
      let ba : b ≡ a = cc in
      let z : i - k ≡ 0 = omega arith in (omega arith, omega arith, rw (z, eb, ba) refl, rw ba at t)

  keep-some : (e : Option A) (b : A) → keep p e ≡ some b → (e ≡ some b) × (p b ≡ true)
  unfolding keep
  keep-some none b h = cc
  keep-some (some c) b h = ground arith

  -- One round keeps the best so far, or takes the entry.
  better_of_cases :
      (k : ℕ) (e : Option A) (best : Option (ℕ × A))
      → (better_of better k e best ≡ best)
        ⊎ ((b : A) × (e ≡ some b) × (better_of better k e best ≡ some (k, b)))
  unfolding better_of
  better_of_cases k none best = inl refl
  better_of_cases k (some b) none = inr (b, refl, refl)
  better_of_cases k (some b) (some (j, c)) = elim (Bool-cases (better b c)) [
    | inl t ↦ inr (b, refl, rw t refl)
    | inr f ↦ inl (rw f refl)
  ]

  -- The loop keeps what it has or returns an entry of the array.
  best_from-At :
      (k : ℕ) (best : Option (ℕ × A)) (es : List (Option A)) (i : ℕ) (a : A)
      → best_from p better k best es ≡ some (i, a)
      → (best ≡ some (i, a)) ⊎ At k es i a
  unfolding best_from
  best_from-At k best [] i a h = inl h
  best_from-At k best (e ∷ es) i a h =
      elim (best_from-At (k + 1) (better_of better k (keep p e) best) es i a h) [
        | inr t ↦ inr (At-later k e es i a t)
        | inl r ↦ elim (better_of_cases k (keep p e) best) [
          | inl s ↦ inl (sym s ∙ r)
          | inr (b, eb, s) ↦ inr (At-here k i es e b a (sym s ∙ r) (keep-some e b eb))
        ]
      ]

  -- What the loop returns stands in range, and has the property.
  pub best_index-some :
      (es : List (Option A)) (i : ℕ) (a : A)
      → best_index p better es ≡ some (i, a)
      → (i < length es) × (get_or es i none ≡ some a) × (p a ≡ true)
  unfolding best_index
  best_index-some es i a h = elim (best_from-At 0 none es i a h) [
    | inl e ↦ cc
    | inr (l, u, g, t) ↦ let z : i - 0 ≡ i = omega arith in (omega arith, rw z at g, t)
  ]

  best_from-ne-none :
      (k : ℕ) (x : ℕ × A) (es : List (Option A)) → best_from p better k (some x) es ≡ none → ⊥
  unfolding best_from
  best_from-ne-none k x [] h = cc
  best_from-ne-none k x (e ∷ es) h = elim (better_of_cases k (keep p e) (some x)) [
    | inl s ↦ best_from-ne-none (k + 1) x es (rw s at h)
    | inr (b, _, s) ↦ best_from-ne-none (k + 1) (k, b) es (rw s at h)
  ]

  best_from-none :
      (k : ℕ) (es : List (Option A)) → best_from p better k none es ≡ none → count p es ≡ 0
  unfolding best_from better_of keep count
  best_from-none k [] h = refl
  best_from-none k (none ∷ es) h = best_from-none (k + 1) es h
  best_from-none k (some b ∷ es) h = elim (Bool-cases (p b)) [
    | inl t ↦ absurd (best_from-ne-none (k + 1) (k, b) es (rw t at h))
    | inr f ↦ rw f (best_from-none (k + 1) es (rw f at h))
  ]

  -- The loop returns nothing only where no entry has the property.
  pub best_index-none : (es : List (Option A)) → best_index p better es ≡ none → count p es ≡ 0
  unfolding best_index
  best_index-none es h = best_from-none 0 es h

-- Two laws of a strict weak order: of two entries at most one betters the other, and an entry that
-- betters a third is bettered by, or betters, any second one.
pub record IsWeakOrder {ℓ} {A : Type ℓ} (better : A → A → Bool) : Type ℓ where
  pub asym : (a b : A) → better a b ≡ true → better b a ≡ false
  pub negatively_trans : (a b c : A) → better a b ≡ false → better b c ≡ false → better a c ≡ false

module _ {ℓ} {A : Type ℓ} (p : A → Bool) (better : A → A → Bool) (o : IsWeakOrder better) where
  irrefl : (a : A) → better a a ≡ false
  irrefl a = elim (Bool-cases (better a a)) [ inl t ↦ o.asym a a t | inr f ↦ f ]

  -- What the loop has seen when it returns `a`: nothing betters `a`.
  abbrev Unbeaten : Option (ℕ × A) → A → Type 0
  Unbeaten none a = Unit {0}
  Unbeaten (some (j, c)) a = better c a ≡ false

  Unbeaten-round :
      (k : ℕ) (e : Option A) (best : Option (ℕ × A)) (a : A)
      → Unbeaten (better_of better k e best) a
      → Unbeaten best a × (is_some_and (λ x. better x a) e ≡ false)
  unfolding better_of
  Unbeaten-round k none best a u = (u, refl)
  Unbeaten-round k (some b) none a u = (tt, u)
  Unbeaten-round k (some b) (some (j, c)) a u = elim (Bool-cases (better b c)) [
    | inl t ↦
        let ba : better b a ≡ false = (unfold better_of in rw t at u) in
        (o.negatively_trans c b a (o.asym b c t) ba, ba)
    | inr f ↦
        let ca : better c a ≡ false = (unfold better_of in rw f at u) in
        (ca, o.negatively_trans b c a f ca)
  ]

  counted :
      (a : A) (e : Option A) (es : List (Option A))
      → is_some_and (λ x. better x a) (keep p e) ≡ false
      → count (λ x. p x && better x a) es ≡ 0
      → count (λ x. p x && better x a) (e ∷ es) ≡ 0
  unfolding count keep
  counted a none es w c = c
  counted a (some b) es w c = ground arith

  best_from-Unbeaten :
      (k : ℕ) (best : Option (ℕ × A)) (es : List (Option A)) (i : ℕ) (a : A)
      → best_from p better k best es ≡ some (i, a)
      → Unbeaten best a × (count (λ x. p x && better x a) es ≡ 0)
  unfolding best_from count
  best_from-Unbeaten k best [] i a h = (rw h (irrefl a), refl)
  best_from-Unbeaten k best (e ∷ es) i a h =
      let (u, c) = best_from-Unbeaten (k + 1) (better_of better k (keep p e) best) es i a h in
      let (v, w) = Unbeaten-round k (keep p e) best a u in (v, counted a e es w c)

  -- Nothing with the property betters what the loop returns.
  pub best_index_best :
      (es : List (Option A)) (i : ℕ) (a : A)
      → best_index p better es ≡ some (i, a)
      → count (λ x. p x && better x a) es ≡ 0
  unfolding best_index
  best_index_best es i a h = (best_from-Unbeaten 0 none es i a h).1

module _ {ℓ} {A : Type ℓ} (age : A → ℕ) where
  pub older-IsWeakOrder : IsWeakOrder (older age)
  older-IsWeakOrder = record {
    asym = λ a b h. ground arith;
    negatively_trans = λ a b c h k. ground arith;
  }

  index_of-some : (o : Option (ℕ × A)) (i : ℕ) → index_of o ≡ some i → (a : A) × (o ≡ some (i, a))
  index_of-some none i h = cc
  index_of-some (some (j, a)) i h = let e : j ≡ i = cc in (a, rw e)

  index_of-none : (o : Option (ℕ × A)) → index_of o ≡ none → o ≡ none
  index_of-none none h = refl
  index_of-none (some (j, a)) h = cc

  -- A slot in range that holds an entry with `p`, none with `p` being older.
  abbrev pub IsOldest : (A → Bool) → List (Option A) → ℕ → A → Type ℓ
  IsOldest p es i a =
      (i < length es)
      × (get_or es i none ≡ some a)
      × (p a ≡ true)
      × (count (λ x. p x && ltb (age x) (age a)) es ≡ 0)

  best_index-IsOldest :
      (p : A → Bool) (es : List (Option A)) (i : ℕ)
      → index_of (best_index p (older age) es) ≡ some i
      → (a : A) × IsOldest p es i a
  best_index-IsOldest p es i h =
      let (a, e) = index_of-some (best_index p (older age) es) i h in
      let (u, g, t) = best_index-some p (older age) es i a e in
      (a, (u, g, t, best_index_best p (older age) older-IsWeakOrder es i a e))

  -- `oldest_index` returns the index of an entry, and no entry is older.
  pub oldest_index-some :
      (es : List (Option A)) (i : ℕ)
      → oldest_index age es ≡ some i
      → (a : A) × IsOldest (λ _. true) es i a
  unfolding oldest_index
  oldest_index-some es i h = best_index-IsOldest (λ _. true) es i h

  pub oldest_index-none :
      (es : List (Option A)) → oldest_index age es ≡ none → count (λ _. true) es ≡ 0
  unfolding oldest_index
  oldest_index-none es h =
      best_index-none (λ _. true) (older age) es
        (index_of-none (best_index (λ _. true) (older age) es) h)

  -- `class_victim` returns the oldest bulk entry, or the oldest of all where there is no bulk entry
  -- and the newcomer is not bulk.
  pub class_victim-some :
      (newcomer : Bool) (bulk : A → Bool) (es : List (Option A)) (i : ℕ)
      → class_victim newcomer bulk age es ≡ some i
      → (a : A) × (IsOldest bulk es i a
          ⊎ (newcomer ≡ false) × (count bulk es ≡ 0) × IsOldest (λ _. true) es i a)
  unfolding class_victim
  class_victim-some newcomer bulk es i h =
      elim (Option-cases (index_of (best_index bulk (older age) es))) [
        | inr (j, e) ↦
            let ji : j ≡ i = cc (rw e at h) in
            let (a, o) = best_index-IsOldest bulk es i (e ∙ ap some ji) in (a, inl o)
        | inl e ↦ elim (Bool-cases newcomer) [
          | inl t ↦ cc (rw (e, t) at h)
          | inr f ↦
              let (a, o) = oldest_index-some es i (rw (e, f) at h) in
              (a, inr (f, best_index-none bulk (older age) es (index_of-none _ e), o))
        ]
      ]

  pub class_victim-none :
      (newcomer : Bool) (bulk : A → Bool) (es : List (Option A))
      → class_victim newcomer bulk age es ≡ none
      → (count bulk es ≡ 0) × ((newcomer ≡ true) ⊎ (count (λ _. true) es ≡ 0))
  unfolding class_victim
  class_victim-none newcomer bulk es h =
      elim (Option-cases (index_of (best_index bulk (older age) es))) [
        | inr (j, e) ↦ cc (rw e at h)
        | inl e ↦ (
          best_index-none bulk (older age) es (index_of-none _ e),
          elim (Bool-cases newcomer) [
            | inl t ↦ inl t
            | inr f ↦ inr (oldest_index-none es (rw (e, f) at h))
          ],
        )
      ]
