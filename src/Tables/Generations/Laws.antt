-- ===== src/Tables/Generations/Laws.antt =====
-- A generation is found exactly where it is stored, if no two slots share one.
use rs_reticulum_lite.Prelude.{
  ℕ, zero, suc, ◌<◌, ◌≡◌, refl, sym, ap, ◌∙◌, List, [], ◌∷◌, Option, none, some, Bool, true, false,
  ◌==◌, arith, get_or, set, get_or-set_cases, inl, inr, Bool-cases, Option-cases,
}
use rs_reticulum_lite.Tables.Slots.{clear_if}
use rs_reticulum_lite.Tables.Generations.{find_map, entry_at, get_generation}

-- Two slots do not share a generation other than 0.
abbrev pub Distinct : List ℕ → Type 0
Distinct gs = (i j : ℕ) → 0 < get_or gs i 0 → get_or gs i 0 ≡ get_or gs j 0 → i ≡ j

-- Two slots that are filled do not share a generation.
abbrev pub Apart : {A : Type 0} → List (Option A) → List ℕ → Type 0
Apart {A} es gs =
    (i j : ℕ) (a b : A)
    → get_or es i none ≡ some a
    → get_or es j none ≡ some b
    → get_or gs i 0 ≡ get_or gs j 0
    → i ≡ j

module _ {A : Type 0} (p : A → Bool) (g : ℕ) where
  -- Slot `i` holds `a` under the generation.
  abbrev pub At : List (Option A) → List ℕ → ℕ → A → Type 0
  At es gs i a = (get_or es i none ≡ some a) × (get_or gs i 0 ≡ g) × (p a ≡ true)

  entry_at-some :
      (e : Option A) (k : ℕ) (a : A)
      → entry_at p g e k ≡ some a
      → (e ≡ some a) × (k ≡ g) × (p a ≡ true)
  entry_at-some none k a h = cc
  entry_at-some (some b) k a h = ground arith

  find_map-some :
      (es : List (Option A)) (gs : List ℕ) (a : A)
      → find_map (entry_at p g) es gs ≡ some a
      → (i : ℕ) × At es gs i a
  unfolding find_map
  find_map-some [] gs a h = cc
  find_map-some (e ∷ es) [] a h = cc
  find_map-some (e ∷ es) (k ∷ gs) a h = elim (Option-cases (entry_at p g e k)) [
    | inl n ↦ let (i, x) = find_map-some es gs a (rw n at h) in (suc i, x)
    | inr (b, s) ↦ let ba : b ≡ a = cc (rw s at h) in (zero, entry_at-some e k a (s ∙ ap some ba))
  ]

  -- What `get_generation` returns stands in a slot of that generation.
  pub get_generation-some :
      (es : List (Option A)) (gs : List ℕ) (a : A)
      → get_generation p g es gs ≡ some a
      → (0 < g) × ((i : ℕ) × At es gs i a)
  unfolding get_generation
  get_generation-some es gs a h = elim (Bool-cases (g == 0)) [
    | inl t ↦ cc (rw t at h)
    | inr f ↦ (ground arith, find_map-some es gs a (rw f at h))
  ]

  find_map_of_At :
      (es : List (Option A)) (gs : List ℕ) (i : ℕ) (a : A)
      → ((j : ℕ) (b : A) → get_or es j none ≡ some b → get_or gs j 0 ≡ g → j ≡ i)
      → 0 < g
      → At es gs i a
      → find_map (entry_at p g) es gs ≡ some a
  unfolding find_map
  find_map_of_At [] gs i a d pos (s, k, t) = cc
  find_map_of_At (e ∷ es) [] i a d pos (s, k, t) = absurd (omega arith)
  find_map_of_At (e ∷ es) (h ∷ gs) zero a d pos (s, k, t) =
      let same : (h == g) ≡ true = ground arith in rw (s, same, t) refl
  find_map_of_At (e ∷ es) (h ∷ gs) (suc i) a d pos (s, k, t) =
      elim (Option-cases (entry_at p g e h)) [
        | inl n ↦
            rw n
              (find_map_of_At es gs i a (λ j b o x. omega (arith, d (suc j) b o x)) pos (s, k, t))
        | inr (b, n) ↦ let (o, hg, _) = entry_at-some e h b n in absurd (omega (arith, d 0 b o hg))
      ]

  -- What the one slot of the generation holds is what `get_generation` returns.
  pub get_generation_of_one :
      (es : List (Option A)) (gs : List ℕ) (i : ℕ) (a : A)
      → ((j : ℕ) (b : A) → get_or es j none ≡ some b → get_or gs j 0 ≡ g → j ≡ i)
      → 0 < g
      → At es gs i a
      → get_generation p g es gs ≡ some a
  unfolding get_generation
  get_generation_of_one es gs i a d pos at =
      let f : (g == 0) ≡ false = ground arith in rw f (find_map_of_At es gs i a d pos at)

  pub get_generation_of_At :
      (es : List (Option A)) (gs : List ℕ) (i : ℕ) (a : A)
      → Distinct gs
      → 0 < g
      → At es gs i a
      → get_generation p g es gs ≡ some a
  get_generation_of_At es gs i a d pos (s, k, t) =
      get_generation_of_one es gs i a (λ j b o x. sym (d i j (omega arith) (k ∙ sym x))) pos
        (s, k, t)

  pub get_generation_of_Apart :
      (es : List (Option A)) (gs : List ℕ) (i : ℕ) (a : A)
      → Apart es gs
      → 0 < g
      → At es gs i a
      → get_generation p g es gs ≡ some a
  get_generation_of_Apart es gs i a d pos (s, k, t) =
      get_generation_of_one es gs i a (λ j b o x. d j i b a o s (x ∙ sym k)) pos (s, k, t)

  find_map-clear_if :
      (q : A → Bool) (es : List (Option A)) (gs : List ℕ)
      → ((a : A) → p a ≡ true → q a ≡ false)
      → find_map (entry_at p g) (clear_if q es) gs ≡ find_map (entry_at p g) es gs
  unfolding find_map clear_if
  find_map-clear_if q [] gs h = refl
  find_map-clear_if q (e ∷ es) [] h = refl
  find_map-clear_if q (none ∷ es) (k ∷ gs) h = find_map-clear_if q es gs h
  find_map-clear_if q (some a ∷ es) (k ∷ gs) h = ground (arith, h a, find_map-clear_if q es gs h)

  -- Clearing slots that `get_generation` passes over does not show.
  pub get_generation-clear_if :
      (q : A → Bool) (es : List (Option A)) (gs : List ℕ)
      → ((a : A) → p a ≡ true → q a ≡ false)
      → get_generation p g (clear_if q es) gs ≡ get_generation p g es gs
  unfolding get_generation
  get_generation-clear_if q es gs h = rw (find_map-clear_if q es gs h) refl

-- A new generation above all the others keeps them distinct.
module _ (gs : List ℕ) (idx g : ℕ) where
  pub Distinct-set : Distinct gs → ((i : ℕ) → get_or gs i 0 < g) → Distinct (set gs idx g)
  Distinct-set d above i j pos e = elim (get_or-set_cases gs idx i g 0) [
    | inl (ii, l, gi) ↦ elim (get_or-set_cases gs idx j g 0) [
      | inl (jj, _, _) ↦ ii ∙ sym jj
      | inr (gj, _) ↦ absurd (omega (arith, above j))
    ]
    | inr (gi, _) ↦ elim (get_or-set_cases gs idx j g 0) [
      | inl (jj, l, gj) ↦ absurd (omega (arith, above i))
      | inr (gj, _) ↦ d i j (omega arith) (omega arith)
    ]
  ]
