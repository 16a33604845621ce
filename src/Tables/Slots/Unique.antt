-- ===== src/Tables/Slots/Unique.antt =====
-- Arrays in which each key, an array of bytes, is held once, and the insertion that keeps them so.
use rs_reticulum_lite.Prelude.{
  ℕ, ◌+◌, ◌≤◌, ◌<◌, ◌≡◌, refl, sym, ◌∙◌, List, Option, none, some, Bool, true, ◌&&◌, arith, or_else,
  is_some_and, length, get_or, set, ◌⊎◌, inl, inr, Bool-cases, Option-cases, get_or-set_self,
  length-set,
}
use rs_reticulum_lite.Prelude.Bytes.{bytes_eq, eq_of_bytes_eq, bytes_eq_refl}
use rs_reticulum_lite.Tables.Slots.{find, count, position, free_or_oldest}
use rs_reticulum_lite.Tables.Slots.Count.{count-set, count_mono}
use rs_reticulum_lite.Tables.Slots.Lookup.{position-some, position-none, find_unique, find-set_ne}
use rs_reticulum_lite.Tables.Slots.Choice.{Choice, free, evicts, no_slots, free_or_oldest-Choice}

module _ {A : Type 0} (key : A → List ℕ) where
  abbrev pub has : List ℕ → A → Bool
  has k a = bytes_eq (key a) k

  abbrev pub Unique : List (Option A) → Type 0
  Unique es = (k : List ℕ) → count (has k) es ≤ 1

  pub Unique-set :
      (es : List (Option A)) (idx : ℕ) (a : A)
      → idx < length es
      → Unique es
      → (count (has (key a)) es ≡ 0) ⊎ (is_some_and (has (key a)) (get_or es idx none) ≡ true)
      → Unique (set es idx (some a))
  Unique-set es idx a l u h k = elim (Bool-cases (has k a)) [
    | inr f ↦ ground (arith, count-set (has k) es idx (some a) l, u k)
    | inl t ↦
        let h' : (count (has k) es ≡ 0) ⊎ (is_some_and (has k) (get_or es idx none) ≡ true) =
          rw (eq_of_bytes_eq (key a) k t) at h in
        ground (arith, count-set (has k) es idx (some a) l, u k)
  ]

  pub Unique-set-none :
      (es : List (Option A)) (idx : ℕ) → idx < length es → Unique es → Unique (set es idx none)
  Unique-set-none es idx l u k = omega (arith, count-set (has k) es idx none l, u k)

  -- The slot that `insert` of `ReverseTable` and `LinkTable` writes.
  abbrev pub slot_of : (A → ℕ) → List (Option A) → List ℕ → Option ℕ
  slot_of age es k = or_else (position (is_some_and (has k)) es) (free_or_oldest age es)

  -- It is in range, unless there is no slot, and the write keeps keys unique.
  abbrev pub Placed : List (Option A) → A → Option ℕ → Type 0
  Placed es a none = length es ≡ 0
  Placed es a (some idx) =
      (idx < length es)
      × ((count (has (key a)) es ≡ 0) ⊎ (is_some_and (has (key a)) (get_or es idx none) ≡ true))

  Choice-Placed :
      (age : A → ℕ) (es : List (Option A)) (a : A) (o : Option ℕ)
      → count (has (key a)) es ≡ 0
      → Choice age es o
      → Placed es a o
  Choice-Placed age es a o z (free i l n) = (l, inl z)
  Choice-Placed age es a o z (evicts i victim full x) = (x.0, inl z)
  Choice-Placed age es a o z (no_slots n) = n

  pub slot_of-Placed :
      (age : A → ℕ) (es : List (Option A)) (a : A) → Placed es a (slot_of age es (key a))
  slot_of-Placed age es a = elim (Option-cases (position (is_some_and (has (key a))) es)) [
    | inr (idx, p) ↦
        let (l, h) = position-some (is_some_and (has (key a))) es idx p in rw p (l, inr h)
    | inl n ↦
        rw n (
          Choice-Placed age es a _ (position-none (has (key a)) es n)
            (free_or_oldest-Choice age es))
  ]

  -- After the write the key's entry is the new one, for any further test that it passes.
  pub find_written :
      (es : List (Option A)) (idx : ℕ) (a : A) (q : A → Bool)
      → idx < length es
      → Unique (set es idx (some a))
      → q a ≡ true
      → find (λ x. has (key a) x && q x) (set es idx (some a)) ≡ some a
  find_written es idx a q l u t =
      let p = λ (x : A). has (key a) x && q x in
      let few : count p (set es idx (some a)) ≤ count (has (key a)) (set es idx (some a)) =
        count_mono p (has (key a)) (set es idx (some a)) (λ x h. ground arith) in
      find_unique p (set es idx (some a)) idx a (omega (arith, u (key a)))
        (get_or-set_self es idx (some a) none l) (rw (bytes_eq_refl (key a), t) refl)

-- Moving the only entry with a property to a free slot does not show.
pub find-moved :
    {A : Type 0} (q : A → Bool) (es : List (Option A)) (i j : ℕ) (a : A)
    → count q es ≤ 1
    → i < length es
    → j < length es
    → get_or es i none ≡ some a
    → get_or (set es i none) j none ≡ none
    → find q (set (set es i none) j (some a)) ≡ find q es
find-moved q es i j a u li lj held free_there = elim (Bool-cases (q a)) [
  | inr n ↦
      find-set_ne q (set es i none) j (some a) (rw free_there refl) n
      ∙ find-set_ne q es i none (rw held n) refl
  | inl y ↦
      let size = length-set es i none in
      let c = count-set q es i none li in
      let d = count-set q (set es i none) j (some a) (omega arith) in
      let c' : count q (set es i none) + 1 ≡ count q es + 0 = rw (held, y) at c in
      let d' : count q (set (set es i none) j (some a)) + 0 ≡ count q (set es i none) + 1 =
        rw (free_there, y) at d in
      find_unique q (set (set es i none) j (some a)) j a (omega arith)
        (get_or-set_self (set es i none) j (some a) none (omega arith)) y
      ∙ sym (find_unique q es i a u held y)
]
