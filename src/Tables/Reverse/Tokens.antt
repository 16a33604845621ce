-- ===== src/Tables/Reverse/Tokens.antt =====
-- The generations of `ReverseTable` of src/tables.rs, which name its entries while they are stored.
use rs_reticulum_lite.Prelude.{
  ℕ, ◌≤◌, ◌<◌, ◌≡◌, ◌≢◌, refl, sym, ap, ◌∙◌, List, Option, none, some, Bool, arith, ◌⊎◌, leb, ltb,
  is_some_and, length, get_or, set, inl, inr, Bool-cases, ◌==◌, get_or_beyond, Option-cases,
  length-set, get_or-set_self, get_or-set_ne, get_or-set_cases,
}
use rs_reticulum_lite.Tables.Slots.{clear_if}
use rs_reticulum_lite.Tables.Slots.Count.{length-clear_if}
use rs_reticulum_lite.Tables.Slots.Lookup.{get_or-clear_if}
use rs_reticulum_lite.Tables.Generations
use rs_reticulum_lite.Tables.Generations.Laws.{Apart, get_generation-some, get_generation_of_Apart}
use rs_reticulum_lite.Tables.Reverse.{
  ReverseEntry, ReverseTable, next_generation, store, slot_for, insert, get_generation, expire, get,
  take_with_generation, restore_consumed,
}
use rs_reticulum_lite.Tables.Reverse.Laws.{
  IsValid, expire-IsValid, take-Emptied, free_slot, restored_get,
}

same_options :
    {A : Type 0} (x y : Option A)
    → ((a : A) → x ≡ some a → y ≡ some a)
    → ((a : A) → y ≡ some a → x ≡ some a)
    → x ≡ y
same_options none none f g = refl
same_options none (some b) f g = g b refl
same_options (some a) y f g = sym (f a refl)

-- A write moves an entry from the slot `idx`, which it empties, to the free slot `j`, with its
-- generation.
module _ {A : Type 0} (es : List (Option A)) (gs : List ℕ) (idx j g : ℕ) (e : A)
    (held : get_or es idx none ≡ some e) (owner : get_or gs idx 0 ≡ g)
    (free : get_or (set es idx none) j none ≡ none) (inside : j < length es)
    (sized : length gs ≡ length es) where
  abbrev moved : List (Option A)
  moved = set (set es idx none) j (some e)

  abbrev marked : List ℕ
  marked = set gs j g

  -- Where a filled slot of the moved entries comes from.
  from :
      (i : ℕ) (a : A)
      → get_or moved i none ≡ some a
      → (k : ℕ) × (get_or es k none ≡ some a)
        × (get_or gs k 0 ≡ get_or marked i 0)
        × (((i ≡ j) × (k ≡ idx)) ⊎ ((i ≡ k) × (k ≢ idx)))
  from i a h = elim (get_or-set_cases (set es idx none) j i (some e) none) [
    | inl (y, l, v) ↦
        let same : get_or marked i 0 ≡ g =
          ap (λ n. get_or marked n 0) y ∙ get_or-set_self gs j g 0 (omega arith) in
        (idx, held ∙ sym v ∙ h, owner ∙ sym same, inl (y, refl))
    | inr (v, away) ↦
        let apart : j ≢ i = elim away [
          | inl n ↦ λ y. n (sym y)
          | inr l ↦ λ y. omega (arith, length-set es idx none)
        ] in
        elim (get_or-set_cases es idx i none none) [
          | inl (y, l, w) ↦ cc (sym w ∙ sym v ∙ h)
          | inr (w, off) ↦
              let was : get_or es i none ≡ some a = sym w ∙ sym v ∙ h in
              let other : i ≢ idx = elim off [
                | inl n ↦ n
                | inr l ↦ cc (sym (get_or_beyond es i none l) ∙ was)
              ] in
              (i, was, sym (get_or-set_ne gs j i g 0 apart), inr (refl, other))
        ]
  ]

  -- Where a filled slot goes.
  to :
      (i : ℕ) (a : A)
      → get_or es i none ≡ some a
      → (k : ℕ) × (get_or moved k none ≡ some a) × (get_or marked k 0 ≡ get_or gs i 0)
  to i a h = elim (Bool-cases (i == idx)) [
    | inl t ↦
        let y : i ≡ idx = ground arith in
        let fits : j < length (set es idx none) = omega (arith, length-set es idx none) in
        (
          j,
          get_or-set_self (set es idx none) j (some e) none fits
              ∙ sym held
              ∙ ap (λ n. get_or es n none) (sym y)
              ∙ h,
          get_or-set_self gs j g 0 (omega arith) ∙ sym owner ∙ ap (λ n. get_or gs n 0) (sym y),
        )
    | inr f ↦
        let other : idx ≢ i = λ y. ground arith in
        let still : get_or (set es idx none) i none ≡ some a =
          get_or-set_ne es idx i none none other ∙ h in
        let apart : j ≢ i =
          λ y. cc (sym free, ap (λ n. get_or (set es idx none) n none) y, still) in
        (
          i,
          get_or-set_ne (set es idx none) j i (some e) none apart ∙ still,
          get_or-set_ne gs j i g 0 apart,
        )
  ]

  moved-Apart : Apart es gs → Apart moved marked
  moved-Apart d i i' a b h h' same =
      let (k, o, m, w) = from i a h in
      let (k', o', m', w') = from i' b h' in
      let meet : k ≡ k' = d k k' a b o o' (m ∙ same ∙ sym m') in
      elim w [
        | inl (y, z) ↦ elim w' [
          | inl (y', z') ↦ y ∙ sym y'
          | inr (y', z') ↦ absurd (z' (sym meet ∙ z))
        ]
        | inr (y, z) ↦ elim w' [
          | inl (y', z') ↦ absurd (z (meet ∙ z'))
          | inr (y', z') ↦ y ∙ meet ∙ sym y'
        ]
      ]

  -- The moved entry is found by its generation as before, and so are the others.
  pub get_generation-moved :
      (p : A → Bool) (n : ℕ)
      → Apart es gs
      → Generations.get_generation p n moved marked ≡ Generations.get_generation p n es gs
  get_generation-moved p n d =
      same_options _ _
        (λ a h.
          let (pos, (i, at)) = get_generation-some p n moved marked a h in
          let (o, m, y) = at in
          let (k, o', m', w) = from i a o in
          get_generation_of_Apart p n es gs k a d pos (o', m' ∙ m, y))
        (λ a h.
          let (pos, (i, at)) = get_generation-some p n es gs a h in
          let (o, m, y) = at in
          let (k, o', m') = to i a o in
          get_generation_of_Apart p n moved marked k a (moved-Apart d) pos (o', m' ∙ m, y))

-- The entries have their generations, and no two entries share one.
pub record IsOwned (t : ReverseTable) : Type 0 where
  pub sized : length t.generations ≡ length t.entries
  pub apart : Apart t.entries t.generations
  pub below : (i : ℕ) → get_or t.generations i 0 ≤ t.last_generation

kept :
    {A : Type 0} (q : A → Bool) (es : List (Option A)) (i : ℕ) (a : A)
    → get_or (clear_if q es) i none ≡ some a
    → get_or es i none ≡ some a
kept q es i a h =
    let cleared = sym (get_or-clear_if q es i) ∙ h in
    elim (Bool-cases (is_some_and q (get_or es i none))) [
      | inl t ↦ cc (rw t at cleared)
      | inr f ↦ rw f at cleared
    ]

expire-IsOwned : (t : ReverseTable) (now : ℕ) → IsOwned t → IsOwned (expire t now)
unfolding expire
expire-IsOwned t now v =
    let late = λ (e : ReverseEntry). leb e.expires_ms now in
    record {
      sized = v.sized ∙ sym (length-clear_if late t.entries);
      apart = λ i j a b ha hb.
          v.apart i j a b (kept late t.entries i a ha) (kept late t.entries j b hb);
      below = v.below;
    }

-- A write under a generation above all the others.
store-IsOwned :
    (t : ReverseTable) (e : ReverseEntry) (g : ℕ) (o : Option ℕ)
    → t.last_generation < g
    → IsOwned t
    → IsOwned (store t e g o)
store-IsOwned t e g none above v = v
store-IsOwned t e g (some idx) above v = record {
  sized = length-set t.generations idx g ∙ v.sized ∙ sym (length-set t.entries idx (some e));
  apart = λ i j a b ha hb same. elim (written i a ha) [
    | inl (y, m) ↦ elim (written j b hb) [
      | inl (y', m') ↦ y ∙ sym y'
      | inr (o', m') ↦ absurd (omega (arith, m, m', same, v.below j, above))
    ]
    | inr (o, m) ↦ elim (written j b hb) [
      | inl (y', m') ↦ absurd (omega (arith, m, m', same, v.below i, above))
      | inr (o', m') ↦ v.apart i j a b o o' (sym m ∙ same ∙ m')
    ]
  ];
  below = λ i. elim (get_or-set_cases t.generations idx i g 0) [
    | inl (y, l, m) ↦ omega (arith, m)
    | inr (m, off) ↦ omega (arith, m, v.below i, above)
  ];
}
  where
    written :
        (i : ℕ) (a : ReverseEntry)
        → get_or (set t.entries idx (some e)) i none ≡ some a
        → ((i ≡ idx) × (get_or (set t.generations idx g) i 0 ≡ g))
          ⊎ ((get_or t.entries i none ≡ some a)
              × (get_or (set t.generations idx g) i 0 ≡ get_or t.generations i 0))
    written i a h = elim (get_or-set_cases t.entries idx i (some e) none) [
      | inl (y, l, w) ↦ inl (
        y,
        ap (λ n. get_or (set t.generations idx g) n 0) y
            ∙ get_or-set_self t.generations idx g 0 (omega (arith, v.sized, l)),
      )
      | inr (w, inl n) ↦ inr (sym w ∙ h, get_or-set_ne t.generations idx i g 0 (λ y. n (sym y)))
      | inr (w, inr l) ↦ cc (sym (get_or_beyond t.entries i none l) ∙ sym w ∙ h)
    ]

next_generation-above :
    (t : ReverseTable) (g : ℕ) → next_generation t ≡ some g → t.last_generation < g
unfolding next_generation Generations.next_generation
next_generation-above t g h = ground arith

-- An insertion keeps the generations of the entries apart.
pub insert-IsOwned :
    (t : ReverseTable) (e : ReverseEntry) (now : ℕ) → IsOwned t → IsOwned (insert t e now)
unfolding insert
insert-IsOwned t e now v =
    let u = expire t now in
    let w = expire-IsOwned t now v in
    elim (Option-cases (next_generation u)) [
      | inl n ↦ rw (n, insert) w
      | inr (g, s) ↦
          rw (s, insert)
            (store-IsOwned u e g (slot_for u.entries e.proof_hash) (next_generation-above u g s) w)
    ]

-- Putting back an entry just taken from a valid table, in which no two entries share a generation,
-- restores the lookup by every proof hash and by every generation, of what had not expired when it
-- was taken.
pub restore_taken :
    (t u : ReverseTable) (e : ReverseEntry) (h p : List ℕ) (g now later n : ℕ)
    → IsValid t
    → IsOwned t
    → take_with_generation t h now ≡ (u, some (e, g))
    → (get (restore_consumed u e g) p later ≡ get (expire t now) p later)
      × (get_generation (restore_consumed u e g) n later ≡ get_generation (expire t now) n later)
unfolding restore_consumed get_generation
restore_taken t u e h p g now later n v w taken =
    let x = expire t now in
    let m = take-Emptied t u e h g now taken in
    let wx = expire-IsOwned t now w in
    let (j, f, inside, free) = free_slot x.entries e m.idx m.inside m.held in
    rw (← m.rest) (
      restored_get x e p m.idx g later (expire-IsValid t now v) m.inside m.held,
      rw (f, restore_consumed)
          (get_generation-moved x.entries x.generations m.idx j g e m.held m.owner free inside
            wx.sized (λ a. ltb later a.expires_ms) n wx.apart),
    )
