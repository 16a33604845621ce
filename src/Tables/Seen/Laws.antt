-- ===== src/Tables/Seen/Laws.antt =====
-- Duplicate suppression in src/tables.rs: what `insert` answers, and how long `contains` finds it.
use rs_reticulum_lite.Prelude.{
  ℕ, ◌≤◌, ◌<◌, ◌≡◌, refl, sym, ap, ◌∙◌, ◌≢◌, ◌⊎◌, ◌==◌, ltb, get_or-set_ne, [], ◌∷◌, List, Option,
  none, some, true, false, arith, leb, length, get_or, set, inl, inr, Bool-cases, get_or-set_self,
}
use rs_reticulum_lite.Prelude.Bytes.{bytes_eq_refl, eq_of_bytes_eq}
use rs_reticulum_lite.Tables.Slots.{any, count}
use rs_reticulum_lite.Tables.Slots.Count.{
  count-set, any-eq-count, length-clear_if, count-clear_if_le,
}
use rs_reticulum_lite.Tables.Slots.Lookup.{count-at, get_or-clear_if}
use rs_reticulum_lite.Tables.Slots.Choice.{Choice, free, evicts, no_slots, free_or_oldest-Choice}
use rs_reticulum_lite.Tables.Seen.{SeenEntry, SeenTable, has_key, expire, store, insert, contains}

-- Every key is held once.
pub record IsValid (t : SeenTable) : Type 0 where
  pub unique : (key : List ℕ) → count (has_key key) t.entries ≤ 1

any_iff_count :
    (key : List ℕ) (es : List (Option SeenEntry))
    → any (has_key key) es ≡ false
    → count (has_key key) es ≡ 0
any_iff_count key es f = elim (any-eq-count (has_key key) es) [ inl y ↦ cc | inr z ↦ z ]

any_of_pos :
    (key : List ℕ) (es : List (Option SeenEntry))
    → 0 < count (has_key key) es
    → any (has_key key) es ≡ true
any_of_pos key es h = elim (any-eq-count (has_key key) es) [
  | inl y ↦ y
  | inr z ↦ absurd (omega arith)
]

eq_of_has_key : (key : List ℕ) (e : SeenEntry) → has_key key e ≡ true → e.key ≡ key
unfolding has_key
eq_of_has_key key e h = eq_of_bytes_eq e.key key h

unique-set :
    (es : List (Option SeenEntry)) (idx : ℕ) (e : SeenEntry) (key : List ℕ)
    → idx < length es
    → count (has_key key) es ≤ 1
    → count (has_key e.key) es ≡ 0
    → count (has_key key) (set es idx (some e)) ≤ 1
unique-set es idx e key l u z = elim (Bool-cases (has_key key e)) [
  | inr f ↦ ground (arith, count-set (has_key key) es idx (some e) l)
  | inl t ↦
      let z' : count (has_key key) es ≡ 0 = rw (eq_of_has_key key e t) at z in
      ground (arith, count-set (has_key key) es idx (some e) l)
]

store-IsValid :
    (t : SeenTable) (e : SeenEntry) (idx : Option ℕ)
    → IsValid t
    → count (has_key e.key) t.entries ≡ 0
    → Choice (λ e. e.expires_ms) t.entries idx
    → IsValid (store t e idx)
store-IsValid t e idx v z (free i l n) = record {
  unique = λ key. unique-set t.entries i e key l (v.unique key) z;
}
store-IsValid t e idx v z (evicts i victim full o) = record {
  unique = λ key. unique-set t.entries i e key o.0 (v.unique key) z;
}
store-IsValid t e idx v z (no_slots n) = v

pub expire-IsValid : (t : SeenTable) (now : ℕ) → IsValid t → IsValid (expire t now)
unfolding expire
expire-IsValid t now v = record {
  unique = λ key.
      omega (
        arith,
        v.unique key,
        count-clear_if_le (has_key key) (λ e. leb e.expires_ms now) t.entries,
      );
}

-- `insert` keeps keys unique.
pub insert-IsValid :
    (t : SeenTable) (hash : List ℕ) (expires_ms now : ℕ)
    → IsValid t
    → IsValid (insert t hash expires_ms now).0
unfolding insert
insert-IsValid t hash expires_ms now v =
    elim (Bool-cases (any (has_key hash) (expire t now).entries)) [
      | inl y ↦ rw y (expire-IsValid t now v)
      | inr n ↦ rw n (
          store-IsValid (expire t now) _ _ (expire-IsValid t now v) (any_iff_count hash _ n)
            (free_or_oldest-Choice (λ e. e.expires_ms) (expire t now).entries))
    ]

-- An entry that has not expired stays where it is.
expire-held :
    (t : SeenTable) (e : SeenEntry) (i now : ℕ)
    → get_or t.entries i none ≡ some e
    → now < e.expires_ms
    → get_or (expire t now).entries i none ≡ some e
unfolding expire
expire-held t e i now o live =
    let f : leb e.expires_ms now ≡ false = ground arith in
    get_or-clear_if (λ x. leb x.expires_ms now) t.entries i ∙ rw (o, f) refl

held_seen :
    (t : SeenTable) (e : SeenEntry) (i later : ℕ)
    → get_or t.entries i none ≡ some e
    → later < e.expires_ms
    → any (has_key e.key) (expire t later).entries ≡ true
unfolding has_key
held_seen t e i later o live = any_of_pos e.key (expire t later).entries (
    count-at (has_key e.key) (expire t later).entries i e (expire-held t e i later o live)
      (bytes_eq_refl e.key))

-- A stored entry is held.
stored_held :
    (t : SeenTable) (e : SeenEntry) (idx : Option ℕ)
    → 0 < length t.entries
    → Choice (λ e. e.expires_ms) t.entries idx
    → (i : ℕ) × (get_or (store t e idx).entries i none ≡ some e)
stored_held t e idx pos (no_slots n) = absurd (omega arith)
stored_held t e idx pos (free i l n) = (i, get_or-set_self t.entries i (some e) none l)
stored_held t e idx pos (evicts i victim full o) =
    (i, get_or-set_self t.entries i (some e) none o.0)

-- A full table in which no entry expires before a given time.
abbrev pub Crowded : SeenTable → ℕ → Type 0
Crowded t expires_ms =
    (count (λ _. true) t.entries ≡ length t.entries)
    × (count (λ x. ltb x.expires_ms expires_ms) t.entries ≡ 0)

store-held :
    (t : SeenTable) (e n : SeenEntry) (i : ℕ) (idx : Option ℕ)
    → get_or t.entries i none ≡ some e
    → Choice (λ e. e.expires_ms) t.entries idx
    → (get_or (store t n idx).entries i none ≡ some e) ⊎ Crowded t e.expires_ms
store-held t e n i idx o (no_slots z) = inl o
store-held t e n i idx o (free j l z) =
    let apart : j ≢ i = λ y. cc (sym z, ap (λ k. get_or t.entries k none) y, o) in
    inl (get_or-set_ne t.entries j i (some n) none apart ∙ o)
store-held t e n i idx o (evicts j victim full (l, v, _, least)) = elim (Bool-cases (j == i)) [
  | inr f ↦ inl (get_or-set_ne t.entries j i (some n) none (λ y. ground arith) ∙ o)
  | inl y ↦
      let at : j ≡ i = ground arith in
      let same : victim ≡ e = cc (sym v, ap (λ k. get_or t.entries k none) at, o) in
      inr (full, rw same at least)
]

-- The table after more insertions, each of a hash with its expiry and the time.
unfoldable pub insert_all : SeenTable → List (List ℕ × ℕ × ℕ) → SeenTable
insert_all t [] = t
insert_all t ((hash, expires_ms, now) ∷ calls) = insert_all (insert t hash expires_ms now).0 calls

-- One of the insertions finds the table crowded.
abbrev pub GetsCrowded : SeenTable → List (List ℕ × ℕ × ℕ) → ℕ → Type 0
GetsCrowded t [] limit = ⊥
GetsCrowded t ((hash, expires_ms, now) ∷ calls) limit =
    Crowded (expire t now) limit ⊎ GetsCrowded (insert t hash expires_ms now).0 calls limit

-- All of them come before a time.
abbrev pub AreBefore : ℕ → List (List ℕ × ℕ × ℕ) → Type 0
AreBefore limit [] = Unit
AreBefore limit ((hash, expires_ms, now) ∷ calls) = (now < limit) × AreBefore limit calls

insert-held :
    (t : SeenTable) (e : SeenEntry) (i : ℕ) (hash : List ℕ) (expires_ms now : ℕ)
    → get_or t.entries i none ≡ some e
    → now < e.expires_ms
    → (get_or (insert t hash expires_ms now).0.entries i none ≡ some e)
      ⊎ Crowded (expire t now) e.expires_ms
unfolding insert
insert-held t e i hash expires_ms now o live =
    let u = expire t now in
    let still = expire-held t e i now o live in
    elim (Bool-cases (any (has_key hash) u.entries)) [
      | inl y ↦ rw y (inl still)
      | inr n ↦
          rw n (store-held u e _ i _ still (free_or_oldest-Choice (λ e. e.expires_ms) u.entries))
    ]

insert_all-held :
    (t : SeenTable) (e : SeenEntry) (i : ℕ) (calls : List (List ℕ × ℕ × ℕ))
    → get_or t.entries i none ≡ some e
    → AreBefore e.expires_ms calls
    → (get_or (insert_all t calls).entries i none ≡ some e) ⊎ GetsCrowded t calls e.expires_ms
unfolding insert_all
insert_all-held t e i [] o b = inl o
insert_all-held t e i ((hash, expires_ms, now) ∷ calls) o (live, b) =
    elim (insert-held t e i hash expires_ms now o live) [
      | inr c ↦ inr (inl c)
      | inl o' ↦ elim (insert_all-held (insert t hash expires_ms now).0 e i calls o' b) [
        | inl held ↦ inl held
        | inr c ↦ inr (inr c)
      ]
    ]

inserted_held :
    (t : SeenTable) (hash : List ℕ) (expires_ms now : ℕ)
    → 0 < length t.entries
    → (insert t hash expires_ms now).1 ≡ true
    → (i : ℕ) × (get_or (insert t hash expires_ms now).0.entries i none
        ≡ some (record { key = hash; expires_ms = expires_ms }))
unfolding insert
inserted_held t hash expires_ms now pos y =
    let u = expire t now in
    elim (Bool-cases (any (has_key hash) u.entries)) [
      | inl seen ↦ cc (rw seen at y)
      | inr n ↦
          let size : 0 < length u.entries =
            unfold expire in
            rw (length-clear_if (λ (x : SeenEntry). leb x.expires_ms now) t.entries) pos in
          rw n (stored_held u _ _ size (free_or_oldest-Choice (λ e. e.expires_ms) u.entries))
    ]

refused :
    (u : SeenTable) (hash : List ℕ) (again later : ℕ)
    → any (has_key hash) (expire u later).entries ≡ true
    → (insert u hash again later).1 ≡ false
unfolding insert
refused u hash again later seen = rw seen refl

-- In a table that has a slot, a hash whose `insert` answered `true` is, after any more insertions at
-- times before its expiry, reported by `contains` and refused by `insert` at every time before its
-- expiry, unless one of those insertions came to a table that was full of entries none of which
-- expires before the hash does.
pub seen_until_crowded :
    (t : SeenTable) (hash : List ℕ) (expires_ms now later again : ℕ) (calls : List (List ℕ × ℕ × ℕ))
    → 0 < length t.entries
    → later < expires_ms
    → AreBefore expires_ms calls
    → (insert t hash expires_ms now).1 ≡ true
    → let u = insert_all (insert t hash expires_ms now).0 calls in
      (((contains u hash later).1 ≡ true) × ((insert u hash again later).1 ≡ false))
      ⊎ GetsCrowded (insert t hash expires_ms now).0 calls expires_ms
unfolding contains
seen_until_crowded t hash expires_ms now later again calls pos live before stored =
    let e : SeenEntry = record { key = hash; expires_ms = expires_ms } in
    let r = (insert t hash expires_ms now).0 in
    let (i, o) = inserted_held t hash expires_ms now pos stored in
    elim (insert_all-held r e i calls o before) [
      | inr c ↦ inr c
      | inl held ↦
          let seen = held_seen (insert_all r calls) e i later held live in
          inl (seen, refused (insert_all r calls) hash again later seen)
    ]
