-- ===== src/Tables/Path/Cases.antt =====
-- The outcomes of `PathTable::insert_or_update`, each with what the code has checked by then.
use rs_reticulum_lite.Prelude.{
  ℕ, ◌+◌, ◌≤◌, ◌<◌, ◌≡◌, refl, sym, ◌∙◌, Option, none, some, Bool, true, false, arith, ◌==◌, leb,
  is_some_and, is_none, length, get_or, set, ◌⊎◌, inl, inr, Bool-cases, Option-cases,
}
use rs_reticulum_lite.Prelude.Words.{u64_max}
use rs_reticulum_lite.Tables.Slots.{count, position, class_victim}
use rs_reticulum_lite.Tables.Slots.Lookup.{position-some, position-none, position_full}
use rs_reticulum_lite.Tables.Slots.Victim.{IsOldest, class_victim-some, class_victim-none}
use rs_reticulum_lite.Tables.Generations
use rs_reticulum_lite.Tables.Path.{
  PathEntry, PathTable, goes_to, should_replace, same_route, next_generation, replace_entry,
  replacement, admit, mint, place_new, refresh,
}

-- How `replace_entry` writes slot `idx`.
pub data Replaced (t : PathTable) (idx : ℕ) (entry : PathEntry) : PathTable × Bool → Type 0 where
  refreshed :
      (old : PathEntry)
      → get_or t.entries idx none ≡ some old
      → same_route entry old ≡ true
      → Replaced t idx entry (record t { entries = set t.entries idx (some entry) }, true)
  exhausted : Replaced t idx entry (t, false)
  minted :
      t.last_generation + 1 ≤ u64_max
      → Replaced t idx entry (
        record {
          entries = set t.entries idx (some entry);
          generations = set t.generations idx (t.last_generation + 1);
          last_generation = t.last_generation + 1;
        },
        true,
      )

mint-Replaced :
    (t : PathTable) (idx : ℕ) (entry : PathEntry)
    → Replaced t idx entry (mint t idx entry (next_generation t))
unfolding next_generation Generations.next_generation
mint-Replaced t idx entry = elim (Bool-cases (length t.entries == 0)) [
  | inl z ↦ rw z exhausted
  | inr f ↦ elim (Bool-cases (leb (t.last_generation + 1) u64_max)) [
    | inl l ↦ rw (f, l) (minted (ground arith))
    | inr l ↦ rw (f, l) exhausted
  ]
]

pub replace_entry-Replaced :
    (t : PathTable) (idx : ℕ) (entry : PathEntry) → Replaced t idx entry (replace_entry t idx entry)
unfolding replace_entry
replace_entry-Replaced t idx entry = elim (Option-cases (get_or t.entries idx none)) [
  | inl n ↦ rw (n, replace_entry) (mint-Replaced t idx entry)
  | inr (old, o) ↦ elim (Bool-cases (same_route entry old)) [
    | inl s ↦ rw (o, replace_entry, s) (refreshed old o s)
    | inr s ↦ rw (o, replace_entry, s) (mint-Replaced t idx entry)
  ]
]

-- The way to `replace_entry` that `insert_or_update` takes.
pub data Admitted (t : PathTable) (entry : PathEntry) (now : ℕ) : PathTable × Bool → Type 0 where
  -- A retained route to the destination is replaced by a fresher announce.
  fresher :
      (idx : ℕ) (old : PathEntry)
      → idx < length t.entries
      → get_or t.entries idx none ≡ some old
      → goes_to entry.destination_hash old ≡ true
      → should_replace entry old now ≡ true
      → Admitted t entry now (replace_entry t idx entry)
  -- A retained route to the destination stays.
  stale :
      (idx : ℕ) (old : PathEntry)
      → idx < length t.entries
      → get_or t.entries idx none ≡ some old
      → goes_to entry.destination_hash old ≡ true
      → should_replace entry old now ≡ false
      → Admitted t entry now (t, false)
  -- A new destination takes a free slot.
  free :
      (idx : ℕ)
      → count (goes_to entry.destination_hash) t.entries ≡ 0
      → idx < length t.entries
      → get_or t.entries idx none ≡ none
      → Admitted t entry now (replace_entry t idx entry)
  -- A new destination takes the slot of the oldest bulk route.
  evicts_bulk :
      (idx : ℕ) (victim : PathEntry)
      → count (goes_to entry.destination_hash) t.entries ≡ 0
      → count (λ _. true) t.entries ≡ length t.entries
      → IsOldest (λ e. e.expires_ms) (λ e. e.bulk) t.entries idx victim
      → Admitted t entry now (replace_entry t idx entry)
  -- A new destination that is not bulk takes the slot of the oldest route, where none is bulk.
  evicts_oldest :
      (idx : ℕ) (victim : PathEntry)
      → count (goes_to entry.destination_hash) t.entries ≡ 0
      → count (λ _. true) t.entries ≡ length t.entries
      → entry.bulk ≡ false
      → count (λ e. e.bulk) t.entries ≡ 0
      → IsOldest (λ e. e.expires_ms) (λ _. true) t.entries idx victim
      → Admitted t entry now (replace_entry t idx entry)
  -- A new destination finds no slot.
  no_slot :
      count (goes_to entry.destination_hash) t.entries ≡ 0
      → count (λ _. true) t.entries ≡ length t.entries
      → count (λ e. e.bulk) t.entries ≡ 0
      → (entry.bulk ≡ true) ⊎ (length t.entries ≡ 0)
      → Admitted t entry now (t, false)

is_none_of : (o : Option PathEntry) → is_none o ≡ true → o ≡ none
is_none_of none h = refl
is_none_of (some a) h = cc

-- The outcomes for a destination that the table does not hold.
no_free_slot :
    (t : PathTable) (entry : PathEntry) (now : ℕ)
    → count (goes_to entry.destination_hash) t.entries ≡ 0
    → count (λ _. true) t.entries ≡ length t.entries
    → Admitted t entry now
        (place_new t entry (class_victim entry.bulk (λ e. e.bulk) (λ e. e.expires_ms) t.entries))
no_free_slot t entry now absent full =
    elim (Option-cases (class_victim entry.bulk (λ e. e.bulk) (λ e. e.expires_ms) t.entries)) [
      | inl n ↦
          let (no_bulk, why) =
            class_victim-none (λ e. e.expires_ms) entry.bulk (λ e. e.bulk) t.entries n in
          rw n
            (no_slot absent full no_bulk (elim why [ inl b ↦ inl b | inr z ↦ inr (sym full ∙ z) ]))
      | inr (idx, s) ↦
          let (victim, o) =
            class_victim-some (λ e. e.expires_ms) entry.bulk (λ e. e.bulk) t.entries idx s in
          rw s (elim o [
            | inl bulk_victim ↦ evicts_bulk idx victim absent full bulk_victim
            | inr (b, no_bulk, oldest) ↦ evicts_oldest idx victim absent full b no_bulk oldest
          ])
    ]

new_destination :
    (t : PathTable) (entry : PathEntry) (now : ℕ)
    → count (goes_to entry.destination_hash) t.entries ≡ 0
    → Admitted t entry now (place_new t entry (replacement t.entries entry.bulk))
unfolding replacement
new_destination t entry now absent = elim (Option-cases (position is_none t.entries)) [
  | inl n ↦ rw (n, replacement) (no_free_slot t entry now absent (position_full t.entries n))
  | inr (idx, p) ↦
      let (l, z) = position-some is_none t.entries idx p in
      rw (p, replacement) (free idx absent l (is_none_of _ z))
]

held_destination :
    (t : PathTable) (entry : PathEntry) (now idx : ℕ)
    → idx < length t.entries
    → is_some_and (goes_to entry.destination_hash) (get_or t.entries idx none) ≡ true
    → Admitted t entry now (refresh t entry now idx (get_or t.entries idx none))
held_destination t entry now idx l h = elim (Option-cases (get_or t.entries idx none)) [
  | inl n ↦ cc (rw n at h)
  | inr (old, o) ↦ elim (Bool-cases (should_replace entry old now)) [
    | inl s ↦ rw (o, s) (fresher idx old l o (rw o at h) s)
    | inr s ↦ rw (o, s) (stale idx old l o (rw o at h) s)
  ]
]

pub admit-Admitted :
    (t : PathTable) (entry : PathEntry) (now : ℕ) → Admitted t entry now (admit t entry now)
unfolding admit
admit-Admitted t entry now =
    elim (Option-cases (position (is_some_and (goes_to entry.destination_hash)) t.entries)) [
      | inl n ↦ rw (n, admit) (new_destination t entry now (position-none _ t.entries n))
      | inr (idx, p) ↦
          let (l, h) =
            position-some (is_some_and (goes_to entry.destination_hash)) t.entries idx p in
          rw (p, admit) (held_destination t entry now idx l h)
    ]
