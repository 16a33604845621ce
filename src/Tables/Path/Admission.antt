-- ===== src/Tables/Path/Admission.antt =====
-- Which announces replace a route, and which routes an insertion may evict.
use rs_reticulum_lite.Prelude.{
  Bool-cases, ◌⊎◌, inl, inr, ℕ, ◌≤◌, ◌<◌, ◌≡◌, refl, sym, ◌∙◌, Option, none, some, Bool, true,
  false, not, arith, if◌then◌else◌, length, set, get_or-set_self, ◌⊎◌, inl, inr, Bool-cases,
}
use rs_reticulum_lite.Tables.Slots.{find, count}
use rs_reticulum_lite.Tables.Slots.Lookup.{find_unique, find-clear_unique}
use rs_reticulum_lite.Tables.Path.{
  admit, PathEntry, PathTable, Hash16, goes_to, is_live, get, live_only, get_live, expire,
  replace_entry, insert_or_update,
}
use rs_reticulum_lite.Tables.Path.Cases.{
  Replaced, refreshed, exhausted, minted, replace_entry-Replaced, Admitted, fresher, stale, free,
  evicts_bulk, evicts_oldest, no_slot, admit-Admitted,
}
use rs_reticulum_lite.Tables.Path.Valid.{IsValid, expire-IsValid, goes_to_self, unique-set}

-- A live route is what `get` finds once the table has been purged.
pub get_live-expire :
    (t : PathTable) (key : Hash16) (now : ℕ)
    → IsValid t
    → get_live t key now ≡ get (expire t now) key
unfolding get_live get expire
get_live-expire t key now v =
    alike (find (goes_to key) t.entries)
    ∙ sym (find-clear_unique (goes_to key) (λ e. not (is_live now e)) t.entries (v.unique key))
  where
    alike :
        (o : Option PathEntry)
        → live_only now o
          ≡ elim o [ none ↦ none | some e ↦ if not (is_live now e) then none else some e ]
    alike none = refl
    alike (some e) = ground arith

-- What `replace_entry` did, by its answer.
abbrev pub Answered : PathTable → ℕ → PathEntry → PathTable × Bool → Type 0
Answered t idx entry r =
    ((r.1 ≡ true) × (r.0.entries ≡ set t.entries idx (some entry))) ⊎ ((r.1 ≡ false) × (r.0 ≡ t))

Replaced-Answered :
    (t : PathTable) (idx : ℕ) (entry : PathEntry) (r : PathTable × Bool)
    → Replaced t idx entry r
    → Answered t idx entry r
Replaced-Answered t idx entry r (refreshed old o s) = inl (refl, refl)
Replaced-Answered t idx entry r exhausted = inr (refl, refl)
Replaced-Answered t idx entry r (minted small) = inl (refl, refl)

pub replace_entry-Answered :
    (t : PathTable) (idx : ℕ) (entry : PathEntry) → Answered t idx entry (replace_entry t idx entry)
replace_entry-Answered t idx entry =
    Replaced-Answered t idx entry _ (replace_entry-Replaced t idx entry)

-- What an insertion leaves of the table, by its answer.
record Inserted (t : PathTable) (entry : PathEntry) (r : PathTable × Bool) : Type 0 where
  stored : r.1 ≡ true → get r.0 entry.destination_hash ≡ some entry
  unchanged : r.1 ≡ false → r.0 ≡ t

Answered-Inserted :
    (t : PathTable) (idx : ℕ) (entry : PathEntry) (r : PathTable × Bool)
    → idx < length t.entries
    → count (goes_to entry.destination_hash) (set t.entries idx (some entry)) ≤ 1
    → Answered t idx entry r
    → Inserted t entry r
Answered-Inserted t idx entry r l u (inr (f, same)) = record {
  stored = λ y. cc;
  unchanged = λ _. same;
}
Answered-Inserted t idx entry r l u (inl (y, es)) = record {
  stored = λ _. unfold get in rw es (written l u);
  unchanged = λ f. cc;
}
  where
    written :
        idx < length t.entries
        → count (goes_to entry.destination_hash) (set t.entries idx (some entry)) ≤ 1
        → find (goes_to entry.destination_hash) (set t.entries idx (some entry)) ≡ some entry
    written l u =
        find_unique (goes_to entry.destination_hash) (set t.entries idx (some entry)) idx entry u
          (get_or-set_self t.entries idx (some entry) none l) (goes_to_self entry)

Admitted-Inserted :
    (t : PathTable) (entry : PathEntry) (now : ℕ) (r : PathTable × Bool)
    → IsValid t
    → Admitted t entry now r
    → Inserted t entry r
Admitted-Inserted t entry now r v (fresher idx old l o s f) =
    Answered-Inserted t idx entry _ l
      (unique-set t.entries idx entry entry.destination_hash l (v.unique entry.destination_hash)
        (inr (rw o s)))
      (replace_entry-Answered t idx entry)
Admitted-Inserted t entry now r v (stale idx old l o s f) = record {
  stored = λ y. cc;
  unchanged = λ _. refl;
}
Admitted-Inserted t entry now r v (free idx a l n) =
    Answered-Inserted t idx entry _ l
      (unique-set t.entries idx entry entry.destination_hash l (v.unique entry.destination_hash)
        (inl a))
      (replace_entry-Answered t idx entry)
Admitted-Inserted t entry now r v (evicts_bulk idx victim a full o) =
    Answered-Inserted t idx entry _ o.0
      (unique-set t.entries idx entry entry.destination_hash o.0 (v.unique entry.destination_hash)
        (inl a))
      (replace_entry-Answered t idx entry)
Admitted-Inserted t entry now r v (evicts_oldest idx victim a full b n o) =
    Answered-Inserted t idx entry _ o.0
      (unique-set t.entries idx entry entry.destination_hash o.0 (v.unique entry.destination_hash)
        (inl a))
      (replace_entry-Answered t idx entry)
Admitted-Inserted t entry now r v (no_slot a full n w) = record {
  stored = λ y. cc;
  unchanged = λ _. refl;
}

-- On a valid table, an insertion answers `true` and the destination's route is the new entry, or it
-- answers `false` and only the expired entries are gone.
pub get-insert :
    (t : PathTable) (entry : PathEntry) (now : ℕ)
    → IsValid t
    → let (u, taken) = insert_or_update t entry now in
      ((taken ≡ true) × (get u entry.destination_hash ≡ some entry))
      ⊎ ((taken ≡ false) × (u ≡ expire t now))
unfolding insert_or_update
get-insert t entry now v =
    let i =
      Admitted-Inserted (expire t now) entry now _ (expire-IsValid t now v)
        (admit-Admitted (expire t now) entry now) in
    elim (Bool-cases (admit (expire t now) entry now).1) [
      | inl y ↦ inl (y, i.stored y)
      | inr f ↦ inr (f, i.unchanged f)
    ]
