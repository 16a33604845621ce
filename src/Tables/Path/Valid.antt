-- ===== src/Tables/Path/Valid.antt =====
-- The invariant of `PathTable`: one route for each destination, and generations that are never
-- shared.
use native.Mathlib.Nat.{le_of_eq}
use rs_reticulum_lite.Prelude.{
  ℕ, zero, suc, ◌+◌, ◌≤◌, ◌<◌, ◌≡◌, refl, sym, ◌∙◌, List, Option, none, some, Bool, true, ◌&&◌, not,
  arith, if◌then◌else◌, ◌==◌, is_some_and, is_some, length, get_or, set, replicate, length-set,
  length-replicate, get_or-set_cases, ◌⊎◌, inl, inr, Bool-cases, Option-cases,
}
use rs_reticulum_lite.Prelude.Words.{u64_max}
use rs_reticulum_lite.Prelude.Bytes.{eq_of_bytes_eq, bytes_eq_refl}
use rs_reticulum_lite.Tables.Slots.{count, position, clear_if, update_first}
use rs_reticulum_lite.Tables.Slots.Count.{
  count-set, count-clear_if_le, length-clear_if, count-replicate, count-update_first,
  length-update_first,
}
use rs_reticulum_lite.Tables.Slots.Lookup.{position-some, get_or-clear_if, is_some-update_first}
use rs_reticulum_lite.Tables.Generations.Laws.{Distinct, Distinct-set}
use rs_reticulum_lite.Tables.Path.{
  PathEntry, PathTable, Hash16, goes_to, is_live, expire, insert_or_update, drop_path,
  remove_interface, touched, touch, new,
}
use rs_reticulum_lite.Tables.Path.Cases.{
  Replaced, refreshed, exhausted, minted, replace_entry-Replaced, Admitted, fresher, stale, free,
  evicts_bulk, evicts_oldest, no_slot, admit-Admitted,
}

pub record IsValid (t : PathTable) : Type 0 where
  pub paired : length t.generations ≡ length t.entries
  -- No two slots hold routes to one destination.
  pub unique : (key : Hash16) → count (goes_to key) t.entries ≤ 1
  pub bounded : (i : ℕ) → get_or t.generations i 0 ≤ t.last_generation
  pub word : t.last_generation ≤ u64_max
  pub owned : (i : ℕ) → is_some (get_or t.entries i none) ≡ true → 0 < get_or t.generations i 0
  pub distinct : Distinct t.generations

pub goes_to_self : (e : PathEntry) → goes_to e.destination_hash e ≡ true
unfolding goes_to
goes_to_self e = bytes_eq_refl e.destination_hash

pub eq_of_goes_to : (key : Hash16) (e : PathEntry) → goes_to key e ≡ true → e.destination_hash ≡ key
unfolding goes_to
eq_of_goes_to key e h = eq_of_bytes_eq e.destination_hash key h

-- A write over a route to the same destination, or of a new destination, keeps routes unique.
pub unique-set :
    (es : List (Option PathEntry)) (idx : ℕ) (entry : PathEntry) (key : Hash16)
    → idx < length es
    → count (goes_to key) es ≤ 1
    → (count (goes_to entry.destination_hash) es ≡ 0)
      ⊎ (is_some_and (goes_to entry.destination_hash) (get_or es idx none) ≡ true)
    → count (goes_to key) (set es idx (some entry)) ≤ 1
unique-set es idx entry key l u h = elim (Bool-cases (goes_to key entry)) [
  | inr f ↦ ground (arith, count-set (goes_to key) es idx (some entry) l)
  | inl t ↦
      let h' : (count (goes_to key) es ≡ 0)
          ⊎ (is_some_and (goes_to key) (get_or es idx none) ≡ true) =
        rw (eq_of_goes_to key entry t) at h in
      ground (arith, count-set (goes_to key) es idx (some entry) l)
]

-- What `insert_or_update` has checked of the slot that it writes.
pub record Writable (t : PathTable) (idx : ℕ) (entry : PathEntry) : Type 0 where
  pub in_range : idx < length t.entries
  pub apart :
      (count (goes_to entry.destination_hash) t.entries ≡ 0)
      ⊎ (is_some_and (goes_to entry.destination_hash) (get_or t.entries idx none) ≡ true)

Replaced-IsValid :
    (t : PathTable) (idx : ℕ) (entry : PathEntry) (r : PathTable × Bool)
    → IsValid t
    → Writable t idx entry
    → Replaced t idx entry r
    → IsValid r.0
Replaced-IsValid t idx entry r v w (refreshed old o s) = record {
  paired = v.paired ∙ sym (length-set t.entries idx (some entry));
  unique = λ key. unique-set t.entries idx entry key w.in_range (v.unique key) w.apart;
  bounded = v.bounded;
  word = v.word;
  owned = λ i h. elim (get_or-set_cases t.entries idx i (some entry) none) [
    | inl (e, _, _) ↦ v.owned i (rw (e, o) refl)
    | inr (g, _) ↦ v.owned i (rw g at h)
  ];
  distinct = v.distinct;
}
Replaced-IsValid t idx entry r v w exhausted = v
Replaced-IsValid t idx entry r v w (minted small) = record {
  paired = length-set t.generations idx _ ∙ v.paired ∙ sym (length-set t.entries idx (some entry));
  unique = λ key. unique-set t.entries idx entry key w.in_range (v.unique key) w.apart;
  bounded = λ i. elim (get_or-set_cases t.generations idx i (t.last_generation + 1) 0) [
    | inl (_, _, g) ↦ omega arith
    | inr (g, _) ↦ omega (arith, v.bounded i)
  ];
  word = small;
  owned = λ i h. elim (get_or-set_cases t.generations idx i (t.last_generation + 1) 0) [
    | inl (_, _, g) ↦ omega arith
    | inr (g, out) ↦ rw g (v.owned i (kept i h out))
  ];
  distinct =
      Distinct-set t.generations idx (t.last_generation + 1) v.distinct
        (λ i. omega (arith, v.bounded i));
}
  where
    kept :
        (i : ℕ)
        → is_some (get_or (set t.entries idx (some entry)) i none) ≡ true
        → (¬ (i ≡ idx)) ⊎ (length t.generations ≤ i)
        → is_some (get_or t.entries i none) ≡ true
    kept i h out = elim (get_or-set_cases t.entries idx i (some entry) none) [
      | inl (e, l, _) ↦ elim out [ inl n ↦ absurd (n e) | inr b ↦ absurd (omega (arith, v.paired)) ]
      | inr (g, _) ↦ rw g at h
    ]

admit-IsValid :
    (t : PathTable) (entry : PathEntry) (now : ℕ) (r : PathTable × Bool)
    → IsValid t
    → Admitted t entry now r
    → IsValid r.0
admit-IsValid t entry now r v (fresher idx old l o g s) =
    Replaced-IsValid t idx entry _ v (record { in_range = l; apart = inr (rw o g) })
      (replace_entry-Replaced t idx entry)
admit-IsValid t entry now r v (stale idx old l o g s) = v
admit-IsValid t entry now r v (free idx a l n) =
    Replaced-IsValid t idx entry _ v (record { in_range = l; apart = inl a })
      (replace_entry-Replaced t idx entry)
admit-IsValid t entry now r v (evicts_bulk idx victim a full o) =
    Replaced-IsValid t idx entry _ v (record { in_range = o.0; apart = inl a })
      (replace_entry-Replaced t idx entry)
admit-IsValid t entry now r v (evicts_oldest idx victim a full b n o) =
    Replaced-IsValid t idx entry _ v (record { in_range = o.0; apart = inl a })
      (replace_entry-Replaced t idx entry)
admit-IsValid t entry now r v (no_slot a full n w) = v

-- A change of entries that fills no slot and adds no route keeps the invariant.
shrunk-IsValid :
    (t : PathTable) (es : List (Option PathEntry))
    → IsValid t
    → length es ≡ length t.entries
    → ((key : Hash16) → count (goes_to key) es ≤ count (goes_to key) t.entries)
    → ((i : ℕ) → is_some (get_or es i none) ≡ true → is_some (get_or t.entries i none) ≡ true)
    → IsValid (record t { entries = es })
shrunk-IsValid t es v l c s = record {
  paired = v.paired ∙ sym l;
  unique = λ key. omega (arith, c key, v.unique key);
  bounded = v.bounded;
  word = v.word;
  owned = λ i h. v.owned i (s i h);
  distinct = v.distinct;
}

pub cleared-IsValid :
    (q : PathEntry → Bool) (t : PathTable)
    → IsValid t
    → IsValid (record t { entries = clear_if q t.entries })
cleared-IsValid q t v =
    shrunk-IsValid t (clear_if q t.entries) v (length-clear_if q t.entries)
      (λ key. count-clear_if_le (goes_to key) q t.entries)
      (λ i h. kept (get_or t.entries i none) (rw (get_or-clear_if q t.entries i) at h))
  where
    kept :
        (o : Option PathEntry)
        → is_some (if is_some_and q o then none else o) ≡ true
        → is_some o ≡ true
    kept none h = h
    kept (some a) h = refl

pub expire-IsValid : (t : PathTable) (now : ℕ) → IsValid t → IsValid (expire t now)
unfolding expire
expire-IsValid t now v = cleared-IsValid (λ e. not (is_live now e)) t v

-- An insertion keeps the invariant of the table, whatever it answers.
pub insert_or_update-IsValid :
    (t : PathTable) (entry : PathEntry) (now : ℕ)
    → IsValid t
    → IsValid (insert_or_update t entry now).0
unfolding insert_or_update
insert_or_update-IsValid t entry now v =
    admit-IsValid (expire t now) entry now _ (expire-IsValid t now v)
      (admit-Admitted (expire t now) entry now)

pub remove_interface-IsValid :
    (t : PathTable) (interface : ℕ) → IsValid t → IsValid (remove_interface t interface)
unfolding remove_interface
remove_interface-IsValid t interface v = cleared-IsValid (λ e. e.interface_id == interface) t v

pub drop_path-IsValid : (t : PathTable) (key : Hash16) → IsValid t → IsValid (drop_path t key).0
unfolding drop_path
drop_path-IsValid t key v = elim (Option-cases (position (is_some_and (goes_to key)) t.entries)) [
  | inl n ↦ rw (n, drop_path) v
  | inr (idx, p) ↦
      let (l, h) = position-some (is_some_and (goes_to key)) t.entries idx p in
      rw (p, drop_path)
        (shrunk-IsValid t (set t.entries idx none) v (length-set t.entries idx none)
          (λ k. omega (arith, count-set (goes_to k) t.entries idx none l))
          (λ i s. elim (get_or-set_cases t.entries idx i none none) [
            | inl (_, _, g) ↦ cc (rw g at s)
            | inr (g, _) ↦ rw g at s
          ]))
]

goes_to-touched :
    (key : Hash16) (now : ℕ) (e : PathEntry) → goes_to key (touched now e) ≡ goes_to key e
unfolding goes_to
goes_to-touched key now e = refl

pub touch-IsValid : (t : PathTable) (key : Hash16) (now : ℕ) → IsValid t → IsValid (touch t key now)
unfolding touch
touch-IsValid t key now v =
    let q = λ (e : PathEntry). goes_to key e && is_live now e in
    shrunk-IsValid t (update_first q (touched now) t.entries) v
      (length-update_first q (touched now) t.entries)
      (λ k.
        le_of_eq (
          count-update_first (goes_to k) q (touched now) t.entries
            (λ e h. goes_to-touched k now e)))
      (λ i s. rw is_some-update_first at s)

pub new-IsValid : (n : ℕ) → IsValid (new n)
unfolding new
new-IsValid n = record {
  paired = length-replicate n 0 ∙ sym (length-replicate n none);
  unique = λ key. omega (arith, count-replicate (goes_to key) n);
  bounded = λ i. omega (arith, zeros n i);
  word = omega arith;
  owned = λ i h. absurd (empty n i h);
  distinct = λ i j h. absurd (omega (arith, zeros n i));
}
  where
    zeros : (m i : ℕ) → get_or {A = ℕ} (replicate m 0) i 0 ≡ 0
    zeros zero i = refl
    zeros (suc m) zero = refl
    zeros (suc m) (suc i) = zeros m i

    empty : (m i : ℕ) → is_some (get_or (replicate {A = Option PathEntry} m none) i none) ≡ true → ⊥
    empty zero i h = cc
    empty (suc m) zero h = cc
    empty (suc m) (suc i) h = empty m i h
