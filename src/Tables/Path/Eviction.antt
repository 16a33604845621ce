-- ===== src/Tables/Path/Eviction.antt =====
-- Which routes an insertion may evict.
use rs_reticulum_lite.Prelude.{
  ℕ, ◌≡◌, refl, sym, subst, ◌∙◌, none, some, Bool, true, false, ◌&&◌, ltb, is_some_and, length,
  get_or, ◌⊎◌, inl, inr, Bool-cases,
}
use rs_reticulum_lite.Tables.Slots.{count}
use rs_reticulum_lite.Tables.Slots.Lookup.{find-set_ne}
use rs_reticulum_lite.Tables.Path.{
  PathEntry, PathTable, Hash16, goes_to, get, get_live, expire, insert_or_update,
}
use rs_reticulum_lite.Tables.Path.Cases.{
  Admitted, fresher, stale, free, evicts_bulk, evicts_oldest, no_slot, admit-Admitted,
}
use rs_reticulum_lite.Tables.Path.Valid.{IsValid, expire-IsValid, goes_to_self, eq_of_goes_to}
use rs_reticulum_lite.Tables.Path.Admission.{get_live-expire, Answered, replace_entry-Answered}
use rs_reticulum_lite.Tables.Path.Freshness.{met, is_live_of_get_live}

-- The route that an insertion may evict: the table is full and holds no route to the destination, and
-- the route is the oldest of the bulk ones, or there is no bulk route, the newcomer is not bulk and
-- the route is the oldest of all.
abbrev pub IsVictim : PathTable → PathEntry → PathEntry → Type 0
IsVictim t entry e =
    (count (goes_to entry.destination_hash) t.entries ≡ 0)
    × (count (λ _. true) t.entries ≡ length t.entries)
    × (((e.bulk ≡ true) × (count (λ x. x.bulk && ltb x.expires_ms e.expires_ms) t.entries ≡ 0))
        ⊎ ((entry.bulk ≡ false)
            × (count (λ x. x.bulk) t.entries ≡ 0)
            × (count (λ x. ltb x.expires_ms e.expires_ms) t.entries ≡ 0)))

goes_one_way :
    (entry x : PathEntry) (key : Hash16)
    → goes_to entry.destination_hash x ≡ true
    → goes_to key entry ≡ false
    → goes_to key x ≡ false
goes_one_way entry x key h other = elim (Bool-cases (goes_to key x)) [
  | inr n ↦ n
  | inl y ↦
      let same : entry.destination_hash ≡ key =
        sym (eq_of_goes_to entry.destination_hash x h) ∙ eq_of_goes_to key x y in
      let self = subst (λ k. goes_to k entry ≡ true) same (goes_to_self entry) in cc
]

module _ (t : PathTable) (entry e : PathEntry) (key : Hash16) (v : IsValid t) where
  -- A write over a slot that does not hold the route leaves it.
  kept :
      (idx : ℕ) (r : PathTable × Bool)
      → Answered t idx entry r
      → get t key ≡ some e
      → goes_to key entry ≡ false
      → is_some_and (goes_to key) (get_or t.entries idx none) ≡ false
      → get r.0 key ≡ some e
  unfolding get
  kept idx r (inl (y, es)) h other n =
      rw es (find-set_ne (goes_to key) t.entries idx (some entry) n other ∙ h)
  kept idx r (inr (y, same)) h other n = rw same h

  kept_or_evicted :
      (now : ℕ) (r : PathTable × Bool)
      → Admitted t entry now r
      → get t key ≡ some e
      → goes_to key entry ≡ false
      → (get r.0 key ≡ some e) ⊎ IsVictim t entry e
  kept_or_evicted now r (fresher idx old l o s f) h other = inl (
      kept idx _ (replace_entry-Answered t idx entry) h other
        (rw o (goes_one_way entry old key s other)))
  kept_or_evicted now r (stale idx old l o s f) h other = inl h
  kept_or_evicted now r (free idx a l n) h other =
      inl (kept idx _ (replace_entry-Answered t idx entry) h other (rw n refl))
  kept_or_evicted now r (evicts_bulk idx victim a full (l, o, b, least)) h other =
      elim (Bool-cases (goes_to key victim)) [
        | inr n ↦ inl (kept idx _ (replace_entry-Answered t idx entry) h other (rw o n))
        | inl y ↦
            let same : victim ≡ e = met t key idx victim e v h o y in
            inr (a, full, inl (rw same at b, rw same at least))
      ]
  kept_or_evicted now r (evicts_oldest idx victim a full b none_bulk (l, o, _, least)) h other =
      elim (Bool-cases (goes_to key victim)) [
        | inr n ↦ inl (kept idx _ (replace_entry-Answered t idx entry) h other (rw o n))
        | inl y ↦
            let same : victim ≡ e = met t key idx victim e v h o y in
            inr (a, full, inr (b, none_bulk, rw same at least))
      ]
  kept_or_evicted now r (no_slot a full n w) h other = inl h

-- An insertion into a valid table keeps every live route to another destination, but for the victim
-- of a full table: a bulk route, the oldest of them, or the oldest route where none is bulk and the
-- newcomer is not.
pub insert_keeps_or_evicts :
    (t : PathTable) (entry e : PathEntry) (key : Hash16) (now : ℕ)
    → IsValid t
    → get_live t key now ≡ some e
    → goes_to key entry ≡ false
    → (get_live (insert_or_update t entry now).0 key now ≡ some e) ⊎ IsVictim (expire t now) entry e
unfolding insert_or_update
insert_keeps_or_evicts t entry e key now v h other =
    elim (kept_or_evicted (expire t now) entry e key (expire-IsValid t now v) now _
      (admit-Admitted (expire t now) entry now) (sym (get_live-expire t key now v) ∙ h) other) [
        | inr w ↦ inr w
        | inl k ↦ inl (unfold get_live in rw (k, is_live_of_get_live t key now e h) refl)
      ]
