-- ===== src/Tables/Path/Tokens.antt =====
-- A generation that a caller holds names one route: it is never given to another one.
use rs_reticulum_lite.Prelude.{
  ℕ, ◌+◌, ◌≤◌, ◌≡◌, refl, sym, ◌∙◌, List, Option, none, some, Bool, true, not, arith, if◌then◌else◌,
  ltb, is_some_and, get_or, get_or-set_cases, inl, inr,
}
use rs_reticulum_lite.Prelude.Bytes.{opt_bytes_eq, bytes_eq_refl}
use rs_reticulum_lite.Tables.Slots.Lookup.{get_or-clear_if}
use rs_reticulum_lite.Tables.Generations.Laws.{
  At, get_generation-some, get_generation_of_At, get_generation-clear_if,
}
use rs_reticulum_lite.Tables.Path.{
  PathEntry, PathTable, is_live, same_route, get_generation, expire, insert_or_update,
}
use rs_reticulum_lite.Tables.Path.Cases.{
  Replaced, refreshed, exhausted, minted, replace_entry-Replaced, Admitted, fresher, stale, free,
  evicts_bulk, evicts_oldest, no_slot, admit-Admitted,
}
use rs_reticulum_lite.Tables.Path.Valid.{IsValid, expire-IsValid}

opt_bytes_eq_refl : (o : Option (List ℕ)) → opt_bytes_eq o o ≡ true
unfolding opt_bytes_eq
opt_bytes_eq_refl none = refl
opt_bytes_eq_refl (some b) = bytes_eq_refl b

pub same_route_refl : (e : PathEntry) → same_route e e ≡ true
unfolding same_route
same_route_refl e = ground (arith, bytes_eq_refl e.destination_hash, opt_bytes_eq_refl e.next_hop)

abbrev live_at : ℕ → PathEntry → Bool
live_at now e = ltb now e.expires_ms

-- Every entry that is left after `expire` is live.
expire_live :
    (t : PathTable) (now i : ℕ) (e : PathEntry)
    → get_or (expire t now).entries i none ≡ some e
    → live_at now e ≡ true
unfolding expire is_live
expire_live t now i e h =
    left (get_or t.entries i none)
      (rw (get_or-clear_if (λ x. not (ltb now x.expires_ms)) t.entries i) at h)
  where
    left :
        (o : Option PathEntry)
        → (if is_some_and (λ x. not (ltb now x.expires_ms)) o then none else o) ≡ some e
        → ltb now e.expires_ms ≡ true
    left none g = cc
    left (some x) g = ground arith

-- An old generation that a written table gives out stood in the same slot before, for that route.
module _ (t : PathTable) (now g : ℕ) (p : PathEntry → Bool)
    (all_left : (i : ℕ) (e : PathEntry)
      → get_or (expire t now).entries i none ≡ some e
      → p e ≡ true)
    (v : IsValid (expire t now)) where
  abbrev Held : PathTable → ℕ → PathEntry → Type 0
  Held u i e = At p g u.entries u.generations i e

  Replaced-Held :
      (idx : ℕ) (entry : PathEntry) (r : PathTable × Bool) (i : ℕ) (e : PathEntry)
      → Replaced (expire t now) idx entry r
      → g ≤ t.last_generation
      → Held r.0 i e
      → (old : PathEntry) × (Held (expire t now) i old) × (same_route e old ≡ true)
  Replaced-Held idx entry r i e (refreshed old o s) below (slot, gen, live) =
      elim (get_or-set_cases (expire t now).entries idx i (some entry) none) [
        | inl (ii, _, w) ↦
            let same : entry ≡ e = cc in
            let here : get_or (expire t now).entries i none ≡ some old = rw ii o in
            (old, (here, gen, all_left i old here), rw same at s)
        | inr (w, _) ↦ (e, (sym w ∙ slot, gen, live), same_route_refl e)
      ]
  Replaced-Held idx entry r i e exhausted below h = (e, h, same_route_refl e)
  Replaced-Held idx entry r i e (minted small) below (slot, gen, live) =
      elim (get_or-set_cases (expire t now).generations idx i ((expire t now).last_generation + 1)
        0) [
          | inl (ii, _, w) ↦ absurd (unfold expire in omega (arith, w, gen))
          | inr (w, out) ↦ elim (get_or-set_cases (expire t now).entries idx i (some entry) none) [
            | inr (u, _) ↦ (e, (sym u ∙ slot, sym w ∙ gen, live), same_route_refl e)
            | inl (ii, l, u) ↦ elim out [
              | inl n ↦ absurd (n ii)
              | inr b ↦ absurd (omega (arith, v.paired))
            ]
          ]
        ]

  pub Admitted-Held :
      (entry : PathEntry) (r : PathTable × Bool) (i : ℕ) (e : PathEntry)
      → Admitted (expire t now) entry now r
      → g ≤ t.last_generation
      → Held r.0 i e
      → (old : PathEntry) × (Held (expire t now) i old) × (same_route e old ≡ true)
  Admitted-Held entry r i e (fresher idx old l o s f) b h =
      Replaced-Held idx entry _ i e (replace_entry-Replaced (expire t now) idx entry) b h
  Admitted-Held entry r i e (stale idx old l o s f) b h = (e, h, same_route_refl e)
  Admitted-Held entry r i e (free idx a l n) b h =
      Replaced-Held idx entry _ i e (replace_entry-Replaced (expire t now) idx entry) b h
  Admitted-Held entry r i e (evicts_bulk idx victim a full o) b h =
      Replaced-Held idx entry _ i e (replace_entry-Replaced (expire t now) idx entry) b h
  Admitted-Held entry r i e (evicts_oldest idx victim a full nb n o) b h =
      Replaced-Held idx entry _ i e (replace_entry-Replaced (expire t now) idx entry) b h
  Admitted-Held entry r i e (no_slot a full n w) b h = (e, h, same_route_refl e)

get_generation-expire :
    (t : PathTable) (g now : ℕ) → get_generation (expire t now) g now ≡ get_generation t g now
unfolding get_generation expire is_live
get_generation-expire t g now =
    get_generation-clear_if (λ e. ltb now e.expires_ms) g (λ e. not (ltb now e.expires_ms))
      t.entries t.generations (λ e h. rw h refl)

-- A generation minted before an insertion into a valid table gives, after it, if it gives an entry,
-- what it gave before or a refreshed entry of the same route: same destination, interface, next hop
-- and hops.
pub get_generation-insert :
    (t : PathTable) (entry : PathEntry) (now g : ℕ) (e : PathEntry)
    → IsValid t
    → g ≤ t.last_generation
    → get_generation (insert_or_update t entry now).0 g now ≡ some e
    → (old : PathEntry) × (get_generation t g now ≡ some old) × (same_route e old ≡ true)
unfolding insert_or_update
get_generation-insert t entry now g e v below h =
    let x = expire-IsValid t now v in
    let u = insert_or_update t entry now in
    let (pos, (i, at)) =
      get_generation-some (live_at now) g u.0.entries u.0.generations e
        (unfold get_generation in h) in
    let (old, was, same) =
      Admitted-Held t now g (live_at now) (expire_live t now) x entry u i e
        (admit-Admitted (expire t now) entry now) below at in
    let found : get_generation (expire t now) g now ≡ some old =
      unfold get_generation in
      get_generation_of_At (live_at now) g (expire t now).entries (expire t now).generations i old
        x.distinct pos was in
    (old, sym (get_generation-expire t g now) ∙ found, same)
