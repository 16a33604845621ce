-- ===== src/Tables/Path/Freshness.antt =====
-- Which announces replace a retained route: the replay gate of `insert_or_update`.
use rs_reticulum_lite.Prelude.{
  ℕ, ◌<◌, ◌≡◌, sym, ◌∙◌, Option, none, some, Bool, true, false, arith, get_or,
}
use rs_reticulum_lite.Prelude.Bytes.{bytes_eq}
use rs_reticulum_lite.Tables.Slots.{count}
use rs_reticulum_lite.Tables.Slots.Lookup.{find_unique, find-eq-none}
use rs_reticulum_lite.Tables.Path.{
  PathEntry, PathTable, Hash16, goes_to, is_live, announce_emitted, should_replace, get, live_only,
  get_live, expire, insert_or_update,
}
use rs_reticulum_lite.Tables.Path.Cases.{
  Admitted, fresher, stale, free, evicts_bulk, evicts_oldest, no_slot, admit-Admitted,
}
use rs_reticulum_lite.Tables.Path.Valid.{IsValid, expire-IsValid}
use rs_reticulum_lite.Tables.Path.Admission.{get_live-expire}

-- The announce is unseen and was emitted later than that of the route.
abbrev pub Fresher : PathEntry → PathEntry → Type 0
Fresher entry old =
    (bytes_eq entry.random_hash old.random_hash ≡ false)
    × (announce_emitted old.random_hash < announce_emitted entry.random_hash)

should_replace-Fresher :
    (entry old : PathEntry) (now : ℕ)
    → is_live now old ≡ true
    → should_replace entry old now ≡ true
    → Fresher entry old
unfolding should_replace
should_replace-Fresher entry old now live h = ground arith

-- The retained live route is the one that an outcome met.
pub met :
    (t : PathTable) (key : Hash16) (idx : ℕ) (old e : PathEntry)
    → IsValid t
    → get t key ≡ some e
    → get_or t.entries idx none ≡ some old
    → goes_to key old ≡ true
    → old ≡ e
unfolding get
met t key idx old e v h o s =
    cc (sym (find_unique (goes_to key) t.entries idx old (v.unique key) o s) ∙ h)

-- With no route there is none to meet.
pub none_met :
    (t : PathTable) (key : Hash16) (e : PathEntry)
    → get t key ≡ some e
    → count (goes_to key) t.entries ≡ 0
    → ⊥
unfolding get
none_met t key e h a = cc (sym (find-eq-none (goes_to key) t.entries a) ∙ h)

Admitted-Fresher :
    (t : PathTable) (entry old : PathEntry) (now : ℕ) (r : PathTable × Bool)
    → IsValid t
    → Admitted t entry now r
    → get t entry.destination_hash ≡ some old
    → is_live now old ≡ true
    → r.1 ≡ true
    → Fresher entry old
Admitted-Fresher t entry old now r v (fresher idx e l o s f) h live y =
    let same : e ≡ old = met t entry.destination_hash idx e old v h o s in
    should_replace-Fresher entry old now live (rw same at f)
Admitted-Fresher t entry old now r v (stale idx e l o s f) h live y = cc
Admitted-Fresher t entry old now r v (free idx a l n) h live y =
    absurd (none_met t entry.destination_hash old h a)
Admitted-Fresher t entry old now r v (evicts_bulk idx victim a full o) h live y =
    absurd (none_met t entry.destination_hash old h a)
Admitted-Fresher t entry old now r v (evicts_oldest idx victim a full b n o) h live y =
    absurd (none_met t entry.destination_hash old h a)
Admitted-Fresher t entry old now r v (no_slot a full n w) h live y = cc

pub is_live_of_get_live :
    (t : PathTable) (key : Hash16) (now : ℕ) (e : PathEntry)
    → get_live t key now ≡ some e
    → is_live now e ≡ true
unfolding get_live
is_live_of_get_live t key now e h = live (get t key) h
  where
    live : (o : Option PathEntry) → live_only now o ≡ some e → is_live now e ≡ true
    live none g = cc
    live (some x) g = ground arith

-- Where a valid table has a live route to the destination of an announce and accepts the announce,
-- the announce has another random hash than that route and was emitted later.
pub insert-Fresher :
    (t : PathTable) (entry old : PathEntry) (now : ℕ)
    → IsValid t
    → get_live t entry.destination_hash now ≡ some old
    → (insert_or_update t entry now).1 ≡ true
    → Fresher entry old
unfolding insert_or_update
insert-Fresher t entry old now v h y =
    Admitted-Fresher (expire t now) entry old now _ (expire-IsValid t now v)
      (admit-Admitted (expire t now) entry now)
      (sym (get_live-expire t entry.destination_hash now v) ∙ h)
      (is_live_of_get_live t entry.destination_hash now old h) y
