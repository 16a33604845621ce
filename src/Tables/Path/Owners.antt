-- ===== src/Tables/Path/Owners.antt =====
-- The routes that the generations of a `PathTable` of src/tables.rs name over time.
use rs_reticulum_lite.Prelude.{
  ℕ, zero, suc, ◌≤◌, ◌≡◌, refl, sym, ap, ◌∙◌, List, [], ◌∷◌, Option, none, some, Bool, true, not,
  ◌&&◌, arith, ◌==◌, length, replicate, get_or, get_or-set_cases, is_some_and, ◌⊎◌, inl, inr,
  Bool-cases, Option-cases,
}
use rs_reticulum_lite.Prelude.Bytes.{bytes_eq, eq_of_bytes_eq, opt_bytes_eq}
use rs_reticulum_lite.Tables.Slots.{clear_if, update_first, position}
use rs_reticulum_lite.Tables.Slots.Lookup.{get_or-clear_if}
use rs_reticulum_lite.Tables.Path.{
  PathEntry, PathTable, Hash16, goes_to, is_live, same_route, touched, touch, drop_path,
  remove_interface, expire, clear, insert_or_update,
}
use rs_reticulum_lite.Tables.Path.Cases.{
  Replaced, refreshed, exhausted, minted, replace_entry-Replaced, Admitted, fresher, stale, free,
  evicts_bulk, evicts_oldest, no_slot, admit-Admitted,
}
use rs_reticulum_lite.Tables.Path.Valid.{IsValid, expire-IsValid}
use rs_reticulum_lite.Tables.Path.Tokens.{Admitted-Held}
use rs_reticulum_lite.Tables.Path.Run.{
  IsAfter, starts, inserts, touches, drops, removes, expires, clears, IsAfter-IsValid,
}

-- Two entries are of one route.
abbrev pub SameRoute : PathEntry → PathEntry → Type 0
SameRoute a b =
    (a.destination_hash ≡ b.destination_hash)
    × (a.interface_id ≡ b.interface_id)
    × (a.next_hop ≡ b.next_hop)
    × (a.hops ≡ b.hops)

-- Slot `i` holds `e` under the generation.
abbrev pub Owns : ℕ → PathTable → ℕ → PathEntry → Type 0
Owns g t i e = (get_or t.entries i none ≡ some e) × (get_or t.generations i 0 ≡ g)

eq_of_opt_bytes_eq : (a b : Option (List ℕ)) → opt_bytes_eq a b ≡ true → a ≡ b
unfolding opt_bytes_eq
eq_of_opt_bytes_eq none none h = refl
eq_of_opt_bytes_eq none (some b) h = cc
eq_of_opt_bytes_eq (some a) none h = cc
eq_of_opt_bytes_eq (some a) (some b) h = ap some (eq_of_bytes_eq a b h)

same_route-SameRoute : (a b : PathEntry) → same_route a b ≡ true → SameRoute a b
unfolding same_route
same_route-SameRoute a b h =
    let dest : bytes_eq b.destination_hash a.destination_hash ≡ true = ground arith in
    let hop : opt_bytes_eq b.next_hop a.next_hop ≡ true = ground arith in
    (
      sym (eq_of_bytes_eq b.destination_hash a.destination_hash dest),
      ground arith,
      sym (eq_of_opt_bytes_eq b.next_hop a.next_hop hop),
      ground arith,
    )

SameRoute-eq : (a b : PathEntry) → a ≡ b → SameRoute a b
SameRoute-eq a b e = (
  ap (λ x. x.destination_hash) e,
  ap (λ x. x.interface_id) e,
  ap (λ x. x.next_hop) e,
  ap (λ x. x.hops) e,
)

SameRoute-trans : (a b c : PathEntry) → SameRoute a b → SameRoute b c → SameRoute a c
SameRoute-trans a b c (d, n, h, k) (d', n', h', k') = (d ∙ d', n ∙ n', h ∙ h', k ∙ k')

-- A table whose slots hold what they held or nothing, under the same generations.
abbrev Kept : PathTable → PathTable → Type 0
Kept t u =
    (u.generations ≡ t.generations)
    × (u.last_generation ≡ t.last_generation)
    × ((i : ℕ) (e : PathEntry)
        → get_or u.entries i none ≡ some e
        → (old : PathEntry) × (get_or t.entries i none ≡ some old) × SameRoute e old)

cleared-Kept :
    (q : PathEntry → Bool) (t : PathTable) → Kept t (record t { entries = clear_if q t.entries })
cleared-Kept q t = (refl, refl, λ i e h. held i e h)
  where
    held :
        (i : ℕ) (e : PathEntry)
        → get_or (clear_if q t.entries) i none ≡ some e
        → (old : PathEntry) × (get_or t.entries i none ≡ some old) × SameRoute e old
    held i e h = elim (Bool-cases (is_some_and q (get_or t.entries i none))) [
      | inl y ↦ cc (rw (get_or-clear_if q t.entries i, y) at h)
      | inr n ↦ (e, rw (get_or-clear_if q t.entries i, n) at h, (refl, refl, refl, refl))
    ]

get_or-update_first :
    (q : PathEntry → Bool) (f : PathEntry → PathEntry) (es : List (Option PathEntry)) (i : ℕ)
    (e : PathEntry)
    → get_or (update_first q f es) i none ≡ some e
    → (old : PathEntry) × (get_or es i none ≡ some old) × ((e ≡ old) ⊎ (e ≡ f old))
unfolding update_first
get_or-update_first q f [] i e h = cc
get_or-update_first q f (none ∷ es) zero e h = cc
get_or-update_first q f (none ∷ es) (suc i) e h = get_or-update_first q f es i e h
get_or-update_first q f (some a ∷ es) zero e h = elim (Bool-cases (q a)) [
  | inl t ↦ let g : some (f a) ≡ some e = rw t at h in (a, refl, inr cc)
  | inr n ↦ let g : some a ≡ some e = rw n at h in (a, refl, inl cc)
]
get_or-update_first q f (some a ∷ es) (suc i) e h = elim (Bool-cases (q a)) [
  | inl t ↦ (e, rw t at h, inl refl)
  | inr n ↦ get_or-update_first q f es i e (rw n at h)
]

touch-Kept : (t : PathTable) (key : Hash16) (now : ℕ) → Kept t (touch t key now)
unfolding touch
touch-Kept t key now = (
  refl,
  refl,
  λ i e h.
      let (old, held, how) =
        get_or-update_first (λ e. goes_to key e && is_live now e) (touched now) t.entries i e h in
      (
        old,
        held,
        elim how [
          | inl same ↦ SameRoute-eq e old same
          | inr new ↦ SameRoute-eq e (touched now old) new
        ],
      ),
)

drop_path-Kept : (t : PathTable) (key : Hash16) → Kept t (drop_path t key).0
unfolding drop_path
drop_path-Kept t key = elim (Option-cases (position (is_some_and (goes_to key)) t.entries)) [
  | inl n ↦ rw (n, drop_path) (refl, refl, λ i e h. (e, h, (refl, refl, refl, refl)))
  | inr (idx, p) ↦
      rw (p, drop_path)
        (
          refl,
          refl,
          λ i e h. elim (get_or-set_cases t.entries idx i none none) [
            | inl (ii, l, w) ↦ cc
            | inr (w, out) ↦ (e, sym w ∙ h, (refl, refl, refl, refl))
          ],
        )
]

get_or-replicate :
    (n i : ℕ)
    → let nothing : Option PathEntry = none in get_or (replicate n nothing) i nothing ≡ nothing
get_or-replicate zero i = refl
get_or-replicate (suc n) zero = refl
get_or-replicate (suc n) (suc i) = get_or-replicate n i

clear-Kept : (t : PathTable) → Kept t (clear t)
unfolding clear
clear-Kept t = (
  refl,
  refl,
  λ i e h. let emptied : none ≡ some e = sym (get_or-replicate (length t.entries) i) ∙ h in cc,
)

-- A generation that was minted before the calls is held after them for a route that held it before.
abbrev Owned : ℕ → PathTable → PathTable → Type 0
Owned g s t =
    (i : ℕ) (e : PathEntry) → Owns g t i e → (old : PathEntry) × Owns g s i old × SameRoute e old

Owned-Kept : (g : ℕ) (s t u : PathTable) → Owned g s t → Kept t u → Owned g s u
Owned-Kept g s t u o (gens, last, kept) i e (slot, gen) =
    let (mid, was, same) = kept i e slot in
    let (old, owns, route) = o i mid (was, ap (λ gs. get_or gs i 0) (sym gens) ∙ gen) in
    (old, owns, SameRoute-trans e mid old same route)

expire-Kept : (t : PathTable) (now : ℕ) → Kept t (expire t now)
unfolding expire
expire-Kept t now = cleared-Kept (λ e. not (is_live now e)) t

remove_interface-Kept : (t : PathTable) (interface : ℕ) → Kept t (remove_interface t interface)
unfolding remove_interface
remove_interface-Kept t interface = cleared-Kept (λ e. e.interface_id == interface) t

insert-Owned :
    (g : ℕ) (s t : PathTable) (entry : PathEntry) (now : ℕ)
    → IsValid t
    → g ≤ t.last_generation
    → Owned g s t
    → Owned g s (insert_or_update t entry now).0
unfolding insert_or_update
insert-Owned g s t entry now v below o i e (slot, gen) =
    let (mid, (was, gen', _), same) =
      Admitted-Held t now g (λ _. true) (λ _ _ _. refl) (expire-IsValid t now v) entry
        (insert_or_update t entry now) i e (admit-Admitted (expire t now) entry now) below
        (slot, gen, refl) in
    let (old, owns, route) =
      Owned-Kept g s t (expire t now) o (expire-Kept t now) i mid (was, gen') in
    (old, owns, SameRoute-trans e mid old (same_route-SameRoute e mid same) route)

Replaced-last :
    (t : PathTable) (idx : ℕ) (entry : PathEntry) (r : PathTable × Bool)
    → Replaced t idx entry r
    → t.last_generation ≤ r.0.last_generation
Replaced-last t idx entry r (refreshed old o s) = omega arith
Replaced-last t idx entry r exhausted = omega arith
Replaced-last t idx entry r (minted small) = omega arith

Admitted-last :
    (t : PathTable) (entry : PathEntry) (now : ℕ) (r : PathTable × Bool)
    → Admitted t entry now r
    → t.last_generation ≤ r.0.last_generation
Admitted-last t entry now r (fresher idx old l o s f) =
    Replaced-last t idx entry _ (replace_entry-Replaced t idx entry)
Admitted-last t entry now r (stale idx old l o s f) = omega arith
Admitted-last t entry now r (free idx a l n) =
    Replaced-last t idx entry _ (replace_entry-Replaced t idx entry)
Admitted-last t entry now r (evicts_bulk idx victim a full o) =
    Replaced-last t idx entry _ (replace_entry-Replaced t idx entry)
Admitted-last t entry now r (evicts_oldest idx victim a full nb n o) =
    Replaced-last t idx entry _ (replace_entry-Replaced t idx entry)
Admitted-last t entry now r (no_slot a full n w) = omega arith

insert-last :
    (t : PathTable) (entry : PathEntry) (now : ℕ)
    → t.last_generation ≤ (insert_or_update t entry now).0.last_generation
unfolding insert_or_update expire
insert-last t entry now =
    Admitted-last (expire t now) entry now _ (admit-Admitted (expire t now) entry now)

IsAfter-last : (s t : PathTable) → IsAfter s t → s.last_generation ≤ t.last_generation
IsAfter-last s t starts = omega arith
IsAfter-last s t (inserts u entry now r) =
    omega (arith, IsAfter-last s u r, insert-last u entry now)
IsAfter-last s t (touches u key now r) = omega (arith, IsAfter-last s u r, (touch-Kept u key now).1)
IsAfter-last s t (drops u key r) = omega (arith, IsAfter-last s u r, (drop_path-Kept u key).1)
IsAfter-last s t (removes u interface r) =
    omega (arith, IsAfter-last s u r, (remove_interface-Kept u interface).1)
IsAfter-last s t (expires u now r) = omega (arith, IsAfter-last s u r, (expire-Kept u now).1)
IsAfter-last s t (clears u r) = omega (arith, IsAfter-last s u r, (clear-Kept u).1)

IsAfter-Owned :
    (g : ℕ) (s t : PathTable) → IsValid s → g ≤ s.last_generation → IsAfter s t → Owned g s t
IsAfter-Owned g s t v below starts = λ i e h. (e, h, (refl, refl, refl, refl))
IsAfter-Owned g s t v below (inserts u entry now r) =
    insert-Owned g s u entry now (IsAfter-IsValid s u v r) (omega (arith, IsAfter-last s u r))
      (IsAfter-Owned g s u v below r)
IsAfter-Owned g s t v below (touches u key now r) =
    Owned-Kept g s u _ (IsAfter-Owned g s u v below r) (touch-Kept u key now)
IsAfter-Owned g s t v below (drops u key r) =
    Owned-Kept g s u _ (IsAfter-Owned g s u v below r) (drop_path-Kept u key)
IsAfter-Owned g s t v below (removes u interface r) =
    Owned-Kept g s u _ (IsAfter-Owned g s u v below r) (remove_interface-Kept u interface)
IsAfter-Owned g s t v below (expires u now r) =
    Owned-Kept g s u _ (IsAfter-Owned g s u v below r) (expire-Kept u now)
IsAfter-Owned g s t v below (clears u r) =
    Owned-Kept g s u _ (IsAfter-Owned g s u v below r) (clear-Kept u)

-- A generation is never given to another route: whatever calls follow on a valid table, in any order
-- and at any times, a slot that holds an entry under a generation minted before held, under it, an
-- entry of the same destination, interface, next hop and hops before.
pub Owns-IsAfter :
    (g i : ℕ) (s t : PathTable) (e : PathEntry)
    → IsValid s
    → g ≤ s.last_generation
    → IsAfter s t
    → Owns g t i e
    → (old : PathEntry) × Owns g s i old × SameRoute e old
Owns-IsAfter g i s t e v below r h = IsAfter-Owned g s t v below r i e h
