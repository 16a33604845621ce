-- ===== src/Tests/Routes.antt =====
-- Routes of `PathTable` in src/tables.rs.
use rs_reticulum_lite.Prelude.{
  ℕ, ◌≡◌, ◌⊎◌, refl, subst, [], ◌∷◌, ◌++◌, none, some, true, false, arith, replicate,
}
use rs_reticulum_lite.Prelude.Bytes.{bytes_eq, opt_bytes_eq, from_be_bytes, from_be_loop}
use rs_reticulum_lite.Tables.Slots.{find, position, position_from, clear_if}
use rs_reticulum_lite.Tables.Generations
use rs_reticulum_lite.Tables.Path.{
  PathEntry, PathTable, is_live, new, goes_to, next_generation, get, get_live, expire,
  announce_emitted, should_replace, same_route, replace_entry, replacement, admit, insert_or_update,
}
use rs_reticulum_lite.Tables.Path.Valid.{IsValid, new-IsValid, insert_or_update-IsValid}
use rs_reticulum_lite.Tables.Path.Run.{IsReachable, starts, inserts, drops, IsReachable-IsValid}
use rs_reticulum_lite.Tables.Path.{drop_path}
use rs_reticulum_lite.Tables.Path.Owners.{Owns, SameRoute, Owns-IsAfter}
use rs_reticulum_lite.Tables.Path.Admission.{get-insert}
use rs_reticulum_lite.Tables.Path.Freshness.{Fresher, insert-Fresher}
use rs_reticulum_lite.Tables.Path.Eviction.{IsVictim, insert_keeps_or_evicts}

-- A route to `destination`, announced at time `emitted`.
abbrev route : ℕ → ℕ → ℕ → PathEntry
route destination emitted expires_ms = record {
  destination_hash = replicate 16 destination;
  next_hop = none;
  hops = 2;
  interface_id = 1;
  expires_ms = expires_ms;
  last_seen_ms = 0;
  packet_hash = replicate 32 destination;
  random_hash = replicate 9 0 ++ (emitted ∷ []);
  public_key = replicate 64 destination;
  bulk = false;
}

abbrev one_route : PathTable
one_route = record {
  entries = some (route 1 10 100) ∷ [];
  generations = 1 ∷ [];
  last_generation = 1;
}

one_route_test : (insert_or_update (new 1) (route 1 10 100) 0).0 ≡ one_route
unfolding insert_or_update admit expire new clear_if position position_from replacement
    replace_entry next_generation Generations.next_generation
one_route_test = refl

one_route-IsValid : IsValid one_route
one_route-IsValid =
    subst IsValid one_route_test
      (insert_or_update-IsValid (new 1) (route 1 10 100) 0 (new-IsValid 1))

get-insert_example :
    let r = insert_or_update one_route (route 2 5 200) 50 in
    ((r.1 ≡ true) × (get r.0 (replicate 16 2) ≡ some (route 2 5 200)))
    ⊎ ((r.1 ≡ false) × (r.0 ≡ expire one_route 50))
get-insert_example = get-insert one_route (route 2 5 200) 50 one_route-IsValid

live_test : get_live one_route (replicate 16 1) 50 ≡ some (route 1 10 100)
unfolding get_live get find goes_to bytes_eq is_live
live_test = refl

taken_test : (insert_or_update one_route (route 1 11 300) 50).1 ≡ true
unfolding insert_or_update admit expire clear_if position position_from replace_entry goes_to
    bytes_eq is_live should_replace announce_emitted from_be_bytes from_be_loop same_route
    opt_bytes_eq
taken_test = refl

insert-Fresher_example : Fresher (route 1 11 300) (route 1 10 100)
insert-Fresher_example =
    insert-Fresher one_route (route 1 11 300) (route 1 10 100) 50 one_route-IsValid live_test
      taken_test

other_test : goes_to (replicate 16 1) (route 2 5 200) ≡ false
unfolding goes_to bytes_eq
other_test = refl

insert_keeps_or_evicts_example :
    (get_live (insert_or_update one_route (route 2 5 200) 50).0 (replicate 16 1) 50
      ≡ some (route 1 10 100))
    ⊎ IsVictim (expire one_route 50) (route 2 5 200) (route 1 10 100)
insert_keeps_or_evicts_example =
    insert_keeps_or_evicts one_route (route 2 5 200) (route 1 10 100) (replicate 16 1) 50
      one_route-IsValid live_test other_test

-- Two routes learned and one of them dropped.
abbrev dropped : PathTable
dropped = (drop_path (insert_or_update one_route (route 2 5 200) 50).0 (replicate 16 1)).0

dropped-IsReachable : IsReachable 1 dropped
dropped-IsReachable = drops _ (replicate 16 1) (
    inserts one_route (route 2 5 200) 50
      (subst (IsReachable 1) one_route_test (inserts (new 1) (route 1 10 100) 0 starts)))

IsReachable-IsValid_example : IsValid dropped
IsReachable-IsValid_example = IsReachable-IsValid 1 dropped dropped-IsReachable

abbrev refreshed_table : PathTable
refreshed_table = (insert_or_update one_route (route 1 11 300) 50).0

refresh_test : Owns 1 refreshed_table 0 (route 1 11 300)
unfolding insert_or_update admit expire clear_if position position_from replace_entry goes_to
    bytes_eq is_live should_replace announce_emitted from_be_bytes from_be_loop same_route
    opt_bytes_eq
refresh_test = (refl, refl)

Owns-IsAfter_example : (old : PathEntry) × Owns 1 one_route 0 old × SameRoute (route 1 11 300) old
Owns-IsAfter_example =
    Owns-IsAfter 1 0 one_route refreshed_table (route 1 11 300) one_route-IsValid (omega arith)
      (inserts one_route (route 1 11 300) 50 starts) refresh_test
