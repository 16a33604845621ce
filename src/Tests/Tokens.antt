-- ===== src/Tests/Tokens.antt =====
-- Hashes, proofs and links of src/tables.rs.
use rs_reticulum_lite.Prelude.{
  ℕ, zero, suc, ◌+◌, ◌≤◌, ◌≡◌, refl, sym, ◌∙◌, ◌⊎◌, get_or, List, [], ◌∷◌, none, some, true, false,
  arith, replicate,
}
use rs_reticulum_lite.Prelude.Bytes.{bytes_eq}
use rs_reticulum_lite.Tables.Slots.{find, any, count, position, position_from, clear_if}
use rs_reticulum_lite.Tables.Queue
use rs_reticulum_lite.Tables.Queue.Run.{
  Call, pushes, pops, removes, updates, clears, run, spec_run, run-new,
}
use rs_reticulum_lite.Tables.Seen
use rs_reticulum_lite.Tables.Seen.{SeenEntry, SeenTable}
use rs_reticulum_lite.Tables.Seen.Laws.{insert_all, GetsCrowded, seen_until_crowded}
use rs_reticulum_lite.Tables.Reverse
use rs_reticulum_lite.Tables.Reverse.{ReverseEntry, ReverseTable}
use rs_reticulum_lite.Tables.Reverse.Laws
use rs_reticulum_lite.Tables.Reverse.Tokens.{IsOwned, restore_taken}
use rs_reticulum_lite.Tables.Link
use rs_reticulum_lite.Tables.Link.{LinkEntry, LinkTable}
use rs_reticulum_lite.Tables.Link.Laws.{insert_into_free_slot}

abbrev calls : List (Call ℕ)
calls = pushes 1 ∷ pushes 2 ∷ pushes 3 ∷ removes 1 ∷ updates 0 (λ n. n + 7) ∷ pops ∷ clears ∷ []

run-new_example : run (Queue.new ℕ 2) calls ≡ spec_run 2 [] calls
run-new_example = run-new 2 calls

abbrev seen : SeenTable
seen = record { entries = some (record { key = replicate 32 1; expires_ms = 50 }) ∷ none ∷ [] }

insert_test : (Seen.insert seen (replicate 32 2) 90 10).1 ≡ true
unfolding Seen.insert Seen.expire Seen.has_key clear_if any bytes_eq
insert_test = refl

-- The third hash takes the slot of the first, which expires first.
abbrev more : List (List ℕ × ℕ × ℕ)
more = (replicate 32 3, 120, 20) ∷ (replicate 32 2, 130, 30) ∷ []

seen_until_crowded_example :
    let r = (Seen.insert seen (replicate 32 2) 90 10).0 in
    let u = insert_all r more in
    (((Seen.contains u (replicate 32 2) 60).1 ≡ true)
      × ((Seen.insert u (replicate 32 2) 140 60).1 ≡ false))
    ⊎ GetsCrowded r more 90
seen_until_crowded_example =
    seen_until_crowded seen (replicate 32 2) 90 10 60 140 more (omega arith) (omega arith)
      (omega arith, (omega arith, tt)) insert_test

abbrev proof_of : ℕ → ReverseEntry
proof_of k = record {
  proof_hash = replicate 16 k;
  receiving_interface = 1;
  outbound_interface = 2;
  expires_ms = 100;
}

abbrev proofs : ReverseTable
proofs = record {
  entries = some (proof_of 1) ∷ none ∷ [];
  generations = 1 ∷ 0 ∷ [];
  last_generation = 1;
}

proofs-IsValid : Reverse.Laws.IsValid proofs
unfolding count
proofs-IsValid = record { unique = λ k. ground arith }

abbrev taken : ReverseTable
taken = record { entries = none ∷ none ∷ []; generations = 1 ∷ 0 ∷ []; last_generation = 1 }

take_test : Reverse.take_with_generation proofs (replicate 16 1) 10 ≡ (taken, some (proof_of 1, 1))
unfolding Reverse.take_with_generation Reverse.expire Reverse.proves clear_if position position_from
    bytes_eq
take_test = refl

proofs-IsOwned : IsOwned proofs
proofs-IsOwned = record {
  sized = refl;
  apart = λ i j a b ha hb _. first i a ha ∙ sym (first j b hb);
  below = below;
}
  where
    first : (i : ℕ) (a : ReverseEntry) → get_or proofs.entries i none ≡ some a → i ≡ 0
    first zero a h = refl
    first (suc zero) a h = cc
    first (suc (suc i)) a h = cc

    below : (i : ℕ) → get_or proofs.generations i 0 ≤ 1
    below zero = omega arith
    below (suc zero) = omega arith
    below (suc (suc i)) = omega arith

restore_taken_example :
    (Reverse.get (Reverse.restore_consumed taken (proof_of 1) 1) (replicate 16 1) 20
      ≡ Reverse.get (Reverse.expire proofs 10) (replicate 16 1) 20)
    × (Reverse.get_generation (Reverse.restore_consumed taken (proof_of 1) 1) 1 20
        ≡ Reverse.get_generation (Reverse.expire proofs 10) 1 20)
restore_taken_example =
    restore_taken proofs taken (proof_of 1) (replicate 16 1) (replicate 16 1) 1 10 20 1
      proofs-IsValid proofs-IsOwned take_test

abbrev link_of : ℕ → LinkEntry
link_of k = record {
  link_id = replicate 16 k;
  destination_ed25519 = none;
  receiving_interface = 1;
  outbound_interface = 2;
  remaining_hops = 3;
  taken_hops = 1;
  requested_mode = 1;
  accepted_mtu_ceiling = 500;
  validated = false;
  expires_ms = 100;
}

abbrev links : LinkTable
links = record {
  entries = some (link_of 1) ∷ none ∷ [];
  generations = 1 ∷ 0 ∷ [];
  last_generation = 1;
}

free_test : (Link.has_free_slot links 10).1 ≡ true
unfolding Link.has_free_slot Link.expire clear_if position position_from
free_test = refl

absent_test : Link.get links (replicate 16 2) 10 ≡ none
unfolding Link.get Link.names find bytes_eq
absent_test = refl

present_test : Link.get links (replicate 16 1) 10 ≡ some (link_of 1)
unfolding Link.get Link.names find bytes_eq
present_test = refl

insert_into_free_slot_example :
    Link.get (Link.insert links (link_of 2) 10) (replicate 16 1) 10 ≡ some (link_of 1)
insert_into_free_slot_example =
    insert_into_free_slot links (link_of 2) (link_of 1) (replicate 16 1) 10 free_test absent_test
      present_test
