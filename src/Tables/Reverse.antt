-- ===== src/Tables/Reverse.antt =====
-- `ReverseEntry` and `ReverseTable<N>` of src/tables.rs: the way back for proofs.
pub mod Laws
pub mod Tokens
use rs_reticulum_lite.Prelude.{
  ℕ, List, Option, none, some, Bool, true, false, ◌&&◌, ◌||◌, if◌then◌else◌, ◌==◌, leb, ltb,
  or_else, is_some_and, is_none, length, get_or, set, replicate,
}
use rs_reticulum_lite.Prelude.Bytes.{bytes_eq}
use rs_reticulum_lite.Tables.Slots.{find, position, clear_if, free_or_oldest}
use rs_reticulum_lite.Tables.Generations

pub record ReverseEntry : Type 0 where
  pub proof_hash : List ℕ
  pub receiving_interface : ℕ
  pub outbound_interface : ℕ
  pub expires_ms : ℕ

pub record ReverseTable : Type 0 where
  pub entries : List (Option ReverseEntry)
  pub generations : List ℕ
  pub last_generation : ℕ

unfoldable pub clear : ReverseTable → ReverseTable
clear t = record t { entries = replicate (length t.entries) none }

unfoldable pub new : ℕ → ReverseTable
new n = record { entries = replicate n none; generations = replicate n 0; last_generation = 0 }

unfoldable pub proves : List ℕ → ReverseEntry → Bool
proves key e = bytes_eq e.proof_hash key

unfoldable pub next_generation : ReverseTable → Option ℕ
next_generation t = Generations.next_generation (length t.entries) t.last_generation

unfoldable pub get_generation : ReverseTable → ℕ → ℕ → Option ReverseEntry
get_generation t generation now =
    Generations.get_generation (λ e. ltb now e.expires_ms) generation t.entries t.generations

unfoldable pub expire : ReverseTable → ℕ → ReverseTable
expire t now = record t { entries = clear_if (λ e. leb e.expires_ms now) t.entries }

-- The end of `insert`, from the slot found and the generation.
abbrev pub store : ReverseTable → ReverseEntry → ℕ → Option ℕ → ReverseTable
store t e generation none = t
store t e generation (some idx) = record {
  entries = set t.entries idx (some e);
  generations = set t.generations idx generation;
  last_generation = generation;
}

unfoldable pub slot_for : List (Option ReverseEntry) → List ℕ → Option ℕ
slot_for es proof_hash =
    or_else (position (is_some_and (proves proof_hash)) es) (free_or_oldest (λ e. e.expires_ms) es)

unfoldable pub insert : ReverseTable → ReverseEntry → ℕ → ReverseTable
insert t e now =
    let u = expire t now in
    elim (next_generation u) [ none ↦ u | some g ↦ store u e g (slot_for u.entries e.proof_hash) ]

unfoldable pub get : ReverseTable → List ℕ → ℕ → Option ReverseEntry
get t proof_hash now = find (λ e. proves proof_hash e && ltb now e.expires_ms) t.entries

-- The entry and generation of a slot, and the table with the slot emptied.
abbrev pub take_slot :
    ReverseTable → ℕ → Option ReverseEntry → ReverseTable × Option (ReverseEntry × ℕ)
take_slot t idx none = (t, none)
take_slot t idx (some e) =
    (record t { entries = set t.entries idx none }, some (e, get_or t.generations idx 0))

abbrev pub take_at : ReverseTable → Option ℕ → ReverseTable × Option (ReverseEntry × ℕ)
take_at t none = (t, none)
take_at t (some idx) = take_slot t idx (get_or t.entries idx none)

unfoldable pub take_with_generation :
    ReverseTable → List ℕ → ℕ → ReverseTable × Option (ReverseEntry × ℕ)
take_with_generation t proof_hash now =
    let u = expire t now in take_at u (position (is_some_and (proves proof_hash)) u.entries)

abbrev pub entry_of : Option (ReverseEntry × ℕ) → Option ReverseEntry
entry_of none = none
entry_of (some (e, g)) = some e

unfoldable pub remove : ReverseTable → List ℕ → ℕ → ReverseTable × Option ReverseEntry
remove t proof_hash now = let (u, out) = take_with_generation t proof_hash now in (u, entry_of out)

unfoldable pub restore_consumed : ReverseTable → ReverseEntry → ℕ → ReverseTable
restore_consumed t e generation = elim (position is_none t.entries) [
  | none ↦ t
  | some idx ↦ record t {
    entries = set t.entries idx (some e);
    generations = set t.generations idx generation;
  }
]

unfoldable pub remove_interface : ReverseTable → ℕ → ReverseTable
remove_interface t interface = record t {
  entries =
      clear_if (λ e. e.receiving_interface == interface || e.outbound_interface == interface)
        t.entries;
}
