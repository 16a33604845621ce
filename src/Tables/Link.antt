-- ===== src/Tables/Link.antt =====
-- `LinkEntry` and `LinkTable<N>` of src/tables.rs: the links that the router forwards.
pub mod Laws
use rs_reticulum_lite.Prelude.{
  ℕ, List, Option, none, some, Bool, true, false, ◌&&◌, ◌||◌, if◌then◌else◌, ◌==◌, leb, ltb,
  or_else, is_some_and, is_none, is_some, length, set, replicate,
}
use rs_reticulum_lite.Prelude.Bytes.{bytes_eq}
use rs_reticulum_lite.Tables.Slots.{find, position, clear_if, update_first, free_or_oldest}
use rs_reticulum_lite.Tables.Generations

pub record LinkEntry : Type 0 where
  pub link_id : List ℕ
  pub destination_ed25519 : Option (List ℕ)
  pub receiving_interface : ℕ
  pub outbound_interface : ℕ
  pub remaining_hops : ℕ
  pub taken_hops : ℕ
  pub requested_mode : ℕ
  pub accepted_mtu_ceiling : ℕ
  pub validated : Bool
  pub expires_ms : ℕ

pub record LinkTable : Type 0 where
  pub entries : List (Option LinkEntry)
  pub generations : List ℕ
  pub last_generation : ℕ

unfoldable pub clear : LinkTable → LinkTable
clear t = record t { entries = replicate (length t.entries) none }

unfoldable pub new : ℕ → LinkTable
new n = record { entries = replicate n none; generations = replicate n 0; last_generation = 0 }

unfoldable pub names : List ℕ → LinkEntry → Bool
names key e = bytes_eq e.link_id key

unfoldable pub next_generation : LinkTable → Option ℕ
next_generation t = Generations.next_generation (length t.entries) t.last_generation

unfoldable pub generation : LinkTable → List ℕ → ℕ → Option ℕ
generation t key now =
    Generations.generation (λ e. names key e && ltb now e.expires_ms) t.entries t.generations

unfoldable pub get_generation : LinkTable → ℕ → ℕ → Option LinkEntry
get_generation t generation now =
    Generations.get_generation (λ e. ltb now e.expires_ms) generation t.entries t.generations

unfoldable pub expire : LinkTable → ℕ → LinkTable
expire t now = record t { entries = clear_if (λ e. leb e.expires_ms now) t.entries }

-- The end of `insert`, from the slot found and the generation.
abbrev pub store : LinkTable → LinkEntry → ℕ → Option ℕ → LinkTable
store t e generation none = t
store t e generation (some idx) = record {
  entries = set t.entries idx (some e);
  generations = set t.generations idx generation;
  last_generation = generation;
}

unfoldable pub slot_for : List (Option LinkEntry) → List ℕ → Option ℕ
slot_for es link_id =
    or_else (position (is_some_and (names link_id)) es) (free_or_oldest (λ e. e.expires_ms) es)

unfoldable pub insert : LinkTable → LinkEntry → ℕ → LinkTable
insert t e now =
    let u = expire t now in
    elim (next_generation u) [ none ↦ u | some g ↦ store u e g (slot_for u.entries e.link_id) ]

unfoldable pub has_free_slot : LinkTable → ℕ → LinkTable × Bool
has_free_slot t now = let u = expire t now in (u, is_some (position is_none u.entries))

unfoldable pub get : LinkTable → List ℕ → ℕ → Option LinkEntry
get t link_id now = find (λ e. names link_id e && ltb now e.expires_ms) t.entries

unfoldable pub remove_interface : LinkTable → ℕ → LinkTable
remove_interface t interface = record t {
  entries =
      clear_if (λ e. e.receiving_interface == interface || e.outbound_interface == interface)
        t.entries;
}

unfoldable pub contains_live : LinkTable → List ℕ → ℕ → Bool
contains_live t link_id now = is_some (get t link_id now)

unfoldable pub mark_validated : LinkTable → List ℕ → ℕ → ℕ → LinkTable
mark_validated t link_id expires_ms now =
    let u = expire t now in
    record u {
      entries =
          update_first (names link_id) (λ e. record e { validated = true; expires_ms = expires_ms })
            u.entries;
    }

unfoldable pub touch : LinkTable → List ℕ → ℕ → ℕ → LinkTable
touch t link_id expires_ms now =
    let u = expire t now in
    record u {
      entries = update_first (names link_id) (λ e. record e { expires_ms = expires_ms }) u.entries;
    }
