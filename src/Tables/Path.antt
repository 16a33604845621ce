-- ===== src/Tables/Path.antt =====
-- `PathEntry` and `PathTable<N>` of src/tables.rs: the routes. N is the length of `entries`.
pub mod Cases
pub mod Valid
pub mod Tokens
pub mod Admission
pub mod Freshness
pub mod Eviction
pub mod Run
pub mod Owners
use rs_reticulum_lite.Prelude.{
  ℕ, ◌+◌, ◌-◌, List, [], ◌∷◌, Option, none, some, Bool, true, false, not, ◌&&◌, ◌||◌, if◌then◌else◌,
  ◌==◌, ltb, leb, or_else, is_some_and, is_none, is_some, length, get_or, set, take, drop,
  replicate, ◌++◌,
}
use rs_reticulum_lite.Prelude.Words.{saturating_add, saturating_sub}
use rs_reticulum_lite.Prelude.Bytes.{bytes_eq, opt_bytes_eq, from_be_bytes}
use rs_reticulum_lite.Tables.Slots.{
  find, any, count, position, clear_if, update_first, class_victim,
}
use rs_reticulum_lite.Tables.Generations

abbrev pub Hash16 : Type 0
Hash16 = List ℕ

abbrev pub Hash32 : Type 0
Hash32 = List ℕ

pub record PathEntry : Type 0 where
  pub destination_hash : Hash16
  pub next_hop : Option Hash16
  pub hops : ℕ
  pub interface_id : ℕ
  pub expires_ms : ℕ
  pub last_seen_ms : ℕ
  pub packet_hash : Hash32
  pub random_hash : List ℕ
  pub public_key : List ℕ
  pub bulk : Bool

unfoldable pub is_live : ℕ → PathEntry → Bool
is_live now e = ltb now e.expires_ms

pub record PathTable : Type 0 where
  pub entries : List (Option PathEntry)
  pub generations : List ℕ
  pub last_generation : ℕ

unfoldable pub clear : PathTable → PathTable
clear t = record t { entries = replicate (length t.entries) none }

unfoldable pub new : ℕ → PathTable
new n = record { entries = replicate n none; generations = replicate n 0; last_generation = 0 }

-- The test `entry.destination_hash == key`.
unfoldable pub goes_to : Hash16 → PathEntry → Bool
goes_to key e = bytes_eq e.destination_hash key

abbrev pub goes_live : Hash16 → ℕ → PathEntry → Bool
goes_live key now e = goes_to key e && ltb now e.expires_ms

unfoldable pub next_generation : PathTable → Option ℕ
next_generation t = Generations.next_generation (length t.entries) t.last_generation

unfoldable pub generation : PathTable → Hash16 → ℕ → Option ℕ
generation t key now = Generations.generation (goes_live key now) t.entries t.generations

unfoldable pub get_generation : PathTable → ℕ → ℕ → Option PathEntry
get_generation t generation now =
    Generations.get_generation (λ e. ltb now e.expires_ms) generation t.entries t.generations

unfoldable pub get : PathTable → Hash16 → Option PathEntry
get t destination_hash = find (goes_to destination_hash) t.entries

-- `entry.is_live(now_ms).then_some(entry)`
abbrev pub live_only : ℕ → Option PathEntry → Option PathEntry
live_only now none = none
live_only now (some e) = if is_live now e then some e else none

unfoldable pub get_live : PathTable → Hash16 → ℕ → Option PathEntry
get_live t destination_hash now = live_only now (get t destination_hash)

-- The lifetime span of the route, started anew.
abbrev pub touched : ℕ → PathEntry → PathEntry
touched now e = record e {
  last_seen_ms = now;
  expires_ms = saturating_add now (saturating_sub e.expires_ms e.last_seen_ms);
}

unfoldable pub touch : PathTable → Hash16 → ℕ → PathTable
touch t destination_hash now = record t {
  entries = update_first (λ e. goes_to destination_hash e && is_live now e) (touched now) t.entries;
}

unfoldable pub known_public_key : PathTable → Hash16 → Option (List ℕ)
known_public_key t destination_hash = elim (get t destination_hash) [
  | none ↦ none
  | some e ↦ some e.public_key
]

-- `drop_path` clears the first slot of the destination and reports whether there was one.
unfoldable pub drop_path : PathTable → Hash16 → PathTable × Bool
drop_path t destination_hash = elim (position (is_some_and (goes_to destination_hash)) t.entries) [
  | none ↦ (t, false)
  | some idx ↦ (record t { entries = set t.entries idx none }, true)
]

unfoldable pub remove_interface : PathTable → ℕ → PathTable
remove_interface t interface = record t {
  entries = clear_if (λ e. e.interface_id == interface) t.entries;
}

unfoldable pub live_count : PathTable → ℕ → ℕ
live_count t now = count (is_live now) t.entries

unfoldable pub expire : PathTable → ℕ → PathTable
expire t now = record t { entries = clear_if (λ e. not (is_live now e)) t.entries }

-- `announce_emitted`: the big-endian number in bytes 5 to 9.
unfoldable pub announce_emitted : List ℕ → ℕ
announce_emitted random_hash = from_be_bytes (take 5 (drop 5 random_hash))

-- The condition of `insert_or_update` on a retained route to the same destination.
unfoldable pub should_replace : PathEntry → PathEntry → ℕ → Bool
should_replace entry old now =
    if leb entry.hops old.hops
    then not random_seen && ltb old_emitted new_emitted
    else if not (is_live now old) || ltb old_emitted new_emitted
    then not random_seen
    else false
  where
    new_emitted : ℕ
    new_emitted = announce_emitted entry.random_hash

    old_emitted : ℕ
    old_emitted = announce_emitted old.random_hash

    random_seen : Bool
    random_seen = bytes_eq entry.random_hash old.random_hash

-- The test of `replace_entry`: a fresh announce over the same route.
unfoldable pub same_route : PathEntry → PathEntry → Bool
same_route entry old =
    bytes_eq old.destination_hash entry.destination_hash
    && (old.interface_id == entry.interface_id
        && (opt_bytes_eq old.next_hop entry.next_hop && old.hops == entry.hops))

-- The end of `replace_entry`: the entry takes the slot under a new generation, if there is one.
abbrev pub mint : PathTable → ℕ → PathEntry → Option ℕ → PathTable × Bool
mint t idx entry none = (t, false)
mint t idx entry (some g) = (
  record {
    entries = set t.entries idx (some entry);
    generations = set t.generations idx g;
    last_generation = g;
  },
  true,
)

unfoldable pub replace_entry : PathTable → ℕ → PathEntry → PathTable × Bool
replace_entry t idx entry =
    if is_some_and (same_route entry) (get_or t.entries idx none)
    then (record t { entries = set t.entries idx (some entry) }, true)
    else mint t idx entry (next_generation t)

-- The slot for a new destination: a free one, or a victim.
unfoldable pub replacement : List (Option PathEntry) → Bool → Option ℕ
replacement es bulk =
    or_else (position is_none es) (class_victim bulk (λ e. e.bulk) (λ e. e.expires_ms) es)

-- `insert_or_update` after its `expire`: on a slot that holds the destination, and for a new one.
abbrev pub refresh : PathTable → PathEntry → ℕ → ℕ → Option PathEntry → PathTable × Bool
refresh t entry now idx none = (t, false)
refresh t entry now idx (some old) =
    if should_replace entry old now then replace_entry t idx entry else (t, false)

abbrev pub place_new : PathTable → PathEntry → Option ℕ → PathTable × Bool
place_new t entry none = (t, false)
place_new t entry (some idx) = replace_entry t idx entry

unfoldable pub admit : PathTable → PathEntry → ℕ → PathTable × Bool
admit t entry now = elim (position (is_some_and (goes_to entry.destination_hash)) t.entries) [
  | some idx ↦ refresh t entry now idx (get_or t.entries idx none)
  | none ↦ place_new t entry (replacement t.entries entry.bulk)
]

unfoldable pub insert_or_update : PathTable → PathEntry → ℕ → PathTable × Bool
insert_or_update t entry now = admit (expire t now) entry now
