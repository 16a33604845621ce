-- ===== src/Tables/Cache.antt =====
-- `CachedAnnounce` and `AnnounceCache<N>` of src/tables.rs: the announces kept for path requests.
pub mod Laws
use rs_reticulum_lite.Prelude.{
  ℕ, List, Option, none, some, Bool, true, false, ◌&&◌, if◌then◌else◌, leb, ltb, or_else,
  is_some_and, is_none, length, set, replicate,
}
use rs_reticulum_lite.Prelude.Bytes.{bytes_eq}
use rs_reticulum_lite.PacketBuffer.{PacketBuffer}
use rs_reticulum_lite.Tables.Slots.{find, position, clear_if, class_victim}
use rs_reticulum_lite.Tables.Path.{PathTable, get_live}

pub record CachedAnnounce : Type 0 where
  pub destination_hash : List ℕ
  pub raw : PacketBuffer
  pub hops : ℕ
  pub expires_ms : ℕ
  pub bulk : Bool

pub record AnnounceCache : Type 0 where
  pub entries : List (Option CachedAnnounce)

unfoldable pub clear : AnnounceCache → AnnounceCache
clear t = record { entries = replicate (length t.entries) none }

unfoldable pub new : ℕ → AnnounceCache
new n = record { entries = replicate n none }

unfoldable pub announces : List ℕ → CachedAnnounce → Bool
announces key e = bytes_eq e.destination_hash key

unfoldable pub get : AnnounceCache → List ℕ → ℕ → Option CachedAnnounce
get t destination_hash now =
    find (λ e. announces destination_hash e && ltb now e.expires_ms) t.entries

unfoldable pub expire : AnnounceCache → ℕ → AnnounceCache
expire t now = record { entries = clear_if (λ e. leb e.expires_ms now) t.entries }

unfoldable pub replacement : List (Option CachedAnnounce) → Bool → Option ℕ
replacement es bulk =
    or_else (position is_none es) (class_victim bulk (λ e. e.bulk) (λ e. e.expires_ms) es)

abbrev pub store : AnnounceCache → CachedAnnounce → Option ℕ → AnnounceCache
store t e none = t
store t e (some idx) = record { entries = set t.entries idx (some e) }

unfoldable pub insert : AnnounceCache → CachedAnnounce → ℕ → AnnounceCache
insert t e now =
    let u = expire t now in
    store u e (
      or_else (position (is_some_and (announces e.destination_hash)) u.entries)
        (replacement u.entries e.bulk))

unfoldable pub retain_paths : AnnounceCache → PathTable → ℕ → AnnounceCache
retain_paths t paths now = record {
  entries = clear_if (λ e. is_none (get_live paths e.destination_hash now)) t.entries;
}
