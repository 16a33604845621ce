-- ===== src/Tables/Seen.antt =====
-- `PacketHashTable<N>` and `RequestTagTable<N>` of src/tables.rs: the hashes and tags seen lately.
-- The two have the same entries, a key of 32 bytes and its expiry, and the same code.
pub mod Laws
use rs_reticulum_lite.Prelude.{
  ℕ, List, Option, none, some, Bool, true, false, if◌then◌else◌, leb, or_else, is_none, length, set,
  replicate,
}
use rs_reticulum_lite.Prelude.Bytes.{bytes_eq}
use rs_reticulum_lite.Tables.Slots.{any, clear_if, free_or_oldest}

-- `PacketHashEntry` (where `key` is called `hash`) and `RequestTagEntry`.
pub record SeenEntry : Type 0 where
  pub key : List ℕ
  pub expires_ms : ℕ

pub record SeenTable : Type 0 where
  pub entries : List (Option SeenEntry)

unfoldable pub clear : SeenTable → SeenTable
clear t = record { entries = replicate (length t.entries) none }

unfoldable pub new : ℕ → SeenTable
new n = record { entries = replicate n none }

unfoldable pub has_key : List ℕ → SeenEntry → Bool
has_key key e = bytes_eq e.key key

unfoldable pub expire : SeenTable → ℕ → SeenTable
expire t now = record { entries = clear_if (λ e. leb e.expires_ms now) t.entries }

-- The write of the slot that `replacement` names.
abbrev pub store : SeenTable → SeenEntry → Option ℕ → SeenTable
store t e none = t
store t e (some idx) = record { entries = set t.entries idx (some e) }

-- `PacketHashTable::insert`
unfoldable pub insert : SeenTable → List ℕ → ℕ → ℕ → SeenTable × Bool
insert t hash expires_ms now =
    let u = expire t now in
    if any (has_key hash) u.entries then (u, false) else (
      store u (record { key = hash; expires_ms = expires_ms })
          (free_or_oldest (λ e. e.expires_ms) u.entries),
      true,
    )

-- `RequestTagTable::insert_if_new`
unfoldable pub insert_if_new : SeenTable → List ℕ → ℕ → ℕ → SeenTable × Bool
insert_if_new t key expires_ms now =
    let u = expire t now in
    if any (has_key key) u.entries then (u, false) else (
      store u (record { key = key; expires_ms = expires_ms })
          (free_or_oldest (λ e. e.expires_ms) u.entries),
      true,
    )

-- `PacketHashTable::contains`, which expires too.
unfoldable pub contains : SeenTable → List ℕ → ℕ → SeenTable × Bool
contains t hash now = let u = expire t now in (u, any (has_key hash) u.entries)
