-- ===== src/Known/Blob.antt =====
-- The stored form of src/known_destinations.rs: `export_into` and `import`.
pub mod Laws
use rs_reticulum_lite.Prelude.{
  ℕ, zero, suc, ◌+◌, ◌-◌, ◌*◌, ◌%◌, ◌^◌, min, List, [], ◌∷◌, ◌++◌, Bool, true, false, not, ◌||◌,
  if◌then◌else◌, ◌==◌, ltb, length, take, drop, replicate, get_or,
}
use rs_reticulum_lite.Prelude.Bytes.{bytes_eq, to_be_bytes, from_be_bytes}
use rs_reticulum_lite.Prelude.Result.{Result, ok, err, ◌>>=◌}
use rs_reticulum_lite.PacketBuffer.{copy_from_slice}
use rs_reticulum_lite.Known.{
  KnownDestination, KnownDestinations, KnownDestinationError, output_too_small, invalid_header,
  unsupported_version, count_too_large, invalid_length, destination_hash_mismatch,
  duplicate_destination, empty_entry, live, delivery_destination_hash,
}

abbrev pub blob_magic : List ℕ
blob_magic = 82 ∷ 75 ∷ 68 ∷ 49 ∷ []

abbrev pub blob_version : ℕ
blob_version = 1

abbrev pub blob_header_len : ℕ
blob_header_len = 7

abbrev pub entry_len : ℕ
entry_len = 88

abbrev pub entry_bytes : KnownDestination → List ℕ
entry_bytes e = e.destination_hash ++ (e.public_key ++ to_be_bytes 8 e.last_seen)

unfoldable pub entries_bytes : List KnownDestination → List ℕ
entries_bytes [] = []
entries_bytes (e ∷ es) = entry_bytes e ++ entries_bytes es

-- `self.len as u16` wraps. The output with the blob at its front, and the length of the blob.
unfoldable pub export_into : KnownDestinations → List ℕ → List ℕ × Result KnownDestinationError ℕ
export_into t out =
    let needed : ℕ = blob_header_len + t.len * entry_len in
    let header : List ℕ = blob_magic ++ (blob_version ∷ to_be_bytes 2 (t.len % 2 ^ 16)) in
    if ltb (length out) needed
    then (out, err output_too_small)
    else (copy_from_slice out 0 (header ++ entries_bytes (live t)), ok needed)

abbrev pub field : List ℕ → ℕ → ℕ → List ℕ
field blob pos n = take n (drop pos blob)

unfoldable pub decode_entry : List ℕ → ℕ → ℕ → KnownDestination
decode_entry blob index now =
    let pos : ℕ = blob_header_len + index * entry_len in
    record {
      destination_hash = field blob pos 16;
      public_key = field blob (pos + 16) 64;
      last_seen = min (from_be_bytes (field blob (pos + 80) 8)) now;
    }

-- `for prior in 0..n`: whether an earlier entry has the destination.
unfoldable pub is_duplicate : List ℕ → ℕ → List ℕ → ℕ → Bool
is_duplicate blob now destination zero = false
is_duplicate blob now destination (suc n) =
    bytes_eq (decode_entry blob n now).destination_hash destination
    || is_duplicate blob now destination n

-- The entries of `n` indices from `index` on.
unfoldable pub decode_all : List ℕ → ℕ → ℕ → ℕ → List KnownDestination
decode_all blob now index zero = []
decode_all blob now index (suc n) = decode_entry blob index now ∷ decode_all blob now (index + 1) n

-- The checks of the header give the count.
unfoldable pub read_count : KnownDestinations → List ℕ → Result KnownDestinationError ℕ
read_count t blob =
    let count : ℕ = from_be_bytes (get_or blob 5 0 ∷ get_or blob 6 0 ∷ []) in
    if ltb (length blob) blob_header_len || not (bytes_eq (take 4 blob) blob_magic)
    then err invalid_header
    else if not (get_or blob 4 0 == blob_version)
    then err unsupported_version
    else if ltb (length t.entries) count
    then err count_too_large
    else if not (length blob == blob_header_len + count * entry_len)
    then err invalid_length
    else ok count

abbrev pub import_validated :
    KnownDestinations
    → List ℕ
    → ℕ
    → ℕ
    → Result KnownDestinationError (Unit {0})
    → KnownDestinations × Result KnownDestinationError (Unit {0})
import_validated t blob now count (err e) = (t, err e)
import_validated t blob now count (ok u) = (
  record {
    entries = decode_all blob now 0 count ++ replicate (length t.entries - count) empty_entry;
    len = count;
  },
  ok tt,
)

module _ (sha256 : List ℕ → List ℕ) where
  -- The loop that validates, over `n` indices from `index` on.
  unfoldable pub validate : List ℕ → ℕ → ℕ → ℕ → Result KnownDestinationError (Unit {0})
  validate blob now index zero = ok tt
  validate blob now index (suc n) =
      let e : KnownDestination = decode_entry blob index now in
      let rest = validate blob now (index + 1) n in
      if not (bytes_eq (delivery_destination_hash sha256 e.public_key) e.destination_hash)
      then err destination_hash_mismatch
      else if is_duplicate blob now e.destination_hash index
      then err duplicate_destination
      else rest

  abbrev pub import_counted :
      KnownDestinations
      → List ℕ
      → ℕ
      → Result KnownDestinationError ℕ
      → KnownDestinations × Result KnownDestinationError (Unit {0})
  import_counted t blob now (err e) = (t, err e)
  import_counted t blob now (ok count) =
      import_validated t blob now count (validate blob now 0 count)

  unfoldable pub import_blob :
      KnownDestinations → List ℕ → ℕ → KnownDestinations × Result KnownDestinationError (Unit {0})
  import_blob t blob now = import_counted t blob now (read_count t blob)
