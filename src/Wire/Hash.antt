-- ===== src/Wire/Hash.antt =====
-- The hashes of src/wire.rs: the bytes of a packet that count, and what SHA-256 makes of them.
pub mod Laws
use Prim.Native.Nat.{bit_and}
use rs_reticulum_lite.Prelude.{
  ℕ, ◌+◌, min, List, [], ◌∷◌, ◌++◌, if◌then◌else◌, ltb, length, get_or, take, drop, replicate,
}
use rs_reticulum_lite.Wire.Flags.{HeaderType, header1, header2}
use rs_reticulum_lite.Wire.Header.{size_of, transport_id_length}

abbrev pub packet_hash_length : ℕ
packet_hash_length = 32

abbrev pub link_request_key_bytes : ℕ
link_request_key_bytes = 64

abbrev pub skip_of : HeaderType → ℕ
skip_of header1 = 2
skip_of header2 = 2 + transport_id_length

-- The bytes that `packet_hash` feeds to the hasher.
unfoldable pub packet_hash_input : List ℕ → HeaderType → List ℕ
packet_hash_input raw t =
    bit_and (get_or raw 0 0) 0x0f
    ∷ (if ltb (skip_of t) (length raw) then drop (skip_of t) raw else [])

-- The bytes that `link_id_from_raw` feeds to the hasher: `raw[start..end]` and the keys behind it.
abbrev pub link_id_tail : List ℕ → ℕ → ℕ → List ℕ
link_id_tail raw start size =
    let header_end : ℕ = min size (length raw) in
    let payload : List ℕ = drop header_end raw in
    drop start (take header_end raw) ++ take (min (length payload) link_request_key_bytes) payload

unfoldable pub link_id_input : List ℕ → HeaderType → List ℕ
link_id_input raw t =
    bit_and (get_or raw 0 0) 0x0f
    ∷ (if ltb (skip_of t) (length raw) then link_id_tail raw (skip_of t) (size_of t) else [])

-- The hasher of the sha2 crate is a parameter: what it returns for the bytes fed to it.
module _ (sha256 : List ℕ → List ℕ) where
  unfoldable pub truncated_hash : List ℕ → List ℕ
  truncated_hash bytes = take transport_id_length (sha256 bytes)

  unfoldable pub packet_hash : List ℕ → HeaderType → List ℕ
  packet_hash [] t = replicate packet_hash_length 0
  packet_hash (b ∷ bs) t = sha256 (packet_hash_input (b ∷ bs) t)

  unfoldable pub truncated_packet_hash : List ℕ → HeaderType → List ℕ
  truncated_packet_hash raw t = take transport_id_length (packet_hash raw t)

  unfoldable pub link_id_from_raw : List ℕ → HeaderType → List ℕ
  link_id_from_raw [] t = replicate transport_id_length 0
  link_id_from_raw (b ∷ bs) t = take transport_id_length (sha256 (link_id_input (b ∷ bs) t))
