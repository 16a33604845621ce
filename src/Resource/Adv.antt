-- ===== src/Resource/Adv.antt =====
-- The advertisement of src/resource.rs: packing, parsing, and the two extractors.
pub mod Encoding
pub mod Reading
pub mod Laws
use Prim.Native.Nat.{bit_and, bit_or}
use rs_reticulum_lite.Prelude.{
  ℕ, zero, suc, ◌+◌, ◌*◌, ◌%◌, Option, none, some, List, [], ◌∷◌, Bool, true, false, not, ◌&&◌,
  ◌||◌, if◌then◌else◌, ◌==◌, ltb, leb, length, take, replicate, is_some_and,
}
use rs_reticulum_lite.Prelude.Result.{Result, ok, err, ◌>>=◌}
use rs_reticulum_lite.PacketBuffer.{copy_from_slice}
use rs_reticulum_lite.Resource.{
  ResourceError, invalid_advertisement, too_large, maphash_len, max_parts, random_hash_size,
  request_id_max,
}
use rs_reticulum_lite.Resource.Flags.{ResourceFlags, to_byte, from_byte}
use rs_reticulum_lite.Resource.Codec.{
  MpWriter, put, put_key, put_uint, put_bin, put_nil, Read, byte, peek, uint, bin,
}

pub record ResourceAdv : Type 0 where
  pub transfer_size : ℕ
  pub data_size : ℕ
  pub num_parts : ℕ
  pub resource_hash : List ℕ
  pub random_hash : List ℕ
  pub original_hash : List ℕ
  pub segment_index : ℕ
  pub total_segments : ℕ
  pub request_id_len : ℕ
  pub request_id : List ℕ
  pub flags : ResourceFlags
  pub hashmap_len : ℕ
  pub hashmap : List ℕ

abbrev pub no_flags : ResourceFlags
no_flags = record {
  encrypted = false;
  compressed = false;
  split = false;
  is_request = false;
  is_response = false;
  has_metadata = false;
}

-- `ResourceAdv::default()`
abbrev pub default : ResourceAdv
default = record {
  transfer_size = 0;
  data_size = 0;
  num_parts = 0;
  resource_hash = replicate 32 0;
  random_hash = replicate random_hash_size 0;
  original_hash = replicate 32 0;
  segment_index = 0;
  total_segments = 0;
  request_id_len = 0;
  request_id = replicate request_id_max 0;
  flags = no_flags;
  hashmap_len = 0;
  hashmap = replicate (max_parts * maphash_len) 0;
}

-- A key and its value.
abbrev pub put_uint_at : ℕ → ℕ → MpWriter → Result ResourceError MpWriter
put_uint_at k v w = put_key w k >>= λ w. put_uint w v

abbrev pub put_bin_at : ℕ → List ℕ → MpWriter → Result ResourceError MpWriter
put_bin_at k bytes w = put_key w k >>= λ w. put_bin w bytes

abbrev pub put_id_at : ℕ → ℕ → List ℕ → MpWriter → Result ResourceError MpWriter
put_id_at k n id w = put_key w k >>= λ w. if n == 0 then put_nil w else put_bin w (take n id)

-- The keys are the letters t d n h r o i l q f m.
abbrev pub put_fields : ResourceAdv → MpWriter → Result ResourceError MpWriter
put_fields adv w =
    put w (0x8b ∷ [])
    >>= put_uint_at 116 adv.transfer_size
    >>= put_uint_at 100 adv.data_size
    >>= put_uint_at 110 adv.num_parts
    >>= put_bin_at 104 adv.resource_hash
    >>= put_bin_at 114 adv.random_hash
    >>= put_bin_at 111 adv.original_hash
    >>= put_uint_at 105 adv.segment_index
    >>= put_uint_at 108 adv.total_segments
    >>= put_id_at 113 adv.request_id_len adv.request_id
    >>= put_uint_at 102 (to_byte adv.flags)
    >>= put_bin_at 109 (take adv.hashmap_len adv.hashmap)

-- The output with what was written, and the length; after an error the output may hold a part of
-- the map, which is not modelled.
unfoldable pub pack : ResourceAdv → List ℕ → Result ResourceError (List ℕ × ℕ)
pack adv out =
    if ltb (length adv.hashmap) adv.hashmap_len || ltb (length adv.request_id) adv.request_id_len
    then err invalid_advertisement
    else put_fields adv (record { out = out; pos = 0 }) >>= λ w. ok (w.out, w.pos)

abbrev pub key_bit : ℕ → Option ℕ
key_bit k =
    if k == 116
    then some 0x001
    else if k == 100
    then some 0x002
    else if k == 110
    then some 0x004
    else if k == 104
    then some 0x008
    else if k == 114
    then some 0x010
    else if k == 111
    then some 0x020
    else if k == 105
    then some 0x040
    else if k == 108
    then some 0x080
    else if k == 113
    then some 0x100
    else if k == 102
    then some 0x200
    else if k == 109
    then some 0x400
    else none

abbrev pub ReadAdv : Type 0
ReadAdv = Read ResourceAdv

-- A binary of exactly `n` bytes.
abbrev pub exact : List ℕ → ℕ → (List ℕ → ResourceAdv) → ReadAdv
exact reader n store = bin reader >>= λ (s, rest).
    if not (length s == n) then err invalid_advertisement else ok (store s, rest)

abbrev pub read_id : ResourceAdv → List ℕ → ReadAdv
read_id adv reader =
    if is_some_and (λ b. b == 0xc0) (peek reader)
    then (byte reader >>= λ (b, rest). ok (adv, rest))
    else (bin reader >>= λ (s, rest).
        let kept : ResourceAdv = record adv {
          request_id = copy_from_slice adv.request_id 0 s;
          request_id_len = length s;
        } in
        if ltb request_id_max (length s) then err invalid_advertisement else ok (kept, rest))

abbrev pub read_flags : ResourceAdv → List ℕ → ReadAdv
read_flags adv reader = uint reader >>= λ (f, rest).
    let kept : ResourceAdv = record adv { flags = from_byte f } in
    if ltb 0xff f then err invalid_advertisement else ok (kept, rest)

abbrev pub read_hashmap : ResourceAdv → List ℕ → ReadAdv
read_hashmap adv reader = bin reader >>= λ (s, rest).
    let sized : ResourceAdv = record adv { hashmap_len = length s } in
    let kept : ResourceAdv = record sized { hashmap = copy_from_slice adv.hashmap 0 s } in
    if not (length s % maphash_len == 0)
    then err invalid_advertisement
    else if leb (length s) (max_parts * maphash_len)
    then ok (kept, rest)
    else ok (sized, rest)

-- The value of the key `k`, which `key_bit` knows.
unfoldable pub read_value : ResourceAdv → ℕ → List ℕ → ReadAdv
read_value adv k reader =
    if k == 116
    then (uint reader >>= λ (v, rest). ok (record adv { transfer_size = v }, rest))
    else if k == 100
    then (uint reader >>= λ (v, rest). ok (record adv { data_size = v }, rest))
    else if k == 110
    then (uint reader >>= λ (v, rest). ok (record adv { num_parts = v }, rest))
    else if k == 104
    then exact reader 32 (λ s. record adv { resource_hash = s })
    else if k == 114
    then exact reader random_hash_size (λ s. record adv { random_hash = s })
    else if k == 111
    then exact reader 32 (λ s. record adv { original_hash = s })
    else if k == 105
    then (uint reader >>= λ (v, rest). ok (record adv { segment_index = v }, rest))
    else if k == 108
    then (uint reader >>= λ (v, rest). ok (record adv { total_segments = v }, rest))
    else if k == 113
    then read_id adv reader
    else if k == 102
    then read_flags adv reader
    else read_hashmap adv reader

-- The bit of a key that was not seen before.
abbrev pub fresh_bit : ℕ → ℕ → Result ResourceError ℕ
fresh_bit k seen = elim (key_bit k) [
  | none ↦ err invalid_advertisement
  | some bit ↦ if not (bit_and seen bit == 0) then err invalid_advertisement else ok bit
]

-- `n` rounds of the loop over the entries; what is left unread is dropped.
unfoldable pub read_entries : ℕ → ResourceAdv → ℕ → List ℕ → Result ResourceError ResourceAdv
read_entries zero adv seen reader = ok adv
read_entries (suc n) adv seen reader = byte reader >>= λ (head, reader).
    if not (head == 0xa1)
    then err invalid_advertisement
    else (byte reader >>= λ (k, reader). fresh_bit k seen >>= λ bit.
        read_value adv k reader >>= λ (adv, reader). read_entries n adv (bit_or seen bit) reader)

unfoldable pub parse_bounded : List ℕ → Result ResourceError ResourceAdv
parse_bounded bytes = byte bytes >>= λ (head, reader).
    if not (leb 0x80 head && leb head 0x8f) || not (bit_and head 0x0f == 11)
    then err invalid_advertisement
    else read_entries 11 default 0 reader

unfoldable pub parse : List ℕ → Result ResourceError ResourceAdv
parse bytes = parse_bounded bytes >>= λ adv.
    if ltb (max_parts * maphash_len) adv.hashmap_len then err too_large else ok adv

unfoldable pub rejection_hash : List ℕ → Result ResourceError (List ℕ)
rejection_hash bytes = parse_bounded bytes >>= λ adv. ok adv.resource_hash

unfoldable pub response_id : List ℕ → Result ResourceError (List ℕ)
response_id bytes = parse_bounded bytes >>= λ adv.
    if not adv.flags.is_response || (adv.flags.is_request || not (adv.request_id_len == 16))
    then err invalid_advertisement
    else ok (take 16 adv.request_id)
