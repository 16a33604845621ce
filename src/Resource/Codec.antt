-- ===== src/Resource/Codec.antt =====
-- The msgpack codec of src/resource.rs. `checked_add` of two lengths of slices in memory does not
-- overflow a usize, so that the comparison behind it decides. A reader is the bytes from its `pos`
-- on.
pub mod Laws
use rs_reticulum_lite.Prelude.{
  ℕ, ◌+◌, ◌%◌, ◌^◌, Option, none, some, List, [], ◌∷◌, if◌then◌else◌, ◌==◌, ltb, leb, length, take,
  drop,
}
use rs_reticulum_lite.Prelude.Words.{u32_max}
use rs_reticulum_lite.Prelude.Bytes.{to_be_bytes, from_be_bytes}
use rs_reticulum_lite.Prelude.Result.{Result, ok, err, ◌>>=◌}
use rs_reticulum_lite.PacketBuffer.{copy_from_slice}
use rs_reticulum_lite.Resource.{ResourceError, output_too_small, too_large, invalid_advertisement}

pub record MpWriter : Type 0 where
  pub out : List ℕ
  pub pos : ℕ

unfoldable pub put : MpWriter → List ℕ → Result ResourceError MpWriter
put w bytes =
    if ltb (length w.out) (w.pos + length bytes)
    then err output_too_small
    else ok (record { out = copy_from_slice w.out w.pos bytes; pos = w.pos + length bytes })

unfoldable pub put_key : MpWriter → ℕ → Result ResourceError MpWriter
put_key w k = put w (0xa1 ∷ k ∷ [])

-- The casts `as u8` and `as u16` keep the values, which the tests bound.
abbrev pub uint_bytes : ℕ → List ℕ
uint_bytes v =
    if ltb v 0x80
    then v ∷ []
    else if leb v 0xff
    then 0xcc ∷ v ∷ []
    else if leb v 0xffff
    then 0xcd ∷ to_be_bytes 2 v
    else 0xce ∷ to_be_bytes 4 v

unfoldable pub put_uint : MpWriter → ℕ → Result ResourceError MpWriter
put_uint w v = put w (uint_bytes v)

unfoldable pub put_bin : MpWriter → List ℕ → Result ResourceError MpWriter
put_bin w bytes =
    if leb (length bytes) 0xff
    then (put w (0xc4 ∷ length bytes ∷ []) >>= λ w. put w bytes)
    else if leb (length bytes) 0xffff
    then (put w (0xc5 ∷ to_be_bytes 2 (length bytes)) >>= λ w. put w bytes)
    else err too_large

unfoldable pub put_nil : MpWriter → Result ResourceError MpWriter
put_nil w = put w (0xc0 ∷ [])

-- What a read returns: its value and the reader behind it.
abbrev pub Read : Type 0 → Type 0
Read A = Result ResourceError (A × List ℕ)

unfoldable pub byte : List ℕ → Read ℕ
byte [] = err invalid_advertisement
byte (b ∷ rest) = ok (b, rest)

unfoldable pub peek : List ℕ → Option ℕ
peek [] = none
peek (b ∷ rest) = some b

unfoldable pub take_bytes : List ℕ → ℕ → Read (List ℕ)
take_bytes reader n =
    if ltb (length reader) n then err invalid_advertisement else ok (take n reader, drop n reader)

-- A big-endian word of `n` bytes.
abbrev pub word : List ℕ → ℕ → Read ℕ
word reader n = take_bytes reader n >>= λ (s, rest). ok (from_be_bytes s, rest)

unfoldable pub uint : List ℕ → Read ℕ
uint reader = byte reader >>= λ (b, rest).
    if ltb b 0x80
    then ok (b, rest)
    else if b == 0xcc
    then byte rest
    else if b == 0xcd
    then word rest 2
    else if b == 0xce
    then word rest 4
    else if b == 0xcf
    then (word rest 8 >>= λ (v, rest). if leb v u32_max then ok (v, rest) else err too_large)
    else err invalid_advertisement

unfoldable pub bin : List ℕ → Read (List ℕ)
bin reader = byte reader >>= λ (b, rest).
    if b == 0xc4
    then (byte rest >>= λ (n, rest). take_bytes rest n)
    else if b == 0xc5
    then (word rest 2 >>= λ (n, rest). take_bytes rest n)
    else err invalid_advertisement
