-- ===== src/Resource/Adv/Laws.antt =====
-- The round trip of an advertisement of src/resource.rs, and what parsing any bytes ensures.
use rs_reticulum_lite.Prelude.{
  ℕ, ◌+◌, ◌≤◌, ◌<◌, ◌≡◌, refl, ap, ◌∙◌, List, [], ◌∷◌, ◌++◌, append_assoc, arith, ◌==◌, ltb, length,
  take, length-append, length-take, false, Bool-cases, inl, inr, le→leb, lt→ltb,
}
use rs_reticulum_lite.Prelude.Bytes.{length-to_be_bytes}
use rs_reticulum_lite.Prelude.Result.{Result, ok, err}
use rs_reticulum_lite.Resource.{ResourceError}
use rs_reticulum_lite.Resource.Flags.{to_byte, to_byte-lt}
use rs_reticulum_lite.Resource.Codec.{uint_bytes, byte}
use rs_reticulum_lite.Resource.Codec.Laws.{bin_bytes}
use rs_reticulum_lite.Resource.Adv.{ResourceAdv, pack, parse, parse_bounded}
use rs_reticulum_lite.Resource.Adv.Encoding.{
  IsCanonical, uint_entry, bin_entry, id_entry, id_bytes, encoding, Packed, pack-Packed,
}
use rs_reticulum_lite.Resource.Adv.Reading.{entries, read_entries-entries}

abbrev pub adv_packed_max : ℕ
adv_packed_max = 192

encoding-entries :
    (adv : ResourceAdv) (rest : List ℕ) → encoding adv ++ rest ≡ 0x8b ∷ entries adv rest
unfolding entries
encoding-entries adv rest = simp append_assoc

parse_bounded-encoding :
    (adv : ResourceAdv) (rest : List ℕ)
    → IsCanonical adv
    → parse_bounded (encoding adv ++ rest) ≡ ok adv
unfolding parse_bounded byte
parse_bounded-encoding adv rest c =
    ap parse_bounded (encoding-entries adv rest) ∙ read_entries-entries adv rest c

pub parse-encoding :
    (adv : ResourceAdv) (rest : List ℕ) → IsCanonical adv → parse (encoding adv ++ rest) ≡ ok adv
unfolding parse
parse-encoding adv rest c =
    let fits : ltb 32 adv.hashmap_len ≡ false = fit adv.hashmap_len c.hashmap_len in
    rw (parse_bounded-encoding adv rest c, fits) refl
  where
    fit : (n : ℕ) → n ≤ 32 → ltb 32 n ≡ false
    fit n h = ground arith

length-uint_bytes : (v : ℕ) → length (uint_bytes v) ≤ 5
length-uint_bytes v = ground (arith, length-to_be_bytes 2 v, length-to_be_bytes 4 v)

length-bin_bytes : (s : List ℕ) → length s ≤ 32 → length (bin_bytes s) ≡ 2 + length s
length-bin_bytes s h = rw (le→leb (length s) 0xff (omega arith)) (omega arith)

length-id_bytes : (n : ℕ) (id : List ℕ) → n ≤ 32 → length (id_bytes n id) ≤ 34
length-id_bytes n id h = elim (Bool-cases (n == 0)) [
  | inl t ↦ rw t (omega arith)
  | inr f ↦
      let size = length-take n id in
      let whole = length-bin_bytes (take n id) (omega (arith, size)) in
      rw f (omega (arith, whole, size))
]

length-flags : (v : ℕ) → v < 64 → length (uint_bytes v) ≡ 1
length-flags v h = rw (lt→ltb v 0x80 (omega arith)) refl

length_twelve :
    (x0 x1 x2 x3 x4 x5 x6 x7 x8 x9 x10 x11 : List ℕ)
    → length (x0 ++ x1 ++ x2 ++ x3 ++ x4 ++ x5 ++ x6 ++ x7 ++ x8 ++ x9 ++ x10 ++ x11)
      ≡ length x0
        + length x1
        + length x2
        + length x3
        + length x4
        + length x5
        + length x6
        + length x7
        + length x8
        + length x9
        + length x10
        + length x11
length_twelve x0 x1 x2 x3 x4 x5 x6 x7 x8 x9 x10 x11 = simp length-append

-- A canonical advertisement takes at most 192 bytes.
length-encoding : (adv : ResourceAdv) → IsCanonical adv → length (encoding adv) ≤ adv_packed_max
length-encoding adv c =
    let hashes : List ℕ = take adv.hashmap_len adv.hashmap in
    let map_size : length hashes ≤ 32 =
      omega (arith, length-take adv.hashmap_len adv.hashmap, c.hashmap_len) in
    omega (
      arith,
      length_twelve (0x8b ∷ []) (uint_entry 116 adv.transfer_size) (uint_entry 100 adv.data_size)
          (uint_entry 110 adv.num_parts) (bin_entry 104 adv.resource_hash)
          (bin_entry 114 adv.random_hash) (bin_entry 111 adv.original_hash)
          (uint_entry 105 adv.segment_index) (uint_entry 108 adv.total_segments)
          (id_entry adv.request_id_len adv.request_id) (uint_entry 102 (to_byte adv.flags))
          (bin_entry 109 hashes),
      length-uint_bytes adv.transfer_size,
      length-uint_bytes adv.data_size,
      length-uint_bytes adv.num_parts,
      length-bin_bytes adv.resource_hash (omega (arith, c.resource_hash)),
      c.resource_hash,
      length-bin_bytes adv.random_hash (omega (arith, c.random_hash)),
      c.random_hash,
      length-bin_bytes adv.original_hash (omega (arith, c.original_hash)),
      c.original_hash,
      length-uint_bytes adv.segment_index,
      length-uint_bytes adv.total_segments,
      length-id_bytes adv.request_id_len adv.request_id c.request_id_len,
      length-flags (to_byte adv.flags) (to_byte-lt adv.flags),
      length-bin_bytes hashes map_size,
      map_size,
    )

-- What `pack` and then `parse` give: the advertisement, with `rest` behind what was packed.
abbrev pub Returned : ResourceAdv → List ℕ → Result ResourceError (List ℕ × ℕ) → Type 0
Returned adv rest (err e) = ⊥
Returned adv rest (ok (o, n)) = (n ≤ adv_packed_max) × (parse (take n o ++ rest) ≡ ok adv)

-- An advertisement with words of 32 bits, hashes of their lengths, whole map hashes and zeros
-- behind them is packed into any output of 192 bytes or more, and what is packed, with any bytes
-- behind it, is parsed to the same advertisement.
pub parse-pack :
    (adv : ResourceAdv) (out rest : List ℕ)
    → IsCanonical adv
    → adv_packed_max ≤ length out
    → Returned adv rest (pack adv out)
parse-pack adv out rest c room = returned (pack adv out) (pack-Packed adv out c)
  where
    returned : (r : Result ResourceError (List ℕ × ℕ)) → Packed adv out r → Returned adv rest r
    returned (err e) (too_small, short) = absurd (omega (arith, length-encoding adv c, short, room))
    returned (ok (o, n)) (size, kept, bytes) = (
      omega (arith, size, length-encoding adv c),
      ap (λ z. parse (z ++ rest)) bytes ∙ parse-encoding adv rest c,
    )
