-- ===== src/Wire/Hash/Laws.antt =====
-- The bytes that the hashes of src/wire.rs read, by the fields of the header.
use Prim.Native.Nat.{bit_and}
use rs_reticulum_lite.Prelude.{
  ℕ, ◌+◌, ◌*◌, ◌≤◌, ◌<◌, min, ◌≡◌, refl, ap, ap₂, sym, ◌∙◌, List, [], ◌∷◌, ◌++◌, append_assoc,
  append-nil, take_all, leb, Bool-cases, inl, inr, Option, none, some, true, ltb, arith, length,
  take, drop, length-append, take-append, drop-append,
}
use rs_reticulum_lite.Wire.Flags.{
  PacketFlags, HeaderType, header1, header2, pack, destination_bits, packet_bits,
}
use rs_reticulum_lite.Wire.Context.{to_byte}
use rs_reticulum_lite.Wire.Header.{PacketHeader, size_of, size}
use rs_reticulum_lite.Wire.Header.RoundTrip.{
  header_bytes, id_bytes, HasForm, IsWellFormed, length-header_bytes,
}
use rs_reticulum_lite.Wire.Hash.{
  packet_hash_input, link_id_input, link_id_tail, packet_hash, link_id_from_raw, skip_of,
  link_request_key_bytes,
}

-- The part of the flags byte that a hop does not change.
abbrev pub nibble : PacketFlags → ℕ
nibble f = destination_bits f.destination_type * 4 + packet_bits f.packet_type

pack-nibble : (f : PacketFlags) → bit_and (pack f) 0x0f ≡ nibble f
unfolding pack
pack-nibble f = ground arith

-- The part of the header that a hop does not change.
abbrev pub addressed : PacketHeader → List ℕ
addressed h = h.destination_hash ++ (to_byte h.context ∷ [])

drop-header_bytes :
    (h : PacketHeader) (payload : List ℕ)
    → IsWellFormed h
    → drop (skip_of h.flags.header_type) (header_bytes h ++ payload) ≡ addressed h ++ payload
unfolding header_bytes
drop-header_bytes h payload w = by_form h.flags.header_type h.transport_id w.form
  where
    by_form :
        (t : HeaderType) (id : Option (List ℕ))
        → HasForm t id
        → drop (skip_of t) (pack h.flags ∷ h.hops ∷ ((id_bytes id ++ addressed h) ++ payload))
          ≡ addressed h ++ payload
    by_form header1 none f = refl
    by_form header2 (some id) f =
        ap (drop 16) (append_assoc id (addressed h) payload)
        ∙ drop-append 16 id (addressed h ++ payload) f
    by_form header1 (some id) f = absurd f
    by_form header2 none f = absurd f

-- The test on the length of the packet holds.
is_long :
    (h : PacketHeader) (payload : List ℕ)
    → IsWellFormed h
    → ltb (skip_of h.flags.header_type) (length (header_bytes h ++ payload)) ≡ true
unfolding size
is_long h payload w = ground (
  arith,
  length-append (header_bytes h) payload,
  length-header_bytes h w,
  skip_lt h.flags.header_type,
)
  where
    skip_lt : (t : HeaderType) → skip_of t < size_of t
    skip_lt header1 = omega arith
    skip_lt header2 = omega arith

packet_hash-header_bytes :
    (sha256 : List ℕ → List ℕ) (h : PacketHeader) (payload : List ℕ)
    → IsWellFormed h
    → packet_hash sha256 (header_bytes h ++ payload) h.flags.header_type
      ≡ sha256 (nibble h.flags ∷ (addressed h ++ payload))
unfolding packet_hash packet_hash_input header_bytes
packet_hash-header_bytes sha256 h payload w =
    rw (is_long h payload w, drop-header_bytes h payload w, pack-nibble h.flags) refl

-- The headers of one packet before and after a hop: what they address is the same.
pub record SameAddress (a b : PacketHeader) : Type 0 where
  pub same_nibble : nibble a.flags ≡ nibble b.flags
  pub same_fields : addressed a ≡ addressed b

-- A packet keeps its hash on its way: between well-formed headers of one address, the hash depends
-- on neither the hop count, the transport identity nor the form of the header, for every hash
-- function.
pub packet_hash-hop :
    (sha256 : List ℕ → List ℕ) (a b : PacketHeader) (payload : List ℕ)
    → IsWellFormed a
    → IsWellFormed b
    → SameAddress a b
    → packet_hash sha256 (header_bytes a ++ payload) a.flags.header_type
      ≡ packet_hash sha256 (header_bytes b ++ payload) b.flags.header_type
packet_hash-hop sha256 a b payload wa wb s =
    packet_hash-header_bytes sha256 a payload wa
    ∙ ap₂ (λ n l. sha256 (n ∷ (l ++ payload))) s.same_nibble s.same_fields
    ∙ sym (packet_hash-header_bytes sha256 b payload wb)

take-min : (k : ℕ) (xs : List ℕ) → take (min (length xs) k) xs ≡ take k xs
take-min k xs = elim (Bool-cases (leb (length xs) k)) [
  | inl t ↦
      let fits : length xs ≤ k = ground arith in
      rw (take_all k xs fits) (take_all (min (length xs) k) xs (omega arith))
  | inr f ↦ let over : k < length xs = ground arith in ap (λ n. take n xs) (omega arith)
]

link_id_tail-header_bytes :
    (h : PacketHeader) (payload : List ℕ)
    → IsWellFormed h
    → link_id_tail (header_bytes h ++ payload) (skip_of h.flags.header_type) (size h)
      ≡ addressed h ++ take link_request_key_bytes payload
link_id_tail-header_bytes h payload w =
    let n = length-header_bytes h w in
    let end : min (size h) (length (header_bytes h ++ payload)) ≡ size h =
      omega (arith, length-append (header_bytes h) payload, n) in
    let front : drop (skip_of h.flags.header_type) (header_bytes h) ≡ addressed h =
      ap (drop (skip_of h.flags.header_type)) (sym (append-nil (header_bytes h)))
      ∙ drop-header_bytes h [] w
      ∙ append-nil (addressed h) in
    rw
      (
        end,
        take-append (size h) (header_bytes h) payload n,
        drop-append (size h) (header_bytes h) payload n,
        front,
        take-min link_request_key_bytes payload,
      )
      refl

link_id-header_bytes :
    (sha256 : List ℕ → List ℕ) (h : PacketHeader) (payload : List ℕ)
    → IsWellFormed h
    → link_id_from_raw sha256 (header_bytes h ++ payload) h.flags.header_type
      ≡ take 16 (sha256 (nibble h.flags ∷ (addressed h ++ take link_request_key_bytes payload)))
unfolding link_id_from_raw link_id_input header_bytes size
link_id-header_bytes sha256 h payload w =
    rw (is_long h payload w, link_id_tail-header_bytes h payload w, pack-nibble h.flags) refl

-- From a link request with well-formed headers of one address, all compute one link identifier,
-- whatever the hop count, the form of the header and the bytes behind the 64 of the keys.
pub link_id-hop :
    (sha256 : List ℕ → List ℕ) (a b : PacketHeader) (keys rest rest' : List ℕ)
    → IsWellFormed a
    → IsWellFormed b
    → SameAddress a b
    → length keys ≡ link_request_key_bytes
    → link_id_from_raw sha256 (header_bytes a ++ (keys ++ rest)) a.flags.header_type
      ≡ link_id_from_raw sha256 (header_bytes b ++ (keys ++ rest')) b.flags.header_type
link_id-hop sha256 a b keys rest rest' wa wb s n =
    let keys_of = λ (r : List ℕ). take-append link_request_key_bytes keys r n in
    link_id-header_bytes sha256 a (keys ++ rest) wa
    ∙ ap₂ (λ m l. take 16 (sha256 (m ∷ (l ++ take link_request_key_bytes (keys ++ rest)))))
        s.same_nibble s.same_fields
    ∙ ap (λ k. take 16 (sha256 (nibble b.flags ∷ (addressed b ++ k))))
        (keys_of rest ∙ sym (keys_of rest'))
    ∙ sym (link_id-header_bytes sha256 b (keys ++ rest') wb)
