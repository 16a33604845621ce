-- ===== src/Wire/Header/RoundTrip.antt =====
-- The bytes of a packet header, as `write_into` of src/wire.rs appends them and `parse` reads them.
use rs_reticulum_lite.Prelude.{
  ℕ, zero, suc, ◌+◌, ◌≤◌, ◌≡◌, refl, sym, ap, ◌∙◌, List, [], ◌∷◌, ◌++◌, append_assoc, append-nil,
  Option, none, some, false, ltb, arith, length, get_or, take, drop, length-append, take-append,
  drop-append,
}
use rs_reticulum_lite.Prelude.Result.{ok}
use rs_reticulum_lite.PacketBuffer.{PacketBuffer, push, extend_from_slice, as_slice}
use rs_reticulum_lite.PacketBuffer.Laws.{
  IsValid, Appended, push-Appended, extend_from_slice-Appended, Appended->>=,
}
use rs_reticulum_lite.Wire.Flags.{PacketFlags, HeaderType, header1, header2, pack, unpack-pack}
use rs_reticulum_lite.Wire.Context.{PacketContext, to_byte, IsCanonical}
use rs_reticulum_lite.Wire.Header.{
  PacketHeader, size_of, size, mtu, header_minsize, header_maxsize, parse, parse_fields, write_into,
  write_transport_id,
}

abbrev pub id_bytes : Option (List ℕ) → List ℕ
id_bytes none = []
id_bytes (some id) = id

-- The fields in their order on the wire.
unfoldable pub header_bytes : PacketHeader → List ℕ
header_bytes h =
    pack h.flags
    ∷ h.hops
    ∷ (id_bytes h.transport_id ++ (h.destination_hash ++ (to_byte h.context ∷ [])))

-- The transport identity stands in the second form of the header only.
abbrev pub HasForm : HeaderType → Option (List ℕ) → Type 0
HasForm header1 none = Unit
HasForm header1 (some id) = ⊥
HasForm header2 none = ⊥
HasForm header2 (some id) = length id ≡ 16

pub record IsWellFormed (h : PacketHeader) : Type 0 where
  pub form : HasForm h.flags.header_type h.transport_id
  pub hash_length : length h.destination_hash ≡ 16
  pub canonical : IsCanonical h.context

write_transport_id-Appended :
    (id : Option (List ℕ)) (b : PacketBuffer)
    → IsValid b
    → Appended b (id_bytes id) (write_transport_id id b)
write_transport_id-Appended none b v =
    (omega (arith, v.fits), v, refl, sym (append-nil (as_slice b)))
write_transport_id-Appended (some id) b v = extend_from_slice-Appended b id v

-- `write_into` appends exactly the bytes of the header to a valid buffer, and fails exactly where
-- they do not fit.
pub write_into-Appended :
    (h : PacketHeader) (out : PacketBuffer)
    → IsValid out
    → Appended out (header_bytes h) (write_into h out)
unfolding header_bytes write_into
write_into-Appended h out v =
    let last : List ℕ = h.destination_hash ++ (to_byte h.context ∷ []) in
    Appended->>= out (pack h.flags ∷ []) (h.hops ∷ (id_bytes h.transport_id ++ last))
      (push out (pack h.flags)) _ v (push-Appended out (pack h.flags) v)
      (λ a va.
        Appended->>= a (h.hops ∷ []) (id_bytes h.transport_id ++ last) (push a h.hops) _ va
          (push-Appended a h.hops va)
          (λ b vb.
            Appended->>= b (id_bytes h.transport_id) last (write_transport_id h.transport_id b) _ vb
              (write_transport_id-Appended h.transport_id b vb)
              (λ c vc.
                Appended->>= c h.destination_hash (to_byte h.context ∷ [])
                  (extend_from_slice c h.destination_hash) _ vc
                  (extend_from_slice-Appended c h.destination_hash vc)
                  (λ d vd. push-Appended d (to_byte h.context) vd))))

pub length-header_bytes : (h : PacketHeader) → IsWellFormed h → length (header_bytes h) ≡ size h
unfolding header_bytes size
length-header_bytes h w = by_form h.flags.header_type h.transport_id w.form
  where
    tail : length (h.destination_hash ++ (to_byte h.context ∷ [])) ≡ 17
    tail = omega (arith, length-append h.destination_hash (to_byte h.context ∷ []), w.hash_length)

    by_form :
        (t : HeaderType) (id : Option (List ℕ))
        → HasForm t id
        → suc (suc (length (id_bytes id ++ (h.destination_hash ++ (to_byte h.context ∷ [])))))
          ≡ size_of t
    by_form header1 none f = omega (arith, tail)
    by_form header2 (some id) f =
        omega (arith, tail, f, length-append id (h.destination_hash ++ (to_byte h.context ∷ [])))
    by_form header1 (some id) f = absurd f
    by_form header2 none f = absurd f

-- The index is a variable with an equation, so that a numeral fits.
get_or-append :
    (n k i : ℕ) (xs ys : List ℕ) → length xs ≡ n → i ≡ n + k → get_or (xs ++ ys) i 0 ≡ get_or ys k 0
get_or-append zero k i [] ys h e = ap (λ j. get_or ys j 0) (omega arith)
get_or-append zero k i (x ∷ xs) ys h e = absurd (omega arith)
get_or-append (suc n) k i [] ys h e = absurd (omega arith)
get_or-append (suc n) k zero (x ∷ xs) ys h e = absurd (omega arith)
get_or-append (suc n) k (suc i) (x ∷ xs) ys h e =
    get_or-append n k i xs ys (omega arith) (omega arith)

slice-append : (xs ys zs : List ℕ) → length xs ≡ 16 → take 16 ((xs ++ ys) ++ zs) ≡ xs
slice-append xs ys zs h = ap (take 16) (append_assoc xs ys zs) ∙ take-append 16 xs (ys ++ zs) h

-- The arms of `parse` read the fields back.
parse_fields-fields :
    (f : PacketFlags) (hops : ℕ) (id : Option (List ℕ)) (hash : List ℕ) (c : PacketContext)
    (rest : List ℕ)
    → HasForm f.header_type id
    → length hash ≡ 16
    → IsCanonical c
    → parse_fields f.header_type
        (pack f ∷ hops ∷ ((id_bytes id ++ (hash ++ (to_byte c ∷ []))) ++ rest))
      ≡ ok (
        record { flags = f; hops = hops; transport_id = id; destination_hash = hash; context = c },
        size_of f.header_type,
      )
parse_fields-fields f hops id hash c rest form n canonical = by_form f.header_type id form
  where
    context_byte : get_or ((hash ++ (to_byte c ∷ [])) ++ rest) 16 0 ≡ to_byte c
    context_byte =
        ap (λ s. get_or s 16 0) (append_assoc hash (to_byte c ∷ []) rest)
        ∙ get_or-append 16 0 16 hash (to_byte c ∷ rest) n (omega arith)

    by_form :
        (t : HeaderType) (id : Option (List ℕ))
        → HasForm t id
        → parse_fields t (pack f ∷ hops ∷ ((id_bytes id ++ (hash ++ (to_byte c ∷ []))) ++ rest))
          ≡ ok (
            record {
              flags = f;
              hops = hops;
              transport_id = id;
              destination_hash = hash;
              context = c;
            },
            size_of t,
          )
    by_form header1 none g =
        rw (unpack-pack f, slice-append hash (to_byte c ∷ []) rest n, context_byte, canonical) refl
    by_form header2 (some id) g =
        let fields : List ℕ = hash ++ (to_byte c ∷ []) in
        let long : ltb (length (pack f ∷ hops ∷ ((id ++ fields) ++ rest))) header_maxsize ≡ false =
          ground (
            arith,
            length-append (id ++ fields) rest,
            length-append id fields,
            length-append hash (to_byte c ∷ []),
          ) in
        let second : drop 16 ((id ++ fields) ++ rest) ≡ fields ++ rest =
          ap (drop 16) (append_assoc id fields rest) ∙ drop-append 16 id (fields ++ rest) g in
        let last : get_or ((id ++ fields) ++ rest) 32 0 ≡ to_byte c =
          ap (λ s. get_or s 32 0) (append_assoc id fields rest)
          ∙ get_or-append 16 16 32 id (fields ++ rest) g (omega arith)
          ∙ context_byte in
        rw
          (
            long,
            unpack-pack f,
            slice-append id fields rest g,
            second,
            slice-append hash (to_byte c ∷ []) rest n,
            last,
            canonical,
          )
          refl
    by_form header1 (some id) g = absurd g
    by_form header2 none g = absurd g

-- `parse` reads back the well-formed header that `write_into` appends, before any payload that keeps
-- the packet within the MTU, and the offset of that payload.
pub parse-header_bytes :
    (h : PacketHeader) (payload : List ℕ)
    → IsWellFormed h
    → size h + length payload ≤ mtu
    → parse (header_bytes h ++ payload) ≡ ok (h, size h)
unfolding parse size header_bytes
parse-header_bytes h payload w fits =
    let all : length (header_bytes h ++ payload) ≡ size h + length payload =
      omega (arith, length-append (header_bytes h) payload, length-header_bytes h w) in
    let long : ltb (length (header_bytes h ++ payload)) header_minsize ≡ false =
      ground (arith, size_min h.flags.header_type) in
    let short : ltb mtu (length (header_bytes h ++ payload)) ≡ false = ground arith in
    rw (long, short, unpack-pack h.flags)
      (parse_fields-fields h.flags h.hops h.transport_id h.destination_hash h.context payload w.form
        w.hash_length w.canonical)
  where
    size_min : (t : HeaderType) → header_minsize ≤ size_of t
    size_min header1 = omega arith
    size_min header2 = omega arith
