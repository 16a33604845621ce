-- ===== src/Wire/Header/Build.antt =====
-- `build_packet` and `rewrite_with_header` of src/wire.rs.
use rs_reticulum_lite.Prelude.{
  ℕ, ◌+◌, ◌≤◌, ◌<◌, ◌≡◌, refl, subst, List, ◌++◌, false, ltb, arith, length, length-append,
  drop-append,
}
use rs_reticulum_lite.Prelude.Result.{Result, ok, err, ◌>>=◌, map_err}
use rs_reticulum_lite.PacketBuffer.{PacketBuffer, BufferError, new, extend_from_slice, as_slice}
use rs_reticulum_lite.PacketBuffer.Laws.{
  IsValid, Copied, Appended-Copied, new_lem, extend_from_slice-Appended, Appended->>=,
}
use rs_reticulum_lite.Wire.Header.{
  PacketHeader, WireError, buffer, size, mtu, write_into, build_packet, rewrite_with_header,
  parse_view,
}
use rs_reticulum_lite.Wire.Header.RoundTrip.{
  header_bytes, IsWellFormed, write_into-Appended, length-header_bytes, parse-header_bytes,
}

map_err->>= :
    (r : Result BufferError PacketBuffer) (f : PacketBuffer → Result BufferError PacketBuffer)
    → (map_err buffer r >>= λ a. map_err buffer (f a)) ≡ map_err buffer (r >>= f)
map_err->>= (ok a) f = refl
map_err->>= (err e) f = refl

-- The packet holds the bytes of the header and then the payload, or they are more than the MTU.
abbrev pub Built : List ℕ → Result WireError PacketBuffer → Type 0
Built bytes (ok b) = (length bytes ≤ mtu) × IsValid b × (as_slice b ≡ bytes)
Built bytes (err e) = mtu < length bytes

Copied-Built :
    (bytes : List ℕ) (r : Result BufferError PacketBuffer)
    → Copied mtu bytes r
    → Built bytes (map_err buffer r)
Copied-Built bytes (ok b) (fits, v, size, e) = (fits, v, e)
Copied-Built bytes (err e) h = h

-- `build_packet` writes the header's bytes and then the payload, and fails exactly where they are
-- longer than the MTU.
pub build_packet-Built :
    (h : PacketHeader) (payload : List ℕ)
    → Built (header_bytes h ++ payload) (build_packet h payload)
unfolding build_packet
build_packet-Built h payload =
    rw (map_err->>= (write_into h (new mtu)) (λ a. extend_from_slice a payload)) (
      Copied-Built (header_bytes h ++ payload) _ (
        Appended-Copied mtu (header_bytes h ++ payload) _ (
          Appended->>= (new mtu) (header_bytes h) payload (write_into h (new mtu))
            (λ a. extend_from_slice a payload) (new_lem mtu).0
            (write_into-Appended h (new mtu) (new_lem mtu).0)
            (λ c v. extend_from_slice-Appended c payload v))))

-- A packet built from a well-formed header parses to that header and the payload it was built from.
pub parse_view-build_packet :
    (h : PacketHeader) (payload : List ℕ) (b : PacketBuffer)
    → IsWellFormed h
    → build_packet h payload ≡ ok b
    → parse_view (as_slice b)
      ≡ ok (record { header = h; payload = payload; raw = as_slice b; payload_offset = size h })
unfolding parse_view
parse_view-build_packet h payload b w built =
    let bytes : List ℕ = header_bytes h ++ payload in
    let done : Built bytes (ok b) = subst (Built bytes) built (build_packet-Built h payload) in
    let size_fits : size h + length payload ≤ mtu =
      omega (arith, done.0, length-append (header_bytes h) payload, length-header_bytes h w) in
    rw
      (
        done.2,
        parse-header_bytes h payload w size_fits,
        drop-append (size h) (header_bytes h) payload (length-header_bytes h w),
      )
      refl

-- Rewriting a packet with a well-formed header to another one builds the packet of the new header
-- and the same payload.
pub rewrite_with_header-build :
    (old_header new_header : PacketHeader) (payload : List ℕ)
    → IsWellFormed old_header
    → rewrite_with_header (header_bytes old_header ++ payload) old_header new_header
      ≡ build_packet new_header payload
unfolding rewrite_with_header
rewrite_with_header-build old_header new_header payload w =
    let long : ltb (length (header_bytes old_header ++ payload)) (size old_header) ≡ false =
      ground (
        arith,
        length-append (header_bytes old_header) payload,
        length-header_bytes old_header w,
      ) in
    rw
      (
        long,
        drop-append (size old_header) (header_bytes old_header) payload
            (length-header_bytes old_header w),
      )
      refl
