-- ===== src/Wire/Header.antt =====
-- `PacketHeader` and `PacketView` of src/wire.rs: parsed from a packet and written into a buffer.
pub mod RoundTrip
pub mod Build
use rs_reticulum_lite.Prelude.{
  ℕ, ◌+◌, List, [], ◌∷◌, ◌++◌, Option, none, some, Bool, if◌then◌else◌, ltb, length, get_or, take,
  drop,
}
use rs_reticulum_lite.Prelude.Result.{Result, ok, err, ◌>>=◌, map_err}
use rs_reticulum_lite.PacketBuffer
use rs_reticulum_lite.PacketBuffer.{PacketBuffer, BufferError}
use rs_reticulum_lite.Wire.Flags.{PacketFlags, HeaderType, header1, header2, pack, unpack}
use rs_reticulum_lite.Wire.Context.{PacketContext, from_byte, to_byte}

abbrev pub mtu : ℕ
mtu = 500

abbrev pub header_minsize : ℕ
header_minsize = 19

abbrev pub header_maxsize : ℕ
header_maxsize = 35

abbrev pub transport_id_length : ℕ
transport_id_length = 16

pub record PacketHeader : Type 0 where
  pub flags : PacketFlags
  pub hops : ℕ
  pub transport_id : Option (List ℕ)
  pub destination_hash : List ℕ
  pub context : PacketContext

pub data WireError : Type 0 where
  too_short exceeds_mtu : WireError
  buffer : BufferError → WireError

abbrev pub size_of : HeaderType → ℕ
size_of header1 = header_minsize
size_of header2 = header_maxsize

unfoldable pub size : PacketHeader → ℕ
size h = size_of h.flags.header_type

-- `raw[from..to]` of `n` bytes.
abbrev pub slice : List ℕ → ℕ → ℕ → List ℕ
slice raw at n = take n (drop at raw)

-- The two arms of `parse`.
abbrev pub parse_fields : HeaderType → List ℕ → Result WireError (PacketHeader × ℕ)
parse_fields header1 raw = ok (
  record {
    flags = unpack (get_or raw 0 0);
    hops = get_or raw 1 0;
    transport_id = none;
    destination_hash = slice raw 2 16;
    context = from_byte (get_or raw 18 0);
  },
  header_minsize,
)
parse_fields header2 raw =
    if ltb (length raw) header_maxsize
    then err too_short
    else ok (
      record {
        flags = unpack (get_or raw 0 0);
        hops = get_or raw 1 0;
        transport_id = some (slice raw 2 16);
        destination_hash = slice raw 18 16;
        context = from_byte (get_or raw 34 0);
      },
      header_maxsize,
    )

unfoldable pub parse : List ℕ → Result WireError (PacketHeader × ℕ)
parse raw =
    if ltb (length raw) header_minsize
    then err too_short
    else if ltb mtu (length raw)
    then err exceeds_mtu
    else parse_fields (unpack (get_or raw 0 0)).header_type raw

-- `if let Some(id) = self.transport_id { out.extend_from_slice(&id)? }`
abbrev pub write_transport_id : Option (List ℕ) → PacketBuffer → Result BufferError PacketBuffer
write_transport_id none out = ok out
write_transport_id (some id) out = PacketBuffer.extend_from_slice out id

unfoldable pub write_into : PacketHeader → PacketBuffer → Result BufferError PacketBuffer
write_into h out = do
  a ← PacketBuffer.push out (pack h.flags)
  b ← PacketBuffer.push a h.hops
  c ← write_transport_id h.transport_id b
  d ← PacketBuffer.extend_from_slice c h.destination_hash
  PacketBuffer.push d (to_byte h.context)

pub record PacketView : Type 0 where
  pub header : PacketHeader
  pub payload : List ℕ
  pub raw : List ℕ
  pub payload_offset : ℕ

unfoldable pub parse_view : List ℕ → Result WireError PacketView
parse_view raw = do
  parsed ← parse raw
  ok (record {
    header = parsed.0;
    payload = drop parsed.1 raw;
    raw = raw;
    payload_offset = parsed.1;
  })

-- `?` turns the buffer's error into `WireError::Buffer`.
unfoldable pub build_packet : PacketHeader → List ℕ → Result WireError PacketBuffer
build_packet h payload = do
  a ← map_err buffer (write_into h (PacketBuffer.new mtu))
  map_err buffer (PacketBuffer.extend_from_slice a payload)

unfoldable pub rewrite_with_header :
    List ℕ → PacketHeader → PacketHeader → Result WireError PacketBuffer
rewrite_with_header raw old_header new_header =
    let payload_offset : ℕ = size old_header in
    if ltb (length raw) payload_offset
    then err too_short
    else build_packet new_header (drop payload_offset raw)
