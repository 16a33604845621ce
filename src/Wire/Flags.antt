-- ===== src/Wire/Flags.antt =====
-- The flags byte of src/wire.rs, packed and unpacked.
use Prim.Native.Nat.{bit_and, bit_or}
use rs_reticulum_lite.Prelude.{
  ℕ, ◌*◌, ◌/◌, ◌%◌, ◌<◌, ◌≡◌, refl, Bool, true, false, if◌then◌else◌, ◌==◌, ==_iff, not, arith,
}
use rs_reticulum_lite.Prelude.Bytes.{every, every-holds}

-- `data` is a word of the checker's language.
pub data PacketType : Type 0 where
  data_packet announce link_request proof : PacketType

pub data DestinationType : Type 0 where
  single group plain link : DestinationType

pub data HeaderType : Type 0 where
  header1 header2 : HeaderType

pub data TransportType : Type 0 where
  broadcast transport : TransportType

pub record PacketFlags : Type 0 where
  pub header_type : HeaderType
  pub context_flag : Bool
  pub transport_type : TransportType
  pub destination_type : DestinationType
  pub packet_type : PacketType

-- The casts `as u8` of the enums and of `bool`.
abbrev pub header_bits : HeaderType → ℕ
header_bits header1 = 0
header_bits header2 = 1

abbrev pub bool_bits : Bool → ℕ
bool_bits false = 0
bool_bits true = 1

abbrev pub transport_bits : TransportType → ℕ
transport_bits broadcast = 0
transport_bits transport = 1

abbrev pub destination_bits : DestinationType → ℕ
destination_bits single = 0
destination_bits group = 1
destination_bits plain = 2
destination_bits link = 3

abbrev pub packet_bits : PacketType → ℕ
packet_bits data_packet = 0
packet_bits announce = 1
packet_bits link_request = 2
packet_bits proof = 3

-- `x << k` on a u8 that does not overflow it.
unfoldable pub pack : PacketFlags → ℕ
pack f =
    bit_or
      (bit_or
        (bit_or (bit_or (header_bits f.header_type * 64) (bool_bits f.context_flag * 32))
          (transport_bits f.transport_type * 16))
        (destination_bits f.destination_type * 4))
      (packet_bits f.packet_type)

abbrev pub destination_of : ℕ → DestinationType
destination_of k =
    if k == 0 then single else if k == 1 then group else if k == 2 then plain else link

abbrev pub packet_of : ℕ → PacketType
packet_of k =
    if k == 0
    then data_packet
    else if k == 1
    then announce
    else if k == 2
    then link_request
    else proof

unfoldable pub unpack : ℕ → PacketFlags
unpack byte = record {
  header_type = if bit_and byte 0b0100_0000 == 0 then header1 else header2;
  context_flag = not (bit_and byte 0b0010_0000 == 0);
  transport_type = if bit_and byte 0b0001_0000 == 0 then broadcast else transport;
  destination_type = destination_of (bit_and byte 0b0000_1100 / 4);
  packet_type = packet_of (bit_and byte 0b0000_0011);
}

-- `unpack` reads back what `pack` wrote, for all 128 combinations of flags.
pub unpack-pack : (f : PacketFlags) → unpack (pack f) ≡ f
unfolding pack unpack
unpack-pack f = ground arith

pack-unpack_table : every 256 (λ b. pack (unpack b) == b % 128) ≡ true
unfolding every pack unpack
pack-unpack_table = refl

-- `pack` writes back every bit of a byte but the highest, which `unpack` does not read.
pub pack-unpack : (byte : ℕ) → byte < 256 → pack (unpack byte) ≡ byte % 128
pack-unpack byte h = (==_iff _ _).0 (every-holds 256 _ byte pack-unpack_table h)
