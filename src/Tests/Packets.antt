-- ===== src/Tests/Packets.antt =====
-- Packets of src/wire.rs and src/packet_buffer.rs.
use rs_reticulum_lite.Prelude.{ℕ, ◌≡◌, refl, List, [], ◌∷◌, ◌++◌, none, some, false, replicate}
use rs_reticulum_lite.Prelude.Result.{ok}
use rs_reticulum_lite.PacketBuffer
use rs_reticulum_lite.PacketBuffer.{PacketBuffer, new, as_slice, extend_from_slice, copy_with_hops}
use rs_reticulum_lite.Wire.Flags.{
  PacketFlags, header1, header2, broadcast, transport, single, link_request,
}
use rs_reticulum_lite.Wire.Context.{no_context, to_byte, from_byte}
use rs_reticulum_lite.Wire.Header.{
  PacketHeader, size, parse_view, build_packet, write_into, rewrite_with_header,
}
use rs_reticulum_lite.Wire.Header.RoundTrip.{header_bytes, IsWellFormed}
use rs_reticulum_lite.Wire.Header.Build.{parse_view-build_packet, rewrite_with_header-build}
use rs_reticulum_lite.Wire.Hash.{packet_hash, link_id_from_raw}
use rs_reticulum_lite.Wire.Hash.Laws.{SameAddress, packet_hash-hop, link_id-hop}

abbrev sent_flags : PacketFlags
sent_flags = record {
  header_type = header1;
  context_flag = false;
  transport_type = broadcast;
  destination_type = single;
  packet_type = link_request;
}

abbrev carried_flags : PacketFlags
carried_flags = record {
  header_type = header2;
  context_flag = false;
  transport_type = transport;
  destination_type = single;
  packet_type = link_request;
}

abbrev sent : PacketHeader
sent = record {
  flags = sent_flags;
  hops = 0;
  transport_id = none;
  destination_hash = replicate 16 7;
  context = no_context;
}

abbrev carried : PacketHeader
carried = record {
  flags = carried_flags;
  hops = 3;
  transport_id = some (replicate 16 9);
  destination_hash = replicate 16 7;
  context = no_context;
}

abbrev keys : List ℕ
keys = replicate 64 5

-- A stand-in for SHA-256 that keeps every byte.
abbrev identity_hash : List ℕ → List ℕ
identity_hash bytes = bytes

sent-IsWellFormed : IsWellFormed sent
unfolding from_byte to_byte
sent-IsWellFormed = record { form = tt; hash_length = refl; canonical = refl }

carried-IsWellFormed : IsWellFormed carried
unfolding from_byte to_byte
carried-IsWellFormed = record { form = refl; hash_length = refl; canonical = refl }

same_address : SameAddress sent carried
same_address = record { same_nibble = refl; same_fields = refl }

rewrite_with_header-build_example :
    rewrite_with_header (header_bytes sent ++ keys) sent carried ≡ build_packet carried keys
rewrite_with_header-build_example = rewrite_with_header-build sent carried keys sent-IsWellFormed

packet_hash-hop_example :
    packet_hash identity_hash (header_bytes sent ++ keys) header1
    ≡ packet_hash identity_hash (header_bytes carried ++ keys) header2
packet_hash-hop_example =
    packet_hash-hop identity_hash sent carried keys sent-IsWellFormed carried-IsWellFormed
      same_address

link_id-hop_example :
    link_id_from_raw identity_hash (header_bytes sent ++ (keys ++ (1 ∷ []))) header1
    ≡ link_id_from_raw identity_hash (header_bytes carried ++ (keys ++ [])) header2
link_id-hop_example =
    link_id-hop identity_hash sent carried keys (1 ∷ []) [] sent-IsWellFormed carried-IsWellFormed
      same_address refl

abbrev built : PacketBuffer
built = record { bytes = header_bytes sent ++ ((8 ∷ []) ++ replicate 480 0); len = 20 }

build_packet_test : build_packet sent (8 ∷ []) ≡ ok built
unfolding build_packet write_into PacketBuffer.push PacketBuffer.extend_from_slice new header_bytes
build_packet_test = refl

parse_view-build_packet_example :
    parse_view (as_slice built)
    ≡ ok (record {
      header = sent;
      payload = 8 ∷ [];
      raw = as_slice built;
      payload_offset = size sent;
    })
parse_view-build_packet_example =
    parse_view-build_packet sent (8 ∷ []) built sent-IsWellFormed build_packet_test
