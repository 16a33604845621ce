-- ===== src/Lib.antt =====
-- rns-lite-core, the Reticulum network stack for small devices, in a model of its packet and table layers.
--
-- The crate is a library that a host drives: it hands received bytes in, with the time in milliseconds,
-- and takes packets and answers out. A packet is parsed (src/wire.rs) from a fixed buffer
-- (src/packet_buffer.rs). The router looks it up in bounded tables (src/tables.rs): what was seen
-- lately, the routes, the way back of proofs, the links it forwards, and the announces that it keeps
-- and still has to send on. Announces are limited on their way in (src/announce_admission.rs) and
-- out (src/announce_cap.rs), and those made here carry a value that only rises
-- (src/announce_state.rs). The keys of known destinations are kept and stored
-- (src/known_destinations.rs). A LoRa interface (src/lora.rs) splits packets into frames, and estimates
-- and limits their airtime. Payloads are sealed in Tokens (src/crypto.rs), and larger ones are
-- advertised, cut into parts, requested, gathered and proved as resources (src/resource.rs). A link is
-- requested and proved (src/link.rs), and its responder's side is a session (src/link_session.rs).
--
-- Files and code:
--   Prelude        tests, lists, words, byte strings and results over native numbers.
--   PacketBuffer   src/packet_buffer.rs: `PacketBuffer<CAP>`; CAP is the length of the field `bytes`.
--   Wire           src/wire.rs: Flags is `PacketFlags` (`pack`, `unpack`); Context is `PacketContext`;
--                  Header is `PacketHeader` (`size`, `parse`, `write_into`), `PacketView::parse`
--                  (`parse_view`), `build_packet` and `rewrite_with_header`; Hash is `packet_hash`,
--                  `truncated_packet_hash`, `truncated_hash` and `link_id_from_raw`.
--   Tables         src/tables.rs: Slots has the loops over arrays of optional entries, with
--                  `class_victim` and `oldest_index`; Generations what the generations of three tables
--                  share; Queue is `Queue<T, N>`; Path is `PathTable<N>`; Seen is `PacketHashTable<N>`
--                  and `RequestTagTable<N>`, which have the same code; Reverse is `ReverseTable<N>`;
--                  Link is `LinkTable<N>`; Cache is `AnnounceCache<N>`; Schedule is
--                  `AnnounceSchedule<N>`. N is the length of `entries`.
--   Lora           src/lora.rs: Framer is `LoraFrame` and `LoraFramer`; Modem is `LoraModemConfig`;
--                  Airtime is `AirtimeLimiter`.
--   Announce       Gate is src/announce_cap.rs, Admission src/announce_admission.rs and State
--                  src/announce_state.rs.
--   Known          src/known_destinations.rs: `KnownDestinations<N>`, with the hashes of src/identity.rs
--                  that bind a key to its destination; Blob is its stored form (`export_into`, and
--                  `import` as `import_blob`).
--   Crypto         src/crypto.rs: Token is the padding and the Token, in place and by copy; Ecies the
--                  ECIES layer with the ratchets. AES, HMAC, HKDF and X25519 are `Primitives`.
--   Resource       src/resource.rs: Flags is `ResourceFlags`; Codec is `MpWriter` and `MpReader`; Adv is
--                  `ResourceAdv`; Request is `PartRequestView`; Window is `WindowState`; Outbound is
--                  `OutboundResource`; Inbound is `InboundResource`; Watchdog is `AdvWatchdog`; Delivery
--                  joins a sender and a receiver.
--   Link           src/link.rs: `SignallingData`, requests, proofs, identification and `LinkKeys`, whose
--                  64 bytes stand for it; Session is `ResponderSession` of src/link_session.rs (`seal`
--                  is `seal_data`, `Closed` of `Received` is `shut` and its `Data` is `payload`), with
--                  `receive` in Receive and `accept` in Accept. Ed25519 is `Signatures`.
--   Tests          the theorems at concrete values.
--
-- How the code is written here: a method that takes `&mut self` returns the new state, with its
-- answer where it has one. Words are native numbers, and the operations that saturate, check or wrap
-- are written out; an array of bytes is a list of numbers. `?` is the bind of a `do` block. A mutable
-- reference that a method returns (`get_mut`, `iter_mut`) is a function that the caller applies to the
-- entry. The loops are structural recursion over the array or over a count, so no fuel is needed, but for
-- the `while` loop of `receive_part` (`advance`), whose fuel is the number of parts, and enough.
-- SHA-256, which comes from the crate sha2, is a parameter of the hashes: any function on bytes. The
-- theorems that need more say so: `IsHash` is a hash of 32 bytes, `IsCipher` a cipher that keeps the
-- length of whole blocks and undoes itself with a tag of 32 bytes, `IsAgreement` a key agreement,
-- `IsSigner` an identity whose signatures verify. The round-trip time that a peer reports is in floating
-- point: its reading (`peer_rtt_ms`) is a parameter, any function from bytes to an optional number.
-- A usize has 64 bits. What an output buffer holds after an error of `pack` is not modelled.
--
-- The model of `frame_airtime_ms` takes frame lengths for which its i32 arithmetic does not overflow,
-- as the code's own comment requires of the caller.
--
-- Not modelled: the transport and router that drive the tables, the stores of
-- ratchets, tunnels, proofs, interface access codes, discovery, the rest of the identities, and the
-- configuration profiles. Queue and buffer methods that only read a field or
-- lend the storage (`len`, `as_mut_slice`) have no definition of their own.
pub mod Prelude
pub mod PacketBuffer
pub mod Wire
pub mod Tables
pub mod Lora
pub mod Announce
pub mod Known
pub mod Crypto
pub mod Resource
pub mod Link
pub mod Tests
