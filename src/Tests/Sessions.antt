-- ===== src/Tests/Sessions.antt =====
-- Links of src/link.rs and sessions of src/link_session.rs, accepted and driven.
use rs_reticulum_lite.Prelude.{
  ℕ, ◌≡◌, refl, List, [], ◌∷◌, ◌++◌, Option, none, some, true, arith, take, replicate,
}
use rs_reticulum_lite.Prelude.Bytes.{to_be_bytes}
use rs_reticulum_lite.Wire.Hash.{truncated_hash}
use rs_reticulum_lite.Prelude.Result.{ok}
use rs_reticulum_lite.PacketBuffer.{copy_from_slice}
use rs_reticulum_lite.Wire.Context.{no_context}
use rs_reticulum_lite.Crypto.Token.Form.{token_len}
use rs_reticulum_lite.Tests.StandIn.{
  stand_in, stand_in-IsCipher, stand_in-IsAgreement, stand_in_signatures, stand_in_identity,
  stand_in-IsSigner,
}
use rs_reticulum_lite.Link.{
  fixed_endpoint, try_new, effective_mtu, default_signalling, signalling_new, parse_link_proof,
  parse_link_request, compute_link_id, pack_signalling, validate_link_proof, build_link_proof,
  derive_link_keys, link_encrypt,
}
use rs_reticulum_lite.Link.Laws.{proof_view, validate_link_proof-build_link_proof}
use rs_reticulum_lite.Link.Session.{
  ResponderSession, handshake, active, payload, no_action, turned_stale, teardown_due,
  record_inbound, tick,
}
use rs_reticulum_lite.Link.Session.Receive.{receive}
use rs_reticulum_lite.Link.Session.Accept.{accept}
use rs_reticulum_lite.Link.Session.Valid.{IsValid}
use rs_reticulum_lite.Link.Session.Run.{IsUsed, accepted, received, ticked, IsUsed-IsValid}
use rs_reticulum_lite.Link.Session.Laws.{Earned, receive-Earned}
use rs_reticulum_lite.Link.Session.Silence.{silent_session}
use rs_reticulum_lite.Link.Session.Data.{receive-link_encrypt}

abbrev fixed_hash : List ℕ → List ℕ
fixed_hash bytes = replicate 16 3

abbrev no_rtt : List ℕ → Option ℕ
no_rtt bytes = none

-- Active since a second after its request, with a round trip of a second.
abbrev awake : ResponderSession
awake = record {
  link_id = replicate 16 1;
  keys = derive_link_keys stand_in (replicate 32 8) (replicate 32 9) (replicate 16 1);
  state = active;
  request_ms = 0;
  establishment_timeout_ms = 366000;
  rtt_ms = some 1000;
  keepalive_ms = 205714;
  stale_ms = 411428;
  last_inbound_ms = 1000;
  last_outbound_ms = none;
  activated_ms = some 1000;
  stale_since_ms = none;
  remote_identity_hash = none;
}

-- A request with legacy keys alone.
abbrev request : List ℕ
request = replicate 64 7

abbrev proof : List ℕ
proof = replicate 64 6 ++ (replicate 32 9 ++ (0x20 ∷ (0x01 ∷ (0xf4 ∷ []))))

abbrev new_session : ResponderSession
new_session = record {
  link_id = replicate 16 3;
  keys = replicate 64 5;
  state = handshake;
  request_ms = 100;
  establishment_timeout_ms = 366000;
  rtt_ms = none;
  keepalive_ms = 360000;
  stale_ms = 720000;
  last_inbound_ms = 100;
  last_outbound_ms = none;
  activated_ms = none;
  stale_since_ms = none;
  remote_identity_hash = none;
}

request_accepted :
    accept stand_in fixed_hash stand_in_signatures stand_in_identity
      (replicate 16 5)
      request
      1
      (replicate 32 8)
      100
      (replicate 99 0)
    ≡ (proof, ok (new_session, 99))
unfolding accept parse_link_request build_link_proof compute_link_id fixed_endpoint try_new
    effective_mtu default_signalling signalling_new pack_signalling derive_link_keys to_be_bytes
    truncated_hash
request_accepted = refl

-- Accepted, refused a packet too early, and expired.
used :
    IsUsed stand_in fixed_hash stand_in_signatures fixed_hash no_rtt
      (tick
        (receive stand_in stand_in_signatures fixed_hash no_rtt new_session no_context [] 200 []).0
        400000).0
used =
    let start : IsUsed stand_in fixed_hash stand_in_signatures fixed_hash no_rtt new_session =
      accepted stand_in_identity (replicate 16 5) request 1 (replicate 32 8) 100 (replicate 99 0)
        request_accepted in
    ticked (received start no_context [] 200 []) 400000

IsUsed-IsValid_example :
    IsValid
      (tick
        (receive stand_in stand_in_signatures fixed_hash no_rtt new_session no_context [] 200 []).0
        400000).0
IsUsed-IsValid_example =
    IsUsed-IsValid stand_in fixed_hash stand_in_signatures fixed_hash no_rtt
      (tick
        (receive stand_in stand_in_signatures fixed_hash no_rtt new_session no_context [] 200 []).0
        400000).0
      used

validate_link_proof-build_link_proof_example :
    ((build_link_proof stand_in_signatures stand_in stand_in_identity
        (replicate 32 8)
        (replicate 16 1)
        (signalling_new 1 0)
        (replicate 120 0)).1
      ≡ ok 99)
    × (parse_link_proof (
          take 99
            (build_link_proof stand_in_signatures stand_in stand_in_identity
              (replicate 32 8)
              (replicate 16 1)
              (signalling_new 1 0)
              (replicate 120 0)).0)
        ≡ ok (
            proof_view stand_in_signatures stand_in stand_in_identity
              (replicate 32 8)
              (replicate 16 1)))
    × (validate_link_proof stand_in_signatures
          (proof_view stand_in_signatures stand_in stand_in_identity
            (replicate 32 8)
            (replicate 16 1))
          (replicate 64 2)
          (replicate 16 1)
        ≡ true)
unfolding fixed_endpoint try_new effective_mtu default_signalling signalling_new
validate_link_proof-build_link_proof_example =
    validate_link_proof-build_link_proof stand_in_signatures stand_in stand_in_identity
      (replicate 32 8) (replicate 16 1) (signalling_new 1 0) default_signalling (replicate 120 0)
      stand_in-IsSigner refl refl (omega arith)

receive-Earned_example :
    Earned stand_in awake
      (replicate 64 9)
      2000
      (receive stand_in stand_in_signatures fixed_hash no_rtt awake no_context
        (replicate 64 9)
        2000
        (replicate 16 0)).0
receive-Earned_example =
    receive-Earned stand_in stand_in_signatures fixed_hash no_rtt awake no_context (replicate 64 9)
      (replicate 16 0) 2000

receive-link_encrypt_example :
    receive stand_in stand_in_signatures fixed_hash no_rtt awake no_context
      (take
        (token_len (1 ∷ 2 ∷ []))
        (link_encrypt stand_in
          (derive_link_keys stand_in (replicate 32 6) (replicate 32 9) (replicate 16 1))
          (1 ∷ 2 ∷ [])
          (replicate 16 4)
          (replicate 80 0)).0)
      2000
      (replicate 16 0)
    ≡ (record_inbound awake 2000, (copy_from_slice (replicate 16 0) 0 (1 ∷ 2 ∷ []), ok (payload 2)))
receive-link_encrypt_example =
    receive-link_encrypt stand_in stand_in_signatures fixed_hash no_rtt awake (replicate 32 8)
      (replicate 32 6) (replicate 16 4) (1 ∷ 2 ∷ []) (replicate 80 0) (replicate 16 0) 2000
      stand_in-IsCipher stand_in-IsAgreement refl refl (omega arith) (omega arith) (omega arith)
      refl

abbrev packet : List ℕ
packet =
    take (token_len (1 ∷ 2 ∷ []))
      (link_encrypt stand_in
        (derive_link_keys stand_in (replicate 32 6) (replicate 32 9) (replicate 16 1)) (1 ∷ 2 ∷ [])
        (replicate 16 4) (replicate 80 0)).0

packet_received :
    receive stand_in stand_in_signatures fixed_hash no_rtt awake no_context packet 2000
      (replicate 16 0)
    ≡ (record_inbound awake 2000, (copy_from_slice (replicate 16 0) 0 (1 ∷ 2 ∷ []), ok (payload 2)))
packet_received =
    receive-link_encrypt stand_in stand_in_signatures fixed_hash no_rtt awake (replicate 32 8)
      (replicate 32 6) (replicate 16 4) (1 ∷ 2 ∷ []) (replicate 80 0) (replicate 16 0) 2000
      stand_in-IsCipher stand_in-IsAgreement refl refl (omega arith) (omega arith) (omega arith)
      refl

awake-IsValid : IsValid awake
awake-IsValid = record {
  least = omega arith;
  most = omega arith;
  twice = refl;
  phase = (refl, refl);
}

silent_session_example :
    let u = record_inbound awake 2000 in
    let gone = (tick u 413428).0 in
    (tick u 300000 ≡ (u, no_action))
    × ((tick u 413428).1 ≡ turned_stale)
    × (tick gone 420000 ≡ (gone, no_action))
    × ((tick gone 422428).1 ≡ teardown_due)
    × ((record_inbound gone 422428).state ≡ active)
silent_session_example =
    silent_session stand_in stand_in_signatures fixed_hash no_rtt awake (record_inbound awake 2000)
      packet (replicate 16 0) (copy_from_slice (replicate 16 0) 0 (1 ∷ 2 ∷ [])) 2000 2 1000 1000
      300000 413428 420000 422428 awake-IsValid packet_received refl (omega arith) refl
      (omega arith) (omega arith) (omega arith) (omega arith) (omega arith)
