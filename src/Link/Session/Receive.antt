-- ===== src/Link/Session/Receive.antt =====
-- Packets received by a session of src/link_session.rs (`receive`).
use rs_reticulum_lite.Prelude.{
  ℕ, ◌/◌, min, max, Option, none, some, List, [], ◌∷◌, Bool, not, ◌||◌, if◌then◌else◌, ltb, length,
  take, is_some, is_some_and,
}
use rs_reticulum_lite.Prelude.Words.{saturating_sub, saturating_mul}
use rs_reticulum_lite.Prelude.Bytes.{bytes_eq}
use rs_reticulum_lite.Prelude.Result.{Result, ok, err}
use rs_reticulum_lite.Wire.Context.{
  PacketContext, no_context, keepalive, lrrtt, link_identify, link_close,
}
use rs_reticulum_lite.Crypto.{Primitives, CryptoError, authentication_failed}
use rs_reticulum_lite.Link.{Signatures, link_decrypt, verify_identification}
use rs_reticulum_lite.Link.Session.{
  ResponderSession, active, closed, SessionError, crypto, state_error, Received, activated,
  identified, payload, kept_alive, shut, ignored, keepalive_default_ms, keepalive_min_ms,
  stale_factor, keepalive_request, is_handshake, is_closed, record_inbound,
}

-- What `Lrrtt` leaves, with the peer's round-trip time if it could be read.
unfoldable pub activate : ResponderSession → ℕ → Option ℕ → ResponderSession
activate s now_ms peer =
    let local_rtt : ℕ = saturating_sub now_ms s.request_ms in
    let rtt : ℕ = elim peer [ none ↦ local_rtt | some r ↦ max r local_rtt ] in
    let keepalive_ms : ℕ =
      min (max (saturating_mul rtt 1440 / 7) keepalive_min_ms) keepalive_default_ms in
    record s {
      rtt_ms = some rtt;
      keepalive_ms = keepalive_ms;
      stale_ms = saturating_mul keepalive_ms stale_factor;
      state = active;
      activated_ms = some now_ms;
      last_inbound_ms = now_ms;
    }

abbrev pub Reply : Type 0
Reply = ResponderSession × (List ℕ × Result SessionError Received)

-- What is done with a decryption: the plaintext buffer, and the bytes decrypted.
abbrev pub decrypted :
    ResponderSession
    → List ℕ × Result CryptoError ℕ
    → (ℕ → List ℕ → ResponderSession × Result SessionError Received)
    → Reply
decrypted s (plaintext, err e) k = (s, (plaintext, err (crypto e)))
decrypted s (plaintext, ok n) k = let (t, r) = k n (take n plaintext) in (t, (plaintext, r))

abbrev pub on_keepalive : ResponderSession → List ℕ → ℕ → List ℕ → Reply
on_keepalive s bytes now_ms plaintext =
    let t : ResponderSession = record_inbound s now_ms in
    let respond : Bool =
      not (
        is_some_and (λ sent. ltb (saturating_sub now_ms sent) t.keepalive_ms) t.last_outbound_ms) in
    if is_handshake s.state || not (bytes_eq bytes (keepalive_request ∷ []))
    then (s, (plaintext, ok ignored))
    else (t, (plaintext, ok (kept_alive respond)))

abbrev pub on_close : ResponderSession → List ℕ → ResponderSession × Result SessionError Received
on_close s bytes =
    let t : ResponderSession = record s { state = closed } in
    if ltb (length bytes) 16 || not (bytes_eq (take 16 bytes) s.link_id)
    then (s, ok ignored)
    else (t, ok shut)

abbrev pub on_identity :
    (List ℕ → List ℕ)
    → ResponderSession
    → ℕ
    → Option (List ℕ)
    → ResponderSession × Result SessionError Received
on_identity identity_hash s now_ms none = (s, err (crypto authentication_failed))
on_identity identity_hash s now_ms (some public_key) =
    let heard : ResponderSession = record_inbound s now_ms in
    let known : ResponderSession = record heard {
      remote_identity_hash = some (identity_hash public_key);
    } in
    if is_some heard.remote_identity_hash
    then (heard, ok ignored)
    else (known, ok (identified public_key))

module _ (p : Primitives) (g : Signatures) (identity_hash : List ℕ → List ℕ)
    (peer_rtt_ms : List ℕ → Option ℕ) where
  -- The branches of a session that is not closed.
  abbrev pub receive_open : ResponderSession → PacketContext → List ℕ → ℕ → List ℕ → Reply
  receive_open s keepalive bytes now_ms plaintext = on_keepalive s bytes now_ms plaintext
  receive_open s lrrtt bytes now_ms plaintext =
      if not (is_handshake s.state)
      then (s, (plaintext, err state_error))
      else decrypted s (link_decrypt p s.keys bytes plaintext)
          (λ n clear. (activate s now_ms (peer_rtt_ms clear), ok activated))
  receive_open s link_identify bytes now_ms plaintext =
      decrypted s (link_decrypt p s.keys bytes plaintext)
        (λ n clear. on_identity identity_hash s now_ms (verify_identification g s.link_id clear))
  receive_open s link_close bytes now_ms plaintext =
      decrypted s (link_decrypt p s.keys bytes plaintext) (λ n clear. on_close s clear)
  receive_open s no_context bytes now_ms plaintext =
      if is_handshake s.state
      then (s, (plaintext, err state_error))
      else decrypted s (link_decrypt p s.keys bytes plaintext)
          (λ n clear. (record_inbound s now_ms, ok (payload n)))
  receive_open s _ bytes now_ms plaintext = (s, (plaintext, ok ignored))

  unfoldable pub receive : ResponderSession → PacketContext → List ℕ → ℕ → List ℕ → Reply
  receive s context bytes now_ms plaintext =
      if is_closed s.state
      then (s, (plaintext, err state_error))
      else receive_open s context bytes now_ms plaintext
