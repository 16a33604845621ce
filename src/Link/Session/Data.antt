-- ===== src/Link/Session/Data.antt =====
-- Data over a link: encrypted by the initiator with src/link.rs, received by the responder's session
-- of src/link_session.rs.
use rs_reticulum_lite.Prelude.{
  ℕ, ◌+◌, ◌≤◌, ◌≡◌, refl, ap, sym, ◌∙◌, Option, List, true, false, arith, length, take, drop,
  take-append,
}
use rs_reticulum_lite.Prelude.Result.{ok}
use rs_reticulum_lite.PacketBuffer.{copy_from_slice}
use rs_reticulum_lite.Wire.Context.{no_context}
use rs_reticulum_lite.Crypto.{Primitives}
use rs_reticulum_lite.Crypto.Token.{pad_of}
use rs_reticulum_lite.Crypto.Token.Form.{IsCipher, token_of, token_len, length-token_of}
use rs_reticulum_lite.Crypto.Token.Write.{token_encrypt_lem}
use rs_reticulum_lite.Crypto.Token.Read.{token_decrypt-token_of}
use rs_reticulum_lite.Crypto.Ecies.Laws.{IsAgreement}
use rs_reticulum_lite.Link.{
  Signatures, derive_link_keys, link_encrypt, link_decrypt, link_padded_max,
}
use rs_reticulum_lite.Link.Session.{
  ResponderSession, SessionState, handshake, active, stale, closed, payload, is_up, is_closed,
  is_handshake, record_inbound,
}
use rs_reticulum_lite.Link.Session.Receive.{receive}

is_up-open : (q : SessionState) → is_up q ≡ true → (is_closed q ≡ false) × (is_handshake q ≡ false)
is_up-open handshake h = cc
is_up-open active h = (refl, refl)
is_up-open stale h = (refl, refl)
is_up-open closed h = cc

module _ (p : Primitives) (g : Signatures) (identity_hash : List ℕ → List ℕ)
    (peer_rtt_ms : List ℕ → Option ℕ) where
  receive-token_of :
      (s : ResponderSession) (iv clear out : List ℕ) (now : ℕ)
      → IsCipher p
      → length iv ≡ 16
      → length clear + pad_of (length clear) ≤ link_padded_max
      → length clear ≤ length out
      → is_up s.state ≡ true
      → receive p g identity_hash peer_rtt_ms s no_context (token_of p s.keys iv clear) now out
        ≡ (record_inbound s now, (copy_from_slice out 0 clear, ok (payload (length clear))))
  unfolding receive link_decrypt
  receive-token_of s iv clear out now v hi hp room up =
      let (live, past) = is_up-open s.state up in
      rw (live, past, token_decrypt-token_of p link_padded_max s.keys iv clear out v hi hp room)
        refl

  derive_link_keys_comm :
      (a b link_id : List ℕ)
      → IsAgreement p
      → derive_link_keys p a (p.x25519_public b) link_id
        ≡ derive_link_keys p b (p.x25519_public a) link_id
  unfolding derive_link_keys
  derive_link_keys_comm a b link_id v = ap (p.hkdf link_id) (v.diffie_hellman_comm a b)

  -- A key agreement and a cipher given, data of at most 463 bytes that one end of a link encrypts,
  -- with the keys of its own secret and the other's public key, reaches the application of the other
  -- end's session once that is active or stale: the session writes the data in front of the buffer,
  -- reports its length, and notes that it heard its peer.
  pub receive-link_encrypt :
      (s : ResponderSession) (ours theirs iv clear wire out : List ℕ) (now : ℕ)
      → IsCipher p
      → IsAgreement p
      → s.keys ≡ derive_link_keys p ours (p.x25519_public theirs) s.link_id
      → length iv ≡ 16
      → length clear ≤ 463
      → token_len clear ≤ length wire
      → length clear ≤ length out
      → is_up s.state ≡ true
      → receive p g identity_hash peer_rtt_ms s no_context
          (take
            (token_len clear)
            (link_encrypt p
              (derive_link_keys p theirs (p.x25519_public ours) s.link_id)
              clear
              iv
              wire).0)
          now
          out
        ≡ (record_inbound s now, (copy_from_slice out 0 clear, ok (payload (length clear))))
  unfolding link_encrypt
  receive-link_encrypt s ours theirs iv clear wire out now v a keys hi short fits room up =
      let hp : length clear + pad_of (length clear) ≤ link_padded_max = omega arith in
      let same = keys ∙ derive_link_keys_comm ours theirs s.link_id a in
      let sent : take (token_len clear) (link_encrypt p s.keys clear iv wire).0
          ≡ token_of p s.keys iv clear =
        ap (λ r. take (token_len clear) r.0)
          (token_encrypt_lem p link_padded_max s.keys iv wire clear v hi hp fits)
        ∙ take-append (token_len clear) (token_of p s.keys iv clear) (drop (token_len clear) wire)
            (length-token_of p s.keys iv clear v hi) in
      ap
        (λ k.
          receive p g identity_hash peer_rtt_ms s no_context
            (take (token_len clear) (link_encrypt p k clear iv wire).0) now out)
        (sym same)
      ∙ ap (λ w. receive p g identity_hash peer_rtt_ms s no_context w now out) sent
      ∙ receive-token_of s iv clear out now v hi hp room up
