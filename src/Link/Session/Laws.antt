-- ===== src/Link/Session/Laws.antt =====
-- What a packet needs to change a session of src/link_session.rs.
use rs_reticulum_lite.Prelude.{
  length, drop, ℕ, ◌-◌, ◌≡◌, ◌⊎◌, inl, inr, refl, Option, List, [], ◌∷◌, Bool, true, false, not,
  ◌||◌, if◌then◌else◌, Bool-cases,
}
use rs_reticulum_lite.Prelude.Bytes.{bytes_eq, bytes_eq_refl}
use rs_reticulum_lite.Prelude.Result.{Result, ok, err}
use rs_reticulum_lite.Wire.Context.{
  PacketContext, no_context, keepalive, lrrtt, link_identify, link_close,
}
use rs_reticulum_lite.Crypto.{Primitives, CryptoError}
use rs_reticulum_lite.Crypto.Token.{is_authentic}
use rs_reticulum_lite.Crypto.Token.Laws.{Guarded, token_decrypt-Guarded}
use rs_reticulum_lite.Link.{Signatures, link_decrypt, link_padded_max}
use rs_reticulum_lite.Link.Session.{
  ResponderSession, SessionError, Received, is_handshake, is_closed, record_inbound,
  keepalive_request,
}
use rs_reticulum_lite.Link.Session.Receive.{decrypted, receive, receive_open, Reply}

-- What a session can become by a packet: itself, or anything where the packet is a token whose tag
-- the keys of the link sign, or itself with the packet noted where that is the keepalive byte.
abbrev pub Earned : Primitives → ResponderSession → List ℕ → ℕ → ResponderSession → Type 0
Earned p s bytes now t =
    (t ≡ s)
    ⊎ ((is_authentic p s.keys bytes ≡ true)
        ⊎ ((t ≡ record_inbound s now) × (bytes_eq bytes (keepalive_request ∷ []) ≡ true)))

if-Earned :
    (p : Primitives) (s : ResponderSession) (bytes : List ℕ) (now : ℕ) (test : Bool) (a b : Reply)
    → Earned p s bytes now a.0
    → Earned p s bytes now b.0
    → Earned p s bytes now (if test then a else b).0
if-Earned p s bytes now true a b h k = h
if-Earned p s bytes now false a b h k = k

decrypted-Earned :
    (p : Primitives) (s : ResponderSession) (bytes out : List ℕ) (now : ℕ)
    (k : ℕ → List ℕ → ResponderSession × Result SessionError Received)
    → Earned p s bytes now (decrypted s (link_decrypt p s.keys bytes out) k).0
unfolding link_decrypt is_authentic
decrypted-Earned p s bytes out now k =
    by_result _ (token_decrypt-Guarded p link_padded_max bytes s.keys out)
  where
    by_result :
        (r : List ℕ × Result CryptoError ℕ)
        → Guarded p bytes s.keys out r
        → Earned p s bytes now (decrypted s r k).0
    by_result (plaintext, err e) guard = inl refl
    by_result (plaintext, ok n) guard =
        inr (inl (rw guard.signed (bytes_eq_refl (drop (length bytes - 32) bytes))))

keepalive-Earned :
    (p : Primitives) (s : ResponderSession) (bytes : List ℕ) (now : ℕ) (idle : Bool)
    (r : List ℕ × Result SessionError Received) (kept : List ℕ × Result SessionError Received)
    → Earned p s bytes now
        (if◌then◌else◌ {A = Reply}
          (idle || not (bytes_eq bytes (keepalive_request ∷ [])))
          (s, r)
          (record_inbound s now, kept)).0
keepalive-Earned p s bytes now true r kept = inl refl
keepalive-Earned p s bytes now false r kept =
    elim (Bool-cases (bytes_eq bytes (keepalive_request ∷ []))) [
      | inl t ↦ rw t (inr (inr (refl, refl)))
      | inr t ↦ rw t (inl refl)
    ]

module _ (p : Primitives) (g : Signatures) (identity_hash : List ℕ → List ℕ)
    (peer_rtt_ms : List ℕ → Option ℕ) where
  receive_open-Earned :
      (s : ResponderSession) (tag : PacketContext) (bytes out : List ℕ) (now : ℕ)
      → Earned p s bytes now (receive_open p g identity_hash peer_rtt_ms s tag bytes now out).0
  receive_open-Earned s keepalive bytes out now =
      keepalive-Earned p s bytes now (is_handshake s.state) _ _
  receive_open-Earned s lrrtt bytes out now =
      if-Earned p s bytes now (not (is_handshake s.state)) _ _ (inl refl)
        (decrypted-Earned p s bytes out now _)
  receive_open-Earned s link_identify bytes out now = decrypted-Earned p s bytes out now _
  receive_open-Earned s link_close bytes out now = decrypted-Earned p s bytes out now _
  receive_open-Earned s no_context bytes out now =
      if-Earned p s bytes now (is_handshake s.state) _ _ (inl refl)
        (decrypted-Earned p s bytes out now _)
  receive_open-Earned s _ bytes out now = inl refl

  -- A packet that is neither a token whose tag the keys of the link sign nor the one keepalive byte
  -- leaves the session as it was, whatever its context says, and the keepalive byte does no more
  -- than note that the session was heard.
  pub receive-Earned :
      (s : ResponderSession) (tag : PacketContext) (bytes out : List ℕ) (now : ℕ)
      → Earned p s bytes now (receive p g identity_hash peer_rtt_ms s tag bytes now out).0
  unfolding receive
  receive-Earned s tag bytes out now =
      if-Earned p s bytes now (is_closed s.state) _ _ (inl refl)
        (receive_open-Earned s tag bytes out now)
