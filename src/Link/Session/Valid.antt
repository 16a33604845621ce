-- ===== src/Link/Session/Valid.antt =====
-- The invariant of a session of src/link_session.rs.
use rs_reticulum_lite.Prelude.{
  ℕ, ◌-◌, ◌*◌, ◌≤◌, ◌≡◌, refl, sym, subst, inl, inr, Option, none, some, List, Bool, true, false,
  if◌then◌else◌, ltb, leb, take, is_some, is_some_and, arith, Bool-cases,
}
use rs_reticulum_lite.Prelude.Result.{Result, ok, err}
use rs_reticulum_lite.Wire.Context.{
  PacketContext, no_context, keepalive, lrrtt, link_identify, link_close,
}
use rs_reticulum_lite.Crypto.{Primitives, CryptoError}
use rs_reticulum_lite.Link.{Signatures, link_decrypt, verify_identification}
use rs_reticulum_lite.Link.Session.{
  ResponderSession, SessionState, handshake, active, stale, closed, SessionError, Received,
  keepalive_min_ms, keepalive_default_ms, record_inbound, heard_in, tick_in, grace_ms, latest_ms,
  tick,
}
use rs_reticulum_lite.Link.Session.Receive.{activate, on_identity, decrypted, receive_open, Reply}

-- What is known in each state.
abbrev pub Phase : ResponderSession → SessionState → Type 0
Phase s handshake = (s.rtt_ms ≡ none) × (s.activated_ms ≡ none)
Phase s active = (is_some s.rtt_ms ≡ true) × (is_some s.activated_ms ≡ true)
Phase s stale =
    (is_some s.rtt_ms ≡ true) × (is_some s.activated_ms ≡ true) × (is_some s.stale_since_ms ≡ true)
Phase s closed = Unit

-- The keepalive lies in its range, the stale time is twice the keepalive, and each state has the
-- times that its timeouts read.
pub record IsValid (s : ResponderSession) : Type 0 where
  pub least : keepalive_min_ms ≤ s.keepalive_ms
  pub most : s.keepalive_ms ≤ keepalive_default_ms
  pub twice : s.stale_ms ≡ s.keepalive_ms * 2
  pub phase : Phase s s.state

heard_in-IsValid :
    (q : SessionState) (s : ResponderSession) (now : ℕ)
    → s.state ≡ q
    → Phase s q
    → IsValid s
    → IsValid (heard_in q s now)
heard_in-IsValid handshake s now e f v = record {
  least = v.least;
  most = v.most;
  twice = v.twice;
  phase = subst (Phase (record s { last_inbound_ms = now })) (sym e) f;
}
heard_in-IsValid active s now e f v = record {
  least = v.least;
  most = v.most;
  twice = v.twice;
  phase = subst (Phase (record s { last_inbound_ms = now })) (sym e) f;
}
heard_in-IsValid stale s now e (r, a, t) v = record {
  least = v.least;
  most = v.most;
  twice = v.twice;
  phase = (r, a);
}
heard_in-IsValid closed s now e f v = record {
  least = v.least;
  most = v.most;
  twice = v.twice;
  phase = subst (Phase (record s { last_inbound_ms = now })) (sym e) tt;
}

record_inbound-IsValid :
    (s : ResponderSession) (now : ℕ) → IsValid s → IsValid (record_inbound s now)
unfolding record_inbound
record_inbound-IsValid s now v = heard_in-IsValid s.state s now refl v.phase v

activate-IsValid :
    (s : ResponderSession) (now : ℕ) (peer : Option ℕ) → IsValid (activate s now peer)
unfolding activate
activate-IsValid s now peer = record {
  least = omega arith;
  most = omega arith;
  twice = omega arith;
  phase = (refl, refl);
}

tick_in-IsValid :
    (q : SessionState) (s : ResponderSession) (now : ℕ)
    → Phase s q
    → IsValid s
    → IsValid (tick_in q s now).0
tick_in-IsValid handshake s now f v =
    elim (Bool-cases (ltb s.establishment_timeout_ms (now - s.request_ms))) [
      | inl t ↦ rw t record { least = v.least; most = v.most; twice = v.twice; phase = tt }
      | inr t ↦ rw t v
    ]
tick_in-IsValid active s now (r, a) v = elim (Bool-cases (leb s.stale_ms (now - latest_ms s))) [
  | inl t ↦ rw t record { least = v.least; most = v.most; twice = v.twice; phase = (r, a, refl) }
  | inr t ↦ rw t v
]
tick_in-IsValid stale s now f v =
    elim (Bool-cases (is_some_and (λ since. leb (grace_ms s) (now - since)) s.stale_since_ms)) [
      | inl t ↦ rw t v
      | inr t ↦ rw t v
    ]
tick_in-IsValid closed s now f v = v

pub tick-IsValid : (s : ResponderSession) (now : ℕ) → IsValid s → IsValid (tick s now).0
unfolding tick
tick-IsValid s now v = tick_in-IsValid s.state s now v.phase v

-- A change of the fields that validity does not read.
pub sent-IsValid :
    (s : ResponderSession) (o : Option ℕ) → IsValid s → IsValid (record s { last_outbound_ms = o })
sent-IsValid s o v = record {
  least = v.least;
  most = v.most;
  twice = v.twice;
  phase = kept s.state v.phase;
}
  where
    kept : (q : SessionState) → Phase s q → Phase (record s { last_outbound_ms = o }) q
    kept handshake f = f
    kept active f = f
    kept stale f = f
    kept closed f = f

known-IsValid :
    (s : ResponderSession) (h : Option (List ℕ))
    → IsValid s
    → IsValid (record s { remote_identity_hash = h })
known-IsValid s h v = record {
  least = v.least;
  most = v.most;
  twice = v.twice;
  phase = kept s.state v.phase;
}
  where
    kept : (q : SessionState) → Phase s q → Phase (record s { remote_identity_hash = h }) q
    kept handshake f = f
    kept active f = f
    kept stale f = f
    kept closed f = f

pub closed-IsValid : (s : ResponderSession) → IsValid s → IsValid (record s { state = closed })
closed-IsValid s v = record { least = v.least; most = v.most; twice = v.twice; phase = tt }

decrypted-IsValid :
    (s : ResponderSession) (r : List ℕ × Result CryptoError ℕ)
    (k : ℕ → List ℕ → ResponderSession × Result SessionError Received)
    → IsValid s
    → ((n : ℕ) (clear : List ℕ) → IsValid (k n clear).0)
    → IsValid (decrypted s r k).0
decrypted-IsValid s (plaintext, err e) k v h = v
decrypted-IsValid s (plaintext, ok n) k v h = h n (take n plaintext)

on_identity-IsValid :
    (identity_hash : List ℕ → List ℕ) (s : ResponderSession) (now : ℕ) (key : Option (List ℕ))
    → IsValid s
    → IsValid (on_identity identity_hash s now key).0
on_identity-IsValid identity_hash s now none v = v
on_identity-IsValid identity_hash s now (some key) v =
    let h = record_inbound-IsValid s now v in
    elim (Bool-cases (is_some (record_inbound s now).remote_identity_hash)) [
      | inl t ↦ rw t h
      | inr t ↦ rw t (known-IsValid (record_inbound s now) (some (identity_hash key)) h)
    ]

pub if-IsValid :
    (test : Bool) (a b : Reply) → IsValid a.0 → IsValid b.0 → IsValid (if test then a else b).0
if-IsValid true a b h k = h
if-IsValid false a b h k = k

if_pair-IsValid :
    (test : Bool) (a b : ResponderSession × Result SessionError Received)
    → IsValid a.0
    → IsValid b.0
    → IsValid (if test then a else b).0
if_pair-IsValid true a b h k = h
if_pair-IsValid false a b h k = k

module _ (p : Primitives) (g : Signatures) (identity_hash : List ℕ → List ℕ)
    (peer_rtt_ms : List ℕ → Option ℕ) where
  pub receive_open-IsValid :
      (s : ResponderSession) (context : PacketContext) (bytes : List ℕ) (now : ℕ) (out : List ℕ)
      → IsValid s
      → IsValid (receive_open p g identity_hash peer_rtt_ms s context bytes now out).0
  receive_open-IsValid s keepalive bytes now out v =
      if-IsValid _ _ _ v (record_inbound-IsValid s now v)
  receive_open-IsValid s lrrtt bytes now out v = if-IsValid _ _ _ v (
      decrypted-IsValid s (link_decrypt p s.keys bytes out) _ v
        (λ n clear. activate-IsValid s now (peer_rtt_ms clear)))
  receive_open-IsValid s link_identify bytes now out v =
      decrypted-IsValid s (link_decrypt p s.keys bytes out) _ v (λ n clear.
        on_identity-IsValid identity_hash s now (verify_identification g s.link_id clear) v)
  receive_open-IsValid s link_close bytes now out v =
      decrypted-IsValid s (link_decrypt p s.keys bytes out) _ v
        (λ n clear. if_pair-IsValid _ _ _ v (closed-IsValid s v))
  receive_open-IsValid s no_context bytes now out v = if-IsValid _ _ _ v (
      decrypted-IsValid s (link_decrypt p s.keys bytes out) _ v
        (λ n clear. record_inbound-IsValid s now v))
  receive_open-IsValid s _ bytes now out v = v
