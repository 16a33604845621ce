-- ===== src/Link/Session.antt =====
-- src/link_session.rs: the responder's side of a link. A method returns the session it leaves next
-- to its answer. The reading of the peer's round-trip time, which is in floating point, and the
-- identity hash are parameters.
pub mod Receive
pub mod Accept
pub mod Valid
pub mod Run
pub mod Laws
pub mod Silence
pub mod Data
use rs_reticulum_lite.Prelude.{
  ℕ, ◌+◌, ◌*◌, ◌/◌, min, max, Option, none, some, List, [], ◌∷◌, Bool, true, false, not, ◌||◌,
  if◌then◌else◌, ◌==◌, ltb, leb, length, take, is_some, is_some_and,
}
use rs_reticulum_lite.Prelude.Words.{saturating_add, saturating_sub, saturating_mul}
use rs_reticulum_lite.Prelude.Bytes.{bytes_eq}
use rs_reticulum_lite.Prelude.Result.{Result, ok, err, ◌>>=◌, map_err}
use rs_reticulum_lite.Wire.Context.{
  PacketContext, no_context, keepalive, lrrtt, link_identify, link_close,
}
use rs_reticulum_lite.Crypto.{Primitives, CryptoError, authentication_failed}
use rs_reticulum_lite.Link.{
  Signatures, LocalIdentity, LinkError, unsupported_mode, SignallingData, LinkRequestView,
  mode_aes256_cbc, default_mtu, try_new, parse_link_request, compute_link_id, build_link_proof,
  derive_link_keys, link_encrypt, link_decrypt, verify_identification,
}

abbrev pub establishment_per_hop_ms : ℕ
establishment_per_hop_ms = 6000

abbrev pub keepalive_default_ms : ℕ
keepalive_default_ms = 360000

abbrev pub keepalive_min_ms : ℕ
keepalive_min_ms = 5000

abbrev pub stale_time_default_ms : ℕ
stale_time_default_ms = 720000

abbrev pub stale_factor : ℕ
stale_factor = 2

abbrev pub stale_grace_ms : ℕ
stale_grace_ms = 5000

abbrev pub keepalive_timeout_factor : ℕ
keepalive_timeout_factor = 4

abbrev pub keepalive_request : ℕ
keepalive_request = 0xff

abbrev pub keepalive_reply : ℕ
keepalive_reply = 0xfe

pub data SessionState : Type 0 where
  handshake active stale closed : SessionState

pub data SessionError : Type 0 where
  link : LinkError → SessionError
  crypto : CryptoError → SessionError
  state_error : SessionError

-- The variants of `Received`.
pub data Received : Type 0 where
  activated : Received
  identified : List ℕ → Received
  payload : ℕ → Received
  kept_alive : Bool → Received
  shut : Received
  ignored : Received

-- The variants of `TickAction`.
pub data TickAction : Type 0 where
  no_action expired turned_stale teardown_due : TickAction

pub record ResponderSession : Type 0 where
  pub link_id : List ℕ
  pub keys : List ℕ
  pub state : SessionState
  pub request_ms : ℕ
  pub establishment_timeout_ms : ℕ
  pub rtt_ms : Option ℕ
  pub keepalive_ms : ℕ
  pub stale_ms : ℕ
  pub last_inbound_ms : ℕ
  pub last_outbound_ms : Option ℕ
  pub activated_ms : Option ℕ
  pub stale_since_ms : Option ℕ
  pub remote_identity_hash : Option (List ℕ)

-- The session after a packet, by the state it was in.
abbrev pub heard_in : SessionState → ResponderSession → ℕ → ResponderSession
heard_in stale s now_ms = record s {
  last_inbound_ms = now_ms;
  state = active;
  stale_since_ms = none;
}
heard_in _ s now_ms = record s { last_inbound_ms = now_ms }

unfoldable pub record_inbound : ResponderSession → ℕ → ResponderSession
record_inbound s now_ms = heard_in s.state s now_ms

-- `state == Handshake`
abbrev pub is_handshake : SessionState → Bool
is_handshake handshake = true
is_handshake active = false
is_handshake stale = false
is_handshake closed = false

abbrev pub grace_ms : ResponderSession → ℕ
grace_ms s =
    let rtt : ℕ = elim s.rtt_ms [ none ↦ 1000 | some r ↦ r ] in
    saturating_add (saturating_mul rtt keepalive_timeout_factor) stale_grace_ms

abbrev pub latest_ms : ResponderSession → ℕ
latest_ms s = elim s.activated_ms [ none ↦ s.last_inbound_ms | some a ↦ max a s.last_inbound_ms ]

-- The branches of `tick`.
abbrev pub tick_in : SessionState → ResponderSession → ℕ → ResponderSession × TickAction
tick_in handshake s now_ms =
    let expire : ResponderSession = record s { state = closed } in
    if ltb s.establishment_timeout_ms (saturating_sub now_ms s.request_ms)
    then (expire, expired)
    else (s, no_action)
tick_in active s now_ms =
    let turn : ResponderSession = record s { state = stale; stale_since_ms = some now_ms } in
    if leb s.stale_ms (saturating_sub now_ms (latest_ms s))
    then (turn, turned_stale)
    else (s, no_action)
tick_in stale s now_ms =
    if is_some_and (λ since. leb (grace_ms s) (saturating_sub now_ms since)) s.stale_since_ms
    then (s, teardown_due)
    else (s, no_action)
tick_in closed s now_ms = (s, no_action)

unfoldable pub tick : ResponderSession → ℕ → ResponderSession × TickAction
tick s now_ms = tick_in s.state s now_ms

-- `matches!(self.state, Active | Stale)` and `state == Closed`.
abbrev pub is_up : SessionState → Bool
is_up handshake = false
is_up active = true
is_up stale = true
is_up closed = false

abbrev pub is_closed : SessionState → Bool
is_closed handshake = false
is_closed active = false
is_closed stale = false
is_closed closed = true

unfoldable pub keepalive_response : ResponderSession → ℕ → ResponderSession × List ℕ
keepalive_response s now_ms = (record s { last_outbound_ms = some now_ms }, keepalive_reply ∷ [])

module _ (p : Primitives) where
  abbrev pub sealed :
      ResponderSession
      → ℕ
      → List ℕ × Result CryptoError ℕ
      → ResponderSession × (List ℕ × Result SessionError ℕ)
  sealed s now_ms (out, err e) = (s, (out, err (crypto e)))
  sealed s now_ms (out, ok n) = (record s { last_outbound_ms = some now_ms }, (out, ok n))

  unfoldable pub seal_data :
      ResponderSession
      → List ℕ
      → List ℕ
      → List ℕ
      → ℕ
      → ResponderSession × (List ℕ × Result SessionError ℕ)
  seal_data s plaintext iv out now_ms =
      if is_up s.state
      then sealed s now_ms (link_encrypt p s.keys plaintext iv out)
      else (s, (out, err state_error))

  abbrev pub sent_length : Result CryptoError ℕ → Option ℕ
  sent_length (ok n) = some n
  sent_length (err e) = none

  unfoldable pub teardown :
      ResponderSession → List ℕ → List ℕ → ResponderSession × (List ℕ × Option ℕ)
  teardown s iv out =
      let note = link_encrypt p s.keys s.link_id iv out in
      let t : ResponderSession = record s { state = closed } in
      if is_closed s.state then (s, (out, none)) else (t, (note.0, sent_length note.1))
