-- ===== src/Link/Session/Run.antt =====
-- Sessions of src/link_session.rs in use: accepted, then driven by packets, sends and the clock.
use rs_reticulum_lite.Prelude.{ℕ, ◌≡◌, refl, subst, Option, some, List, arith, Bool-cases, inl, inr}
use rs_reticulum_lite.Prelude.Result.{Result, ok, err}
use rs_reticulum_lite.Wire.Context.{PacketContext}
use rs_reticulum_lite.Crypto.{Primitives, CryptoError}
use rs_reticulum_lite.Link.{
  Signatures, LocalIdentity, LinkError, LinkRequestView, SignallingData, compute_link_id,
  build_link_proof, link_encrypt,
}
use rs_reticulum_lite.Link.Session.{
  ResponderSession, SessionError, is_up, is_closed, sealed, tick, seal_data, keepalive_response,
  teardown,
}
use rs_reticulum_lite.Link.Session.Receive.{receive}
use rs_reticulum_lite.Link.Session.Accept.{answered, accept_view, accept}
use rs_reticulum_lite.Link.Session.Valid.{
  IsValid, tick-IsValid, sent-IsValid, closed-IsValid, if-IsValid, receive_open-IsValid,
}

-- What `accept` returns is a valid session or an error.
abbrev AcceptedValid : List ℕ × Result SessionError (ResponderSession × ℕ) → Type 0
AcceptedValid (proof, err e) = Unit
AcceptedValid (proof, ok (s, n)) = IsValid s

module _ (p : Primitives) (sha256 : List ℕ → List ℕ) (g : Signatures)
    (identity_hash : List ℕ → List ℕ) (peer_rtt_ms : List ℕ → Option ℕ) where
  answered-Valid :
      (link_id : List ℕ) (view : LinkRequestView) (hops : ℕ) (ephemeral : List ℕ) (now : ℕ)
      (r : List ℕ × Result LinkError ℕ)
      → AcceptedValid (answered p sha256 g link_id view hops ephemeral now r)
  answered-Valid link_id view hops ephemeral now (proof, err e) = tt
  answered-Valid link_id view hops ephemeral now (proof, ok n) = record {
    least = omega arith;
    most = omega arith;
    twice = refl;
    phase = (refl, refl);
  }

  accept_view-Valid :
      (identity : LocalIdentity) (destination request : List ℕ) (hops : ℕ) (ephemeral : List ℕ)
      (now : ℕ) (proof : List ℕ) (r : Result LinkError (LinkRequestView × SignallingData))
      → AcceptedValid
          (accept_view p sha256 g identity destination request hops ephemeral now proof r)
  accept_view-Valid identity destination request hops ephemeral now proof (err e) = tt
  accept_view-Valid identity destination request hops ephemeral now proof (ok (view, s)) =
      let link_id : List ℕ = compute_link_id sha256 destination request in
      answered-Valid link_id view hops ephemeral now
        (build_link_proof g p identity ephemeral link_id s proof)

  accept-Valid :
      (identity : LocalIdentity) (destination request : List ℕ) (hops : ℕ) (ephemeral : List ℕ)
      (now : ℕ) (proof : List ℕ)
      → AcceptedValid (accept p sha256 g identity destination request hops ephemeral now proof)
  unfolding accept
  accept-Valid identity destination request hops ephemeral now proof =
      accept_view-Valid identity destination request hops ephemeral now proof _

  -- Where a session can be: accepted from a request, or a call later.
  pub data IsUsed : ResponderSession → Type 0 where
    accepted :
        {s : ResponderSession} {n : ℕ} {written : List ℕ}
        → (identity : LocalIdentity) → (destination request : List ℕ) → (hops : ℕ)
        → (ephemeral : List ℕ) → (now : ℕ) → (proof : List ℕ)
        → accept p sha256 g identity destination request hops ephemeral now proof
          ≡ (written, ok (s, n))
        → IsUsed s
    received :
        {s : ResponderSession}
        → IsUsed s
        → (context : PacketContext) → (bytes : List ℕ) → (now : ℕ) → (out : List ℕ)
        → IsUsed (receive p g identity_hash peer_rtt_ms s context bytes now out).0
    ticked : {s : ResponderSession} → IsUsed s → (now : ℕ) → IsUsed (tick s now).0
    sent :
        {s : ResponderSession}
        → IsUsed s
        → (plaintext iv out : List ℕ) → (now : ℕ) → IsUsed (seal_data p s plaintext iv out now).0
    replied : {s : ResponderSession} → IsUsed s → (now : ℕ) → IsUsed (keepalive_response s now).0
    torn : {s : ResponderSession} → IsUsed s → (iv out : List ℕ) → IsUsed (teardown p s iv out).0

  receive-IsValid :
      (s : ResponderSession) (context : PacketContext) (bytes : List ℕ) (now : ℕ) (out : List ℕ)
      → IsValid s
      → IsValid (receive p g identity_hash peer_rtt_ms s context bytes now out).0
  unfolding receive
  receive-IsValid s context bytes now out v =
      if-IsValid (is_closed s.state) _ _ v
        (receive_open-IsValid p g identity_hash peer_rtt_ms s context bytes now out v)

  sealed-IsValid :
      (s : ResponderSession) (now : ℕ) (r : List ℕ × Result CryptoError ℕ)
      → IsValid s
      → IsValid (sealed p s now r).0
  sealed-IsValid s now (out, err e) v = v
  sealed-IsValid s now (out, ok n) v = sent-IsValid s (some now) v

  seal_data-IsValid :
      (s : ResponderSession) (plaintext iv out : List ℕ) (now : ℕ)
      → IsValid s
      → IsValid (seal_data p s plaintext iv out now).0
  unfolding seal_data
  seal_data-IsValid s plaintext iv out now v = elim (Bool-cases (is_up s.state)) [
    | inl t ↦ rw t (sealed-IsValid s now (link_encrypt p s.keys plaintext iv out) v)
    | inr t ↦ rw t v
  ]

  teardown-IsValid :
      (s : ResponderSession) (iv out : List ℕ) → IsValid s → IsValid (teardown p s iv out).0
  unfolding teardown
  teardown-IsValid s iv out v = elim (Bool-cases (is_closed s.state)) [
    | inl t ↦ rw t v
    | inr t ↦ rw t (closed-IsValid s v)
  ]

  keepalive_response-IsValid :
      (s : ResponderSession) (now : ℕ) → IsValid s → IsValid (keepalive_response s now).0
  unfolding keepalive_response
  keepalive_response-IsValid s now v = sent-IsValid s (some now) v

  -- Whatever packets, sends and times an accepted session sees, its keepalive lies between 5 and
  -- 360 seconds, its stale time is twice that, and in each state it has the times that the timeouts
  -- of the state read.
  pub IsUsed-IsValid : (s : ResponderSession) → IsUsed s → IsValid s
  IsUsed-IsValid _
        (accepted {s} {n} {written} identity destination request hops ephemeral now proof e) =
      subst AcceptedValid e (accept-Valid identity destination request hops ephemeral now proof)
  IsUsed-IsValid _ (received {s} u context bytes now out) =
      receive-IsValid s context bytes now out (IsUsed-IsValid s u)
  IsUsed-IsValid _ (ticked {s} u now) = tick-IsValid s now (IsUsed-IsValid s u)
  IsUsed-IsValid _ (sent {s} u plaintext iv out now) =
      seal_data-IsValid s plaintext iv out now (IsUsed-IsValid s u)
  IsUsed-IsValid _ (replied {s} u now) = keepalive_response-IsValid s now (IsUsed-IsValid s u)
  IsUsed-IsValid _ (torn {s} u iv out) = teardown-IsValid s iv out (IsUsed-IsValid s u)
