-- ===== src/Link/Session/Accept.antt =====
-- The acceptance of a link request in src/link_session.rs (`accept`).
use rs_reticulum_lite.Prelude.{ℕ, max, none, List, not, if◌then◌else◌, ◌==◌}
use rs_reticulum_lite.Prelude.Words.{saturating_add, saturating_mul}
use rs_reticulum_lite.Prelude.Result.{Result, ok, err, ◌>>=◌}
use rs_reticulum_lite.Crypto.{Primitives}
use rs_reticulum_lite.Link.{
  Signatures, LocalIdentity, LinkError, unsupported_mode, SignallingData, LinkRequestView,
  mode_aes256_cbc, default_mtu, try_new, parse_link_request, compute_link_id, build_link_proof,
  derive_link_keys,
}
use rs_reticulum_lite.Link.Session.{
  ResponderSession, handshake, SessionError, link, establishment_per_hop_ms, keepalive_default_ms,
  stale_time_default_ms,
}

module _ (p : Primitives) (sha256 : List ℕ → List ℕ) (g : Signatures) where
  abbrev pub answered :
      List ℕ
      → LinkRequestView
      → ℕ
      → List ℕ
      → ℕ
      → List ℕ × Result LinkError ℕ
      → List ℕ × Result SessionError (ResponderSession × ℕ)
  answered link_id view hops ephemeral now_ms (proof, err e) = (proof, err (link e))
  answered link_id view hops ephemeral now_ms (proof, ok n) =
      let s : ResponderSession = record {
        link_id = link_id;
        keys = derive_link_keys p ephemeral view.peer_x25519_pub link_id;
        state = handshake;
        request_ms = now_ms;
        establishment_timeout_ms =
            saturating_add (saturating_mul establishment_per_hop_ms (max hops 1))
              keepalive_default_ms;
        rtt_ms = none;
        keepalive_ms = keepalive_default_ms;
        stale_ms = stale_time_default_ms;
        last_inbound_ms = now_ms;
        last_outbound_ms = none;
        activated_ms = none;
        stale_since_ms = none;
        remote_identity_hash = none;
      } in
      (proof, ok (s, n))

  abbrev pub accept_view :
      LocalIdentity
      → List ℕ
      → List ℕ
      → ℕ
      → List ℕ
      → ℕ
      → List ℕ
      → Result LinkError (LinkRequestView × SignallingData)
      → List ℕ × Result SessionError (ResponderSession × ℕ)
  accept_view identity destination request hops ephemeral now_ms proof (err e) =
      (proof, err (link e))
  accept_view identity destination request hops ephemeral now_ms proof (ok (view, signalling)) =
      let link_id : List ℕ = compute_link_id sha256 destination request in
      answered link_id view hops ephemeral now_ms
        (build_link_proof g p identity ephemeral link_id signalling proof)

  unfoldable pub accept :
      LocalIdentity
      → List ℕ
      → List ℕ
      → ℕ
      → List ℕ
      → ℕ
      → List ℕ
      → List ℕ × Result SessionError (ResponderSession × ℕ)
  accept identity destination request hops ephemeral now_ms proof =
      accept_view identity destination request hops ephemeral now_ms proof (
        parse_link_request request >>= λ view.
        if not (view.signalling.mode == mode_aes256_cbc)
        then err unsupported_mode
        else try_new mode_aes256_cbc default_mtu >>= λ s. ok (view, s))
