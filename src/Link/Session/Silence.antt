-- ===== src/Link/Session/Silence.antt =====
-- How a session of src/link_session.rs ends when its peer falls silent.
use rs_reticulum_lite.Prelude.{
  ℕ, ◌+◌, ◌-◌, ◌*◌, ◌≤◌, ◌<◌, ◌≡◌, refl, ap, ap₂, ◌∙◌, inl, inr, max, Option, none, some, List,
  true, false, if◌then◌else◌, leb, Bool-cases, arith,
}
use rs_reticulum_lite.Prelude.Words.{u64_max, saturating_add, saturating_mul}
use rs_reticulum_lite.Prelude.Result.{Result, ok, err}
use rs_reticulum_lite.Wire.Context.{no_context}
use rs_reticulum_lite.Crypto.{Primitives, CryptoError}
use rs_reticulum_lite.Link.{Signatures, link_decrypt}
use rs_reticulum_lite.Link.Session.{
  ResponderSession, SessionState, handshake, active, stale, closed, payload, no_action,
  turned_stale, teardown_due, keepalive_timeout_factor, stale_grace_ms, is_handshake, is_up,
  is_closed, heard_in, record_inbound, tick_in, grace_ms, latest_ms, tick,
}
use rs_reticulum_lite.Link.Session.Receive.{decrypted, receive}
use rs_reticulum_lite.Link.Session.Valid.{IsValid}

-- A session that has just heard its peer at `t`, with what its timeouts read.
record IsHeard (u : ResponderSession) (k t a r : ℕ) : Type 0 where
  awake : u.state ≡ active
  heard : u.last_inbound_ms ≡ t
  since : u.activated_ms ≡ some a
  stale_after : u.stale_ms ≡ k * 2
  trip : u.rtt_ms ≡ some r

heard_in-IsHeard :
    (q : SessionState) (s : ResponderSession) (k t a r : ℕ)
    → s.state ≡ q
    → is_up q ≡ true
    → s.activated_ms ≡ some a
    → s.stale_ms ≡ k * 2
    → s.rtt_ms ≡ some r
    → IsHeard (heard_in q s t) k t a r
heard_in-IsHeard handshake s k t a r e up ha hk hr = cc
heard_in-IsHeard active s k t a r e up ha hk hr = record {
  awake = e;
  heard = refl;
  since = ha;
  stale_after = hk;
  trip = hr;
}
heard_in-IsHeard stale s k t a r e up ha hk hr = record {
  awake = refl;
  heard = refl;
  since = ha;
  stale_after = hk;
  trip = hr;
}
heard_in-IsHeard closed s k t a r e up ha hk hr = cc

module _ (u : ResponderSession) (k t a r : ℕ) (h : IsHeard u k t a r) (order : a ≤ t) where
  latest : latest_ms u ≡ t
  latest =
      ap (λ o. elim o as (λ x. ℕ) [ none ↦ u.last_inbound_ms | some b ↦ max b u.last_inbound_ms ])
        h.since
      ∙ omega (arith, h.heard, order)

  abbrev turn : ℕ → ResponderSession
  turn now = record u { state = stale; stale_since_ms = some now }

  branches :
      (now : ℕ)
      → tick u now ≡ (if leb (k * 2) (now - t) then (turn now, turned_stale) else (u, no_action))
  unfolding tick
  branches now =
      ap (λ q. tick_in q u now) h.awake
      ∙ ap (λ b. if b then (turn now, turned_stale) else (u, no_action))
          (ap₂ (λ x y. leb x (now - y)) h.stale_after latest)

  grace : (now : ℕ) → r * 4 + 5000 ≤ u64_max → grace_ms (turn now) ≡ r * 4 + 5000
  grace now fits =
      ap
        (λ o.
          saturating_add
            (saturating_mul (elim o as (λ x. ℕ) [ none ↦ 1000 | some b ↦ b ])
              keepalive_timeout_factor)
            stale_grace_ms)
        h.trip
      ∙ omega (arith, fits)

  -- The ticks of a session that hears nothing more.
  ticks :
      (early now soon later : ℕ)
      → 0 < k
      → r * 4 + 5000 ≤ u64_max
      → early < t + k * 2
      → t + k * 2 ≤ now
      → soon < now + (r * 4 + 5000)
      → now + (r * 4 + 5000) ≤ later
      → (tick u early ≡ (u, no_action))
        × (tick u now ≡ (turn now, turned_stale))
        × (tick (turn now) soon ≡ (turn now, no_action))
        × (tick (turn now) later ≡ (turn now, teardown_due))
        × ((record_inbound (turn now) later).state ≡ active)
  unfolding tick record_inbound
  ticks early now soon later pos fits before after_quiet within after_grace =
      let early_test : leb (k * 2) (early - t) ≡ false = ground arith in
      let quiet : leb (k * 2) (now - t) ≡ true = ground arith in
      let g = grace now fits in
      let held : leb (grace_ms (turn now)) (soon - now) ≡ false = ground (arith, g) in
      let due : leb (grace_ms (turn now)) (later - now) ≡ true = ground (arith, g) in
      (
        branches early ∙ rw early_test refl,
        branches now ∙ rw quiet refl,
        rw held refl,
        rw due refl,
        refl,
      )

up_of_open : (q : SessionState) → is_closed q ≡ false → is_handshake q ≡ false → is_up q ≡ true
up_of_open handshake h k = cc
up_of_open active h k = refl
up_of_open stale h k = refl
up_of_open closed h k = cc

module _ (p : Primitives) (g : Signatures) (identity_hash : List ℕ → List ℕ)
    (peer_rtt_ms : List ℕ → Option ℕ) where
  -- A session that has reported data is up, and has noted its peer.
  receive-payload :
      (s u : ResponderSession) (bytes out o : List ℕ) (t n : ℕ)
      → receive p g identity_hash peer_rtt_ms s no_context bytes t out ≡ (u, (o, ok (payload n)))
      → (u ≡ record_inbound s t) × (is_up s.state ≡ true)
  unfolding receive
  receive-payload s u bytes out o t n h = elim (Bool-cases (is_closed s.state)) [
    | inl c ↦ cc (rw c at h)
    | inr c ↦ elim (Bool-cases (is_handshake s.state)) [
      | inl d ↦ cc (rw (c, d) at h)
      | inr d ↦
          (by_result (link_decrypt p s.keys bytes out) (rw (c, d) at h), up_of_open s.state c d)
    ]
  ]
    where
      by_result :
          (r : List ℕ × Result CryptoError ℕ)
          → decrypted s r (λ m clear. (record_inbound s t, ok (payload m)))
            ≡ (u, (o, ok (payload n)))
          → u ≡ record_inbound s t
      by_result (plain, err e) h = cc
      by_result (plain, ok m) h = cc

  -- A valid session that has reported data at the time `t`, once activated and not before that, takes
  -- no action until twice its keepalive has passed since `t`. A tick from then on turns it stale; a
  -- stale session takes no action until four round trips and five seconds, if these fit 64 bits, have
  -- passed since it turned, a tick from then on reports that its teardown is due, and a packet heard
  -- even then makes it active again.
  pub silent_session :
      (s u : ResponderSession) (bytes out o : List ℕ) (t n a r early now soon later : ℕ)
      → IsValid s
      → receive p g identity_hash peer_rtt_ms s no_context bytes t out ≡ (u, (o, ok (payload n)))
      → s.activated_ms ≡ some a
      → a ≤ t
      → s.rtt_ms ≡ some r
      → r * 4 + 5000 ≤ u64_max
      → early < t + s.keepalive_ms * 2
      → t + s.keepalive_ms * 2 ≤ now
      → soon < now + (r * 4 + 5000)
      → now + (r * 4 + 5000) ≤ later
      → let gone = (tick u now).0 in
        (tick u early ≡ (u, no_action))
        × ((tick u now).1 ≡ turned_stale)
        × (tick gone soon ≡ (gone, no_action))
        × ((tick gone later).1 ≡ teardown_due)
        × ((record_inbound gone later).state ≡ active)
  silent_session s u bytes out o t n a r early now soon later v got ha order hr fits w x y z =
      let (noted, up) = receive-payload s u bytes out o t n got in
      let h : IsHeard u s.keepalive_ms t a r = rw noted (
        unfold record_inbound in
        heard_in-IsHeard s.state s s.keepalive_ms t a r refl up ha v.twice hr) in
      let (one, two, three, four, five) =
        ticks u s.keepalive_ms t a r h order early now soon later (omega (arith, v.least)) fits w x
          y z in
      (one, ap (λ q. q.1) two, rw two three, rw two (ap (λ q. q.1) four), rw two five)
