-- ===== src/Lora/Airtime/Laws.antt =====
-- What the limiter of src/lora.rs admits in a window, and when it admits again.
use rs_reticulum_lite.Prelude.{
  ℕ, ◌+◌, ◌≤◌, ◌<◌, max, ◌≡◌, refl, ap, Bool, true, false, arith, Bool-cases, ◌⊎◌, inl, inr, ◌-◌,
  ◌||◌, leb, ltb, ◌==◌,
}
use rs_reticulum_lite.Prelude.Words.{u64_max, saturating_add}
use rs_reticulum_lite.Lora.Airtime.{
  AirtimeLimiter, refresh, budget_ms, admits, can_reserve, reserve, wait_ms, restart,
}

abbrev pub budget : AirtimeLimiter → ℕ
budget l = max (budget_ms l) 1

-- A frame that is admitted is charged its airtime, and the window, after the refresh, has room for
-- it, or is empty and the frame alone is over the budget, or the frame has no airtime; a refusal
-- charges nothing.
abbrev pub Reserved : AirtimeLimiter → ℕ → AirtimeLimiter × Bool → Type 0
Reserved before airtime (after, true) =
    (after ≡ record before { used_airtime_ms = before.used_airtime_ms + airtime })
    × ((airtime ≡ 0)
        ⊎ (before.used_airtime_ms + airtime ≤ budget before)
        ⊎ ((before.used_airtime_ms ≡ 0) × (budget before < airtime)))
Reserved before airtime (after, false) =
    (after ≡ before)
    × (0 < before.used_airtime_ms)
    × (budget before < before.used_airtime_ms + airtime)

admits-cases :
    (l : AirtimeLimiter) (airtime : ℕ)
    → l.used_airtime_ms + airtime ≤ u64_max
    → admits l airtime ≡ true
    → (airtime ≡ 0)
      ⊎ (l.used_airtime_ms + airtime ≤ budget l)
      ⊎ ((l.used_airtime_ms ≡ 0) × (budget l < airtime))
unfolding admits
admits-cases l airtime h e = ground arith

refused-cases :
    (l : AirtimeLimiter) (airtime : ℕ)
    → l.used_airtime_ms + airtime ≤ u64_max
    → admits l airtime ≡ false
    → (0 < l.used_airtime_ms) × (budget l < l.used_airtime_ms + airtime)
unfolding admits
refused-cases l airtime h e = ground arith

admits_empty :
    (l : AirtimeLimiter) (airtime : ℕ)
    → airtime ≤ u64_max
    → l.used_airtime_ms ≡ 0
    → admits l airtime ≡ true
unfolding admits
admits_empty l airtime h e = ground arith

refresh-cases :
    (l : AirtimeLimiter) (now : ℕ)
    → (refresh l now ≡ restart l now)
      ⊎ ((refresh l now ≡ l) × (l.window_start_ms ≤ now) × (now < l.window_start_ms + l.window_ms))
unfolding refresh
refresh-cases l now = elim (Bool-cases (l.window_ms == 0 || ltb now l.window_start_ms)) [
  | inl t ↦ rw t (inl refl)
  | inr f ↦ elim (Bool-cases (leb l.window_ms (now - l.window_start_ms))) [
    | inl t ↦ rw (f, t) (inl refl)
    | inr g ↦ rw (f, g) (inr (refl, ground arith, ground arith))
  ]
]

refresh-used :
    (l : AirtimeLimiter) (now : ℕ)
    → l.window_start_ms + l.window_ms ≤ now
    → (refresh l now).used_airtime_ms ≡ 0
refresh-used l now h = elim (refresh-cases l now) [
  | inl e ↦ ap (λ r. r.used_airtime_ms) e
  | inr (e, a, b) ↦ absurd (omega arith)
]

-- Where the sum does not saturate, a frame that `reserve` admits is charged exactly its airtime and
-- nothing else changes in the refreshed limiter; then the charge stays in the budget, or the window
-- was empty and the frame alone is over the budget, or the frame has no airtime. A refusal leaves the
-- refreshed limiter as it is, and happens only where the window is not empty and the charge would
-- exceed the budget.
pub reserve-Reserved :
    (l : AirtimeLimiter) (airtime now : ℕ)
    → (refresh l now).used_airtime_ms + airtime ≤ u64_max
    → Reserved (refresh l now) airtime (reserve l airtime now)
unfolding reserve can_reserve
reserve-Reserved l airtime now h =
    let r : AirtimeLimiter = refresh l now in
    elim (Bool-cases (admits r airtime)) [
      | inl t ↦
          let sum : saturating_add r.used_airtime_ms airtime ≡ r.used_airtime_ms + airtime =
            ground arith in
          rw t (ap (λ u. record r { used_airtime_ms = u }) sum, admits-cases r airtime h t)
      | inr f ↦ rw f (let (u, o) = refused-cases r airtime h f in (refl, u, o))
    ]

-- After the wait that `wait_ms` names, the frame is admitted, whatever its airtime, as long as the
-- ends of the windows do not saturate the clock.
pub wait_ms_lem :
    (l : AirtimeLimiter) (airtime now : ℕ)
    → now + l.window_ms ≤ u64_max
    → l.window_start_ms + l.window_ms ≤ u64_max
    → airtime ≤ u64_max
    → let waited = wait_ms l airtime now in (can_reserve waited.0 airtime (now + waited.1)).1 ≡ true
unfolding wait_ms can_reserve
wait_ms_lem l airtime now h b u =
    let r : AirtimeLimiter = refresh l now in
    let ends : r.window_start_ms + r.window_ms ≤ u64_max = elim (refresh-cases l now) [
      | inl e ↦ rw e h
      | inr (e, g, g') ↦ rw e b
    ] in
    elim (Bool-cases (admits r airtime)) [
      | inl t ↦ rw t (again (now + 0) (omega arith) t)
      | inr f ↦ rw f (
          admits_empty (refresh r (now + (saturating_add r.window_start_ms r.window_ms - now)))
            airtime u (refresh-used r _ (omega arith)))
    ]
  where
    again :
        (at : ℕ)
        → at ≡ now
        → admits (refresh l now) airtime ≡ true
        → admits (refresh (refresh l now) at) airtime ≡ true
    again at e t = elim (refresh-cases (refresh l now) at) [
      | inl g ↦ admits_empty _ airtime u (ap (λ r. r.used_airtime_ms) g)
      | inr (g, g', g'') ↦ rw g t
    ]
