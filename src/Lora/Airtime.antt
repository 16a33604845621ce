-- ===== src/Lora/Airtime.antt =====
-- `AirtimeLimiter` of src/lora.rs: a fixed window of airtime.
pub mod Laws
use rs_reticulum_lite.Prelude.{
  ℕ, ◌+◌, ◌*◌, ◌/◌, min, max, Bool, true, false, if◌then◌else◌, ◌==◌, ◌||◌, ◌&&◌, ltb, leb,
}
use rs_reticulum_lite.Prelude.Words.{saturating_add, saturating_sub, saturating_mul, u16_max}

abbrev pub basis_points_denominator : ℕ
basis_points_denominator = 10000

pub record AirtimeLimiter : Type 0 where
  pub window_ms : ℕ
  pub max_utilization_bps : ℕ
  pub window_start_ms : ℕ
  pub used_airtime_ms : ℕ

unfoldable pub new : ℕ → ℕ → AirtimeLimiter
new window_ms max_utilization_bps = record {
  window_ms = window_ms;
  max_utilization_bps = max_utilization_bps;
  window_start_ms = 0;
  used_airtime_ms = 0;
}

abbrev pub restart : AirtimeLimiter → ℕ → AirtimeLimiter
restart l now_ms = record l { window_start_ms = now_ms; used_airtime_ms = 0 }

unfoldable pub refresh : AirtimeLimiter → ℕ → AirtimeLimiter
refresh l now_ms =
    if l.window_ms == 0 || ltb now_ms l.window_start_ms
    then restart l now_ms
    else if leb l.window_ms (saturating_sub now_ms l.window_start_ms)
    then restart l now_ms
    else l

unfoldable pub budget_ms : AirtimeLimiter → ℕ
budget_ms l = saturating_mul l.window_ms l.max_utilization_bps / basis_points_denominator

-- The test of `can_reserve` after the refresh.
unfoldable pub admits : AirtimeLimiter → ℕ → Bool
admits l airtime_ms =
    if airtime_ms == 0
    then true
    else let budget : ℕ = max (budget_ms l) 1 in
      leb (saturating_add l.used_airtime_ms airtime_ms) budget
      || (l.used_airtime_ms == 0 && ltb budget airtime_ms)

unfoldable pub can_reserve : AirtimeLimiter → ℕ → ℕ → AirtimeLimiter × Bool
can_reserve l airtime_ms now_ms = (refresh l now_ms, admits (refresh l now_ms) airtime_ms)

abbrev pub charge : AirtimeLimiter × Bool → ℕ → AirtimeLimiter × Bool
charge (l, true) airtime_ms =
    (record l { used_airtime_ms = saturating_add l.used_airtime_ms airtime_ms }, true)
charge (l, false) airtime_ms = (l, false)

unfoldable pub reserve : AirtimeLimiter → ℕ → ℕ → AirtimeLimiter × Bool
reserve l airtime_ms now_ms = charge (can_reserve l airtime_ms now_ms) airtime_ms

unfoldable pub utilization_bps : AirtimeLimiter → ℕ → AirtimeLimiter × ℕ
utilization_bps l now_ms =
    let r : AirtimeLimiter = refresh l now_ms in
    (
      r,
      if r.window_ms == 0
          then 0
          else min (saturating_mul r.used_airtime_ms basis_points_denominator / r.window_ms)
              u16_max,
    )

unfoldable pub used_airtime_ms : AirtimeLimiter → ℕ → AirtimeLimiter × ℕ
used_airtime_ms l now_ms = (refresh l now_ms, (refresh l now_ms).used_airtime_ms)

abbrev pub wait_after : AirtimeLimiter × Bool → ℕ → AirtimeLimiter × ℕ
wait_after (l, true) now_ms = (l, 0)
wait_after (l, false) now_ms =
    (l, saturating_sub (saturating_add l.window_start_ms l.window_ms) now_ms)

unfoldable pub wait_ms : AirtimeLimiter → ℕ → ℕ → AirtimeLimiter × ℕ
wait_ms l airtime_ms now_ms = wait_after (can_reserve l airtime_ms now_ms) now_ms
