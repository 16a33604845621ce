-- ===== src/Resource/Window.antt =====
-- The request window of src/resource.rs.
pub mod Laws
use rs_reticulum_lite.Prelude.{ℕ, ◌+◌, ◌-◌, if◌then◌else◌, ◌==◌, ltb, leb}
use rs_reticulum_lite.Prelude.Words.{saturating_sub}

abbrev pub window_initial : ℕ
window_initial = 4

abbrev pub window_min_initial : ℕ
window_min_initial = 2

abbrev pub window_max_slow : ℕ
window_max_slow = 10

abbrev pub window_max_very_slow : ℕ
window_max_very_slow = 4

abbrev pub window_max_fast : ℕ
window_max_fast = 75

abbrev pub fast_rate_threshold : ℕ
fast_rate_threshold = 4

abbrev pub very_slow_rate_threshold : ℕ
very_slow_rate_threshold = 2

abbrev pub rate_fast : ℕ
rate_fast = 6250

abbrev pub rate_very_slow : ℕ
rate_very_slow = 250

abbrev pub window_flexibility : ℕ
window_flexibility = 4

pub record WindowState : Type 0 where
  pub window : ℕ
  pub window_min : ℕ
  pub window_max : ℕ
  pub fast_rate_rounds : ℕ
  pub very_slow_rate_rounds : ℕ

unfoldable pub new : WindowState
new = record {
  window = window_initial;
  window_min = window_min_initial;
  window_max = window_max_slow;
  fast_rate_rounds = 0;
  very_slow_rate_rounds = 0;
}

-- The first half of `grow`: the window opens under its ceiling.
unfoldable pub opened : WindowState → WindowState
opened w =
    let wider : WindowState = record w { window = w.window + 1 } in
    let floor : WindowState = record wider { window_min = w.window_min + 1 } in
    if ltb w.window w.window_max
    then (if ltb (window_flexibility - 1) (saturating_sub (w.window + 1) w.window_min)
        then floor
        else wider)
    else w

-- The second half: the rate moves the ceiling.
unfoldable pub rated : WindowState → ℕ → WindowState
rated w rate =
    let fast : WindowState = record w {
      fast_rate_rounds = w.fast_rate_rounds + 1;
      very_slow_rate_rounds = 0;
    } in
    let promoted : WindowState = record fast { window_max = window_max_fast } in
    let slow : WindowState = record w {
      very_slow_rate_rounds = w.very_slow_rate_rounds + 1;
      fast_rate_rounds = 0;
    } in
    let demoted : WindowState = record slow { window_max = window_max_very_slow } in
    let clamped : WindowState = record demoted { window = window_max_very_slow } in
    let cleared : WindowState = record w { fast_rate_rounds = 0; very_slow_rate_rounds = 0 } in
    if rate == 0
    then w
    else if ltb rate_fast rate
    then (if leb fast_rate_threshold (w.fast_rate_rounds + 1) then promoted else fast)
    else if ltb rate rate_very_slow
    then (if leb very_slow_rate_threshold (w.very_slow_rate_rounds + 1)
        then (if ltb window_max_very_slow w.window then clamped else demoted)
        else slow)
    else cleared

unfoldable pub grow : WindowState → ℕ → WindowState
grow w rate = rated (opened w) rate

-- The three tests of `shrink`, each on what the one before left.
unfoldable pub narrowed : WindowState → WindowState
narrowed w =
    let less : WindowState = record w { window = w.window - 1 } in
    if ltb w.window_min w.window then less else w

unfoldable pub lowered : WindowState → WindowState
lowered w =
    let less : WindowState = record w { window_max = w.window_max - 1 } in
    if ltb w.window_min w.window_max then less else w

unfoldable pub banded : WindowState → WindowState
banded w =
    let less : WindowState = record w { window_max = w.window_max - 1 } in
    if ltb (window_flexibility - 1) (saturating_sub w.window_max w.window) then less else w

unfoldable pub shrink : WindowState → WindowState
shrink w = banded (lowered (narrowed w))
