-- ===== src/Resource/Watchdog.antt =====
-- The advertisement watchdog of src/resource.rs.
pub mod Laws
use rs_reticulum_lite.Prelude.{ℕ, ◌+◌, Bool, true, false, ◌||◌, if◌then◌else◌, ltb, leb}
use rs_reticulum_lite.Prelude.Words.{saturating_sub, saturating_add, saturating_mul}

abbrev pub max_adv_retries : ℕ
max_adv_retries = 4

abbrev pub adv_processing_grace_ms : ℕ
adv_processing_grace_ms = 1000

abbrev pub traffic_timeout_factor : ℕ
traffic_timeout_factor = 6

pub data AdvWatchdogAction : Type 0 where
  wait resend failed : AdvWatchdogAction

pub record AdvWatchdog : Type 0 where
  pub marked_ms : ℕ
  pub retries : ℕ
  pub concluded : Bool

unfoldable pub new : ℕ → AdvWatchdog
new sent_at_ms = record { marked_ms = sent_at_ms; retries = 0; concluded = false }

unfoldable pub deadline_ms : ℕ → ℕ
deadline_ms rtt_ms =
    saturating_add (saturating_mul rtt_ms traffic_timeout_factor) adv_processing_grace_ms

unfoldable pub request_seen : AdvWatchdog → AdvWatchdog
request_seen w = record w { concluded = true }

unfoldable pub poll : AdvWatchdog → ℕ → ℕ → AdvWatchdog × AdvWatchdogAction
poll w now_ms rtt_ms =
    let again : AdvWatchdog = record w { retries = w.retries + 1; marked_ms = now_ms } in
    let over : AdvWatchdog = record w { concluded = true } in
    if w.concluded || leb (saturating_sub now_ms w.marked_ms) (deadline_ms rtt_ms)
    then (w, wait)
    else if ltb w.retries max_adv_retries
    then (again, resend)
    else (over, failed)
