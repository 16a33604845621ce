-- ===== src/Resource/Watchdog/Laws.antt =====
-- The retries of the advertisement watchdog of src/resource.rs are bounded.
use rs_reticulum_lite.Prelude.{
  ℕ, suc, ◌+◌, ◌-◌, ◌≤◌, ◌<◌, ◌≡◌, refl, List, [], ◌∷◌, true, false, ◌||◌, ltb, leb, arith,
  Bool-cases, inl, inr, length, lt→leb,
}
use rs_reticulum_lite.Resource.Watchdog.{
  AdvWatchdog, AdvWatchdogAction, wait, resend, failed, max_adv_retries, new, deadline_ms, poll,
}

-- The actions of a sequence of polls, each with a time and a round-trip time.
unfoldable pub poll_all : AdvWatchdog → List (ℕ × ℕ) → List AdvWatchdogAction
poll_all w [] = []
poll_all w ((now, rtt) ∷ ps) = (poll w now rtt).1 ∷ poll_all (poll w now rtt).0 ps

abbrev pub resends : List AdvWatchdogAction → ℕ
resends [] = 0
resends (wait ∷ rest) = resends rest
resends (resend ∷ rest) = suc (resends rest)
resends (failed ∷ rest) = resends rest

abbrev pub failures : List AdvWatchdogAction → ℕ
failures [] = 0
failures (wait ∷ rest) = failures rest
failures (resend ∷ rest) = failures rest
failures (failed ∷ rest) = suc (failures rest)

concluded_waits : (w : AdvWatchdog) (now rtt : ℕ) → w.concluded ≡ true → poll w now rtt ≡ (w, wait)
unfolding poll
concluded_waits w now rtt h = rw h refl

pub concluded_silent :
    (w : AdvWatchdog) (ps : List (ℕ × ℕ))
    → w.concluded ≡ true
    → (resends (poll_all w ps) ≡ 0) × (failures (poll_all w ps) ≡ 0)
unfolding poll_all
concluded_silent w [] h = (refl, refl)
concluded_silent w ((now, rtt) ∷ ps) h = rw (concluded_waits w now rtt h) (concluded_silent w ps h)

-- Each poll comes after the deadline that the one before has left.
abbrev pub IsOverdue : ℕ → List (ℕ × ℕ) → Type 0
IsOverdue marked [] = Unit
IsOverdue marked ((now, rtt) ∷ ps) = (deadline_ms rtt < now - marked) × IsOverdue now ps

overdue_fails :
    (w : AdvWatchdog) (ps : List (ℕ × ℕ))
    → w.concluded ≡ false
    → w.retries ≤ max_adv_retries
    → IsOverdue w.marked_ms ps
    → max_adv_retries < w.retries + length ps
    → (resends (poll_all w ps) + w.retries ≡ max_adv_retries) × (failures (poll_all w ps) ≡ 1)
unfolding poll_all poll
overdue_fails w [] live h late enough = absurd (omega arith)
overdue_fails w ((now, rtt) ∷ ps) live h (late, next) enough =
    let ripe : (w.concluded || leb (now - w.marked_ms) (deadline_ms rtt)) ≡ false =
      rw live (lt→leb (now - w.marked_ms) (deadline_ms rtt) late) in
    elim (Bool-cases (ltb w.retries max_adv_retries)) [
      | inl t ↦
          let again : AdvWatchdog = record w { retries = w.retries + 1; marked_ms = now } in
          let (r, f) = overdue_fails again ps live (ground arith) next (omega (arith, enough)) in
          rw (ripe, t) (omega arith, f)
      | inr b ↦
          let over : AdvWatchdog = record w { concluded = true } in
          let (r, f) = concluded_silent over ps refl in rw (ripe, b) (ground arith, omega arith)
    ]

-- A new watchdog that is polled at least five times, each time after the deadline counted from the
-- poll before, resends exactly four times and fails exactly once.
pub poll_all-IsOverdue :
    (sent : ℕ) (ps : List (ℕ × ℕ))
    → IsOverdue sent ps
    → max_adv_retries < length ps
    → (resends (poll_all (new sent) ps) ≡ max_adv_retries) × (failures (poll_all (new sent) ps) ≡ 1)
unfolding new
poll_all-IsOverdue sent ps late enough =
    let (r, f) = overdue_fails (new sent) ps refl (omega arith) late (omega (arith, enough)) in
    (omega arith, f)
