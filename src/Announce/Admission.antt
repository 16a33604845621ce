-- ===== src/Announce/Admission.antt =====
-- src/announce_admission.rs: a bucket of tokens for received announces.
pub mod Bound
use rs_reticulum_lite.Prelude.{
  ℕ, ◌+◌, ◌-◌, ◌*◌, min, List, [], ◌∷◌, Bool, true, false, not, if◌then◌else◌, ◌==◌, ltb,
}
use rs_reticulum_lite.Prelude.Words.{saturating_add, saturating_sub, saturating_mul}

pub record AnnounceAdmissionConfig : Type 0 where
  pub steady_per_sec : ℕ
  pub grace_per_sec : ℕ
  pub grace_secs : ℕ

pub record AnnounceAdmission : Type 0 where
  pub last_refill_ms : ℕ
  pub credit_milli : ℕ
  pub initialized : Bool

unfoldable pub new : AnnounceAdmission
new = record { last_refill_ms = 0; credit_milli = 0; initialized = false }

unfoldable pub rate_at : AnnounceAdmissionConfig → ℕ → ℕ
rate_at config now_ms =
    if ltb now_ms (saturating_mul config.grace_secs 1000)
    then config.grace_per_sec
    else config.steady_per_sec

-- The credit after the refill.
unfoldable pub refilled : AnnounceAdmission → ℕ → ℕ → ℕ
refilled a rate now_ms =
    let capacity : ℕ = saturating_mul rate 1000 in
    if not a.initialized
    then capacity
    else min
        (saturating_add a.credit_milli
          (saturating_mul (saturating_sub now_ms a.last_refill_ms) rate))
        capacity

abbrev pub spend : ℕ → ℕ → AnnounceAdmission × Bool
spend credit now_ms =
    if ltb credit 1000
    then (record { last_refill_ms = now_ms; credit_milli = credit; initialized = true }, false)
    else (
      record { last_refill_ms = now_ms; credit_milli = credit - 1000; initialized = true },
      true,
    )

unfoldable pub admit_counted : AnnounceAdmission → ℕ → ℕ → AnnounceAdmission × Bool
admit_counted a rate now_ms =
    if rate == 0
    then (record { last_refill_ms = now_ms; credit_milli = 0; initialized = true }, true)
    else spend (refilled a rate now_ms) now_ms

unfoldable pub admit :
    AnnounceAdmission → AnnounceAdmissionConfig → Bool → ℕ → AnnounceAdmission × Bool
admit a config path_response now_ms =
    if path_response then (a, true) else admit_counted a (rate_at config now_ms) now_ms
