-- ===== src/Announce/Admission/Bound.antt =====
-- How many announces the bucket of src/announce_admission.rs admits.
use native.Mathlib.Nat.{add-mul}
use rs_reticulum_lite.Prelude.{
  ℕ, ◌+◌, ◌-◌, ◌*◌, ◌≤◌, ◌<◌, ◌≡◌, refl, sym, ap, List, [], ◌∷◌, Bool, true, false, arith,
  Bool-cases, inl, inr, to_bit, ltb, ◌==◌, min,
}
use rs_reticulum_lite.Prelude.Words.{u16_max, u64_max}
use rs_reticulum_lite.Announce.Admission.{
  AnnounceAdmissionConfig, AnnounceAdmission, new, rate_at, refilled, admit_counted, admit,
}

-- One admission is paid from the credit and from the refill since the last call.
abbrev pub Paid : AnnounceAdmission → ℕ → ℕ → AnnounceAdmission × Bool → Type 0
Paid a rate now (after, admitted) =
    (after.initialized ≡ true)
    × (after.last_refill_ms ≡ now)
    × (after.credit_milli ≤ rate * 1000)
    × (to_bit admitted * 1000 + after.credit_milli
        ≤ a.credit_milli + (now - a.last_refill_ms) * rate)

refilled-bound :
    (a : AnnounceAdmission) (rate now : ℕ)
    → a.initialized ≡ true
    → (refilled a rate now ≤ rate * 1000)
      × (refilled a rate now ≤ a.credit_milli + (now - a.last_refill_ms) * rate)
unfolding refilled
refilled-bound a rate now i = rw i (omega arith, omega arith)

admit_counted-Paid :
    (a : AnnounceAdmission) (rate now : ℕ)
    → a.initialized ≡ true
    → 0 < rate
    → Paid a rate now (admit_counted a rate now)
unfolding admit_counted
admit_counted-Paid a rate now i h =
    let some_rate : (rate == 0) ≡ false = ground arith in
    let (full, refill) = refilled-bound a rate now i in
    elim (Bool-cases (ltb (refilled a rate now) 1000)) [
      | inl t ↦ rw (some_rate, t) (refl, refl, full, omega (arith, refill))
      | inr f ↦
          let enough : 1000 ≤ refilled a rate now = ground arith in
          rw (some_rate, f) (refl, refl, omega (arith, full), omega (arith, refill, enough))
    ]

-- The calls of a run, and how many of them were admitted.
unfoldable pub admitted : AnnounceAdmission → AnnounceAdmissionConfig → List ℕ → ℕ
admitted a config [] = 0
admitted a config (now ∷ times) =
    to_bit (admit a config false now).1 + admitted (admit a config false now).0 config times

-- The times rise, and lie in a phase of this rate that ends at `until`.
abbrev pub Rising : AnnounceAdmissionConfig → ℕ → ℕ → List ℕ → ℕ → Type 0
Rising config rate start [] until = start ≤ until
Rising config rate start (now ∷ times) until =
    (start ≤ now) × (rate_at config now ≡ rate) × Rising config rate now times until

Rising-le :
    (config : AnnounceAdmissionConfig) (rate start : ℕ) (times : List ℕ) (until : ℕ)
    → Rising config rate start times until
    → start ≤ until
Rising-le config rate start [] until h = h
Rising-le config rate start (now ∷ times) until (le, same, r) =
    omega (arith, Rising-le config rate now times until r)

parts : (a b rate c : ℕ) → c ≡ a + b → a * rate + b * rate ≡ c * rate
parts a b rate c e = rw e (sym (add-mul a b rate))

admitted-bound :
    (a : AnnounceAdmission) (config : AnnounceAdmissionConfig) (rate until : ℕ) (times : List ℕ)
    → a.initialized ≡ true
    → 0 < rate
    → Rising config rate a.last_refill_ms times until
    → admitted a config times * 1000 ≤ a.credit_milli + (until - a.last_refill_ms) * rate
unfolding admitted admit
admitted-bound a config rate until [] i h r = omega arith
admitted-bound a config rate until (now ∷ times) i h (le, same, r) =
    let after = admit_counted a rate now in
    let (ready, last, full, paid) = admit_counted-Paid a rate now i h in
    let later : Rising config rate after.0.last_refill_ms times until = rw last r in
    let rest = admitted-bound after.0 config rate until times ready h later in
    let refill : (until - now) * rate + (now - a.last_refill_ms) * rate
        ≡ (until - a.last_refill_ms) * rate =
      parts (until - now) (now - a.last_refill_ms) rate _
        (omega (arith, Rising-le config rate now times until r)) in
    rw same (omega (arith, paid, rest, refill, ap (λ t. (until - t) * rate) last))

-- In a phase of one rate, above zero, and over calls at rising times, a fresh bucket admits no more
-- than it holds when full, one second's worth, and what its rate gives between the first call and
-- the end.
pub admitted_fresh :
    (config : AnnounceAdmissionConfig) (rate first until : ℕ) (times : List ℕ)
    → 0 < rate
    → rate ≤ u16_max
    → rate_at config first ≡ rate
    → Rising config rate first times until
    → admitted new config (first ∷ times) * 1000 ≤ (1000 + (until - first)) * rate
unfolding admitted admit admit_counted refilled new
admitted_fresh config rate first until times h small same r =
    let some_rate : (rate == 0) ≡ false = ground arith in
    let enough : ltb (min (rate * 1000) u64_max) 1000 ≡ false = ground arith in
    let full : AnnounceAdmission = record {
      last_refill_ms = first;
      credit_milli = min (rate * 1000) u64_max - 1000;
      initialized = true;
    } in
    let rest = admitted-bound full config rate until times refl h r in
    rw (same, some_rate, enough) (omega (arith, rest, add-mul 1000 (until - first) rate))
