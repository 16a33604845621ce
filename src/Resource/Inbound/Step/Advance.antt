-- ===== src/Resource/Inbound/Step/Advance.antt =====
-- The loop of src/resource.rs that advances over the received slots.
use rs_reticulum_lite.Prelude.{
  ℕ, zero, suc, ◌+◌, ◌-◌, ◌≤◌, ◌<◌, ◌≡◌, ap, ◌∙◌, ◌⊎◌, inl, inr, List, Bool, true, false, ltb,
  get_or, arith, Bool-cases,
}
use rs_reticulum_lite.Resource.Inbound.{advance}

-- Where the loop stops: at the end, or at the first slot that is not received.
pub record Advanced (received : List Bool) (total from to : ℕ) : Type 0 where
  pub forward : from ≤ to
  pub inside : to ≤ total
  pub filled : (j : ℕ) → from ≤ j → j < to → get_or received j false ≡ true
  pub stopped : (to ≡ total) ⊎ (get_or received to false ≡ false)

-- With as many rounds as slots are left, the loop over the received slots ends: at the end of the
-- slots or at the first one, from where it began, that is not received.
pub advance-Advanced :
    (received : List Bool) (total fuel c : ℕ)
    → c ≤ total
    → total - c ≤ fuel
    → Advanced received total c (advance received total fuel c)
unfolding advance
advance-Advanced received total zero c h enough = record {
  forward = omega arith;
  inside = h;
  filled = λ j a b. absurd (omega arith);
  stopped = inl (omega arith);
}
advance-Advanced received total (suc fuel) c h enough = elim (Bool-cases (ltb c total)) [
  | inr f ↦ rw f record {
    forward = omega arith;
    inside = h;
    filled = λ j a b. absurd (omega arith);
    stopped = inl (ground arith);
  }
  | inl t ↦ elim (Bool-cases (get_or received c false)) [
    | inr g ↦
        rw (t, g)
          record {
            forward = omega arith;
            inside = h;
            filled = λ j a b. absurd (omega arith);
            stopped = inr g;
          }
    | inl g ↦
        let next = advance-Advanced received total fuel (c + 1) (ground arith) (omega arith) in
        rw (t, g)
          record {
            forward = omega (arith, next.forward);
            inside = next.inside;
            filled = λ j a b. elim (Bool-cases (ltb c j)) [
              | inl l ↦ next.filled j (ground arith) b
              | inr l ↦
                  let same : j ≡ c = ground arith in ap (λ k. get_or received k false) same ∙ g
            ];
            stopped = next.stopped;
          }
  ]
]
