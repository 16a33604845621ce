-- ===== src/Resource/Window/Laws.antt =====
-- The bounds of the request window of src/resource.rs.
use rs_reticulum_lite.Prelude.{ℕ, ◌-◌, ◌≤◌, ◌<◌, arith, ltb, ◌⊎◌, inl, inr, Bool-cases}
use rs_reticulum_lite.Resource.Window.{
  WindowState, new, opened, rated, grow, narrowed, lowered, banded, shrink, window_max_fast,
}

-- The window stays between two parts and its ceiling, and the ceiling is at most the fast one.
pub record IsValid (w : WindowState) : Type 0 where
  pub some_parts : 2 ≤ w.window
  pub floor : 2 ≤ w.window_min
  pub ceiling : w.window ≤ w.window_max
  pub fast : w.window_max ≤ window_max_fast

pub new-IsValid : IsValid new
unfolding new
new-IsValid = record {
  some_parts = omega arith;
  floor = omega arith;
  ceiling = omega arith;
  fast = omega arith;
}

opened-IsValid : (w : WindowState) → IsValid w → IsValid (opened w)
unfolding opened
opened-IsValid w v = record {
  some_parts = ground (arith, v.some_parts);
  floor = ground (arith, v.floor);
  ceiling = ground (arith, v.ceiling);
  fast = ground (arith, v.fast);
}

rated-IsValid : (w : WindowState) (rate : ℕ) → IsValid w → IsValid (rated w rate)
unfolding rated
rated-IsValid w rate v = record {
  some_parts = ground (arith, v.some_parts);
  floor = ground (arith, v.floor);
  ceiling = ground (arith, v.ceiling, v.fast);
  fast = ground (arith, v.fast);
}

pub grow-IsValid : (w : WindowState) (rate : ℕ) → IsValid w → IsValid (grow w rate)
unfolding grow
grow-IsValid w rate v = rated-IsValid (opened w) rate (opened-IsValid w v)

-- After the first test of `shrink` the window is under its floor or has room to its ceiling.
record IsNarrow (w : WindowState) : Type 0 where
  valid : IsValid w
  slack : (w.window ≤ w.window_min) ⊎ (w.window < w.window_max)

narrowed-IsNarrow : (w : WindowState) → IsValid w → IsNarrow (narrowed w)
unfolding narrowed
narrowed-IsNarrow w v = elim (Bool-cases (ltb w.window_min w.window)) [
  | inl t ↦ rw t record {
    valid = record {
      some_parts = ground (arith, v.floor);
      floor = v.floor;
      ceiling = omega (arith, v.ceiling);
      fast = v.fast;
    };
    slack = inr (omega (arith, v.some_parts, v.ceiling));
  }
  | inr f ↦ rw f record { valid = v; slack = inl (ground arith) }
]

lowered-IsValid : (w : WindowState) → IsNarrow w → IsValid (lowered w)
unfolding lowered
lowered-IsValid w n =
    let v = n.valid in
    elim (Bool-cases (ltb w.window_min w.window_max)) [
      | inl t ↦ rw t record {
        some_parts = v.some_parts;
        floor = v.floor;
        ceiling = elim n.slack [ inl l ↦ ground arith | inr l ↦ omega (arith, l) ];
        fast = omega (arith, v.fast);
      }
      | inr f ↦ rw f v
    ]

banded-IsValid : (w : WindowState) → IsValid w → IsValid (banded w)
unfolding banded
banded-IsValid w v = elim (Bool-cases (ltb 3 (w.window_max - w.window))) [
  | inl t ↦ rw t record {
    some_parts = v.some_parts;
    floor = v.floor;
    ceiling = ground (arith, v.ceiling);
    fast = omega (arith, v.fast);
  }
  | inr f ↦ rw f v
]

pub shrink-IsValid : (w : WindowState) → IsValid w → IsValid (shrink w)
unfolding shrink
shrink-IsValid w v =
    banded-IsValid (lowered (narrowed w)) (lowered-IsValid (narrowed w) (narrowed-IsNarrow w v))

-- The steps of the host: a batch at a rate, or a timeout.
pub data IsDriven : WindowState → Type 0 where
  start : IsDriven new
  grown : {w : WindowState} → IsDriven w → (rate : ℕ) → IsDriven (grow w rate)
  shrunk : {w : WindowState} → IsDriven w → IsDriven (shrink w)

-- Whatever batches and timeouts a window has seen, it asks for at least two parts and at most its
-- ceiling, the ceiling is at most 75, and the floor at least two.
pub IsDriven-IsValid : (w : WindowState) → IsDriven w → IsValid w
IsDriven-IsValid _ start = new-IsValid
IsDriven-IsValid _ (grown {w} s rate) = grow-IsValid w rate (IsDriven-IsValid w s)
IsDriven-IsValid _ (shrunk {w} s) = shrink-IsValid w (IsDriven-IsValid w s)
