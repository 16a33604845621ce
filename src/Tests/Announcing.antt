-- ===== src/Tests/Announcing.antt =====
-- Announces of src/announce_state.rs and src/announce_admission.rs.
use rs_reticulum_lite.Prelude.{
  ℕ, ◌+◌, ◌-◌, ◌*◌, ◌≤◌, refl, List, [], ◌∷◌, Option, none, some, arith,
}
use rs_reticulum_lite.Announce.State.{AnnounceWireState}
use rs_reticulum_lite.Announce.State.Laws.{emitted, Increasing, emitted-Increasing}
use rs_reticulum_lite.Announce.Admission.{AnnounceAdmissionConfig, new, rate_at}
use rs_reticulum_lite.Announce.Admission.Bound.{admitted, admitted_fresh}

abbrev hundred : AnnounceWireState
hundred = record { last_value = some 100 }

abbrev walls : List (Option ℕ)
walls = some 105 ∷ some 99 ∷ none ∷ some 200 ∷ []

emitted-Increasing_example : Increasing (some 100) (emitted hundred walls)
emitted-Increasing_example = emitted-Increasing hundred walls (omega arith)

abbrev limited : AnnounceAdmissionConfig
limited = record { steady_per_sec = 5; grace_per_sec = 3; grace_secs = 60 }

admitted_fresh_example :
    admitted new limited (0 ∷ 0 ∷ 0 ∷ 0 ∷ 400 ∷ []) * 1000 ≤ (1000 + (400 - 0)) * 3
unfolding rate_at
admitted_fresh_example =
    admitted_fresh limited 3 0 400 (0 ∷ 0 ∷ 0 ∷ 400 ∷ []) (omega arith) (omega arith) refl (
      omega arith,
      refl,
      (omega arith, refl, (omega arith, refl, (omega arith, refl, omega arith))),
    )
