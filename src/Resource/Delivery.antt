-- ===== src/Resource/Delivery.antt =====
-- A whole transfer of src/resource.rs, from the sender's `build` to the receiver's proof.
pub mod Start
pub mod Finish
pub mod Transfer
use rs_reticulum_lite.Prelude.{
  ℕ, zero, suc, ◌+◌, ◌-◌, ◌*◌, ◌/◌, ◌≤◌, ◌<◌, ◌≡◌, refl, sym, ap, ◌∙◌, min, List, [], ◌∷◌, ◌++◌,
  length, take, drop, arith, length-append, length-take, length-drop, take-append, drop-append, inl,
  inr, Bool-cases, ltb,
}
use rs_reticulum_lite.Resource.{sdu, get_map_hash}
use rs_reticulum_lite.Resource.Outbound.{part_of}

-- SHA-256 gives 32 bytes.
pub record IsHash (sha256 : List ℕ → List ℕ) : Type 0 where
  pub length-sha256 : (bytes : List ℕ) → length (sha256 bytes) ≡ 32

-- The parts of a buffer are those of what stands at its front.
drop-append_front : (n : ℕ) (xs ys : List ℕ) → n ≤ length xs → drop n (xs ++ ys) ≡ drop n xs ++ ys
drop-append_front zero xs ys h = refl
drop-append_front (suc n) [] ys h = absurd (omega arith)
drop-append_front (suc n) (x ∷ xs) ys h = drop-append_front n xs ys (omega arith)

take-append_front : (n : ℕ) (xs ys : List ℕ) → n ≤ length xs → take n (xs ++ ys) ≡ take n xs
take-append_front zero xs ys h = refl
take-append_front (suc n) [] ys h = absurd (omega arith)
take-append_front (suc n) (x ∷ xs) ys h = ap (◌∷◌ x) (take-append_front n xs ys (omega arith))

pub part_of-append :
    (token behind : List ℕ) (i : ℕ)
    → i * sdu < length token
    → part_of (token ++ behind) (length token) i ≡ part_of token (length token) i
part_of-append token behind i h =
    let m : ℕ = min ((i + 1) * sdu) (length token) - i * sdu in
    ap (take m) (drop-append_front (i * sdu) token behind (omega arith))
    ∙ take-append_front m (drop (i * sdu) token) behind (omega (arith, length-drop (i * sdu) token))
