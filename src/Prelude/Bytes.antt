-- ===== src/Prelude/Bytes.antt =====
-- Byte strings: equality, big-endian words, and facts on bits checked over every byte.
use Prim.Native.Nat.{ℕ, zero, suc, ◌+◌, ◌*◌, ◌/◌, ◌%◌, ◌^◌, ◌<◌}
use mathlib.Core.Path.{◌≡◌, refl, ◌∙◌}
use mathlib.Core.Logic.{◌↔◌, inl, inr}
use mathlib.Core.Bool.{Bool, true, false, ◌&&◌}
use mathlib.Core.Option.{Option, none, some}
use mathlib.Core.List.{List, [], ◌∷◌, ◌++◌}
use native.Mathlib.Omega.{arith}
use rs_reticulum_lite.Prelude.Tests.{◌==◌, if◌then◌else◌, Bool-cases}
use rs_reticulum_lite.Prelude.Lists.{length, length-append}

-- `==` on two arrays of bytes.
unfoldable pub bytes_eq : List ℕ → List ℕ → Bool
bytes_eq [] [] = true
bytes_eq [] (y ∷ ys) = false
bytes_eq (x ∷ xs) [] = false
bytes_eq (x ∷ xs) (y ∷ ys) = x == y && bytes_eq xs ys

pub eq_of_bytes_eq : (xs ys : List ℕ) → bytes_eq xs ys ≡ true → xs ≡ ys
unfolding bytes_eq
eq_of_bytes_eq [] [] h = refl
eq_of_bytes_eq [] (y ∷ ys) h = cc
eq_of_bytes_eq (x ∷ xs) [] h = cc
eq_of_bytes_eq (x ∷ xs) (y ∷ ys) h = ground (arith, eq_of_bytes_eq xs ys)

pub bytes_eq_refl : (xs : List ℕ) → bytes_eq xs xs ≡ true
unfolding bytes_eq
bytes_eq_refl [] = refl
bytes_eq_refl (x ∷ xs) = ground (arith, bytes_eq_refl xs)

pub bytes_eq_iff : (xs ys : List ℕ) → (bytes_eq xs ys ≡ true) ↔ (xs ≡ ys)
bytes_eq_iff xs ys = (eq_of_bytes_eq xs ys, λ e. rw e (bytes_eq_refl ys))

-- `==` on two optional arrays of bytes.
unfoldable pub opt_bytes_eq : Option (List ℕ) → Option (List ℕ) → Bool
opt_bytes_eq none none = true
opt_bytes_eq none (some y) = false
opt_bytes_eq (some x) none = false
opt_bytes_eq (some x) (some y) = bytes_eq x y

-- The `n` bytes of a word, the highest first (`to_be_bytes`), and the word of such bytes
-- (`from_be_bytes`).
unfoldable pub to_be_bytes : ℕ → ℕ → List ℕ
to_be_bytes zero v = []
to_be_bytes (suc n) v = to_be_bytes n (v / 256) ++ (v % 256 ∷ [])

unfoldable pub from_be_loop : ℕ → List ℕ → ℕ
from_be_loop acc [] = acc
from_be_loop acc (b ∷ bs) = from_be_loop (acc * 256 + b) bs

unfoldable pub from_be_bytes : List ℕ → ℕ
unfolding from_be_loop
from_be_bytes bs = from_be_loop 0 bs

pub length-to_be_bytes : (n v : ℕ) → length (to_be_bytes n v) ≡ n
unfolding to_be_bytes
length-to_be_bytes zero v = refl
length-to_be_bytes (suc n) v =
    omega (
      arith,
      length-to_be_bytes n (v / 256),
      length-append (to_be_bytes n (v / 256)) (v % 256 ∷ []),
    )

from_be_loop-append :
    (acc : ℕ) (xs ys : List ℕ) → from_be_loop acc (xs ++ ys) ≡ from_be_loop (from_be_loop acc xs) ys
unfolding from_be_loop
from_be_loop-append acc [] ys = refl
from_be_loop-append acc (x ∷ xs) ys = from_be_loop-append (acc * 256 + x) xs ys

from_be_loop-to_be_bytes : (n v : ℕ) → v < 256 ^ n → from_be_loop 0 (to_be_bytes n v) ≡ v
unfolding to_be_bytes from_be_loop
from_be_loop-to_be_bytes zero v h = omega arith
from_be_loop-to_be_bytes (suc n) v h =
    from_be_loop-append 0 (to_be_bytes n (v / 256)) (v % 256 ∷ [])
    ∙ omega (arith, from_be_loop-to_be_bytes n (v / 256) (omega arith))

pub from_be-to_be_bytes : (n v : ℕ) → v < 256 ^ n → from_be_bytes (to_be_bytes n v) ≡ v
unfolding from_be_bytes
from_be-to_be_bytes n v h = from_be_loop-to_be_bytes n v h

-- A test of every number under a bound, by evaluation.
unfoldable pub every : ℕ → (ℕ → Bool) → Bool
every zero test = true
every (suc bound) test = if test bound then every bound test else false

pub every-holds :
    (bound : ℕ) (test : ℕ → Bool) (k : ℕ) → every bound test ≡ true → k < bound → test k ≡ true
unfolding every
every-holds zero test k all below = absurd (omega arith)
every-holds (suc bound) test k all below = elim (Bool-cases (test bound)) [
  | inl t ↦ ground (arith, every-holds bound test k (rw t at all))
  | inr f ↦ cc (rw f at all)
]
