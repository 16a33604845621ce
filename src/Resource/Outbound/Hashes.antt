-- ===== src/Resource/Outbound/Hashes.antt =====
-- The map hashes of the sender of src/resource.rs: where they stand, and when they are distinct.
use rs_reticulum_lite.Prelude.{
  ℕ, zero, suc, ◌+◌, ◌*◌, ◌<◌, ◌≡◌, ◌≢◌, refl, sym, ap, ◌∙◌, List, [], ◌∷◌, ◌++◌, Bool, true, false,
  ◌||◌, length, take, drop, get_or, arith, All, length-append, take-append, append_assoc,
}
use rs_reticulum_lite.Prelude.Bytes.{bytes_eq, bytes_eq_refl}
use rs_reticulum_lite.Resource.{get_map_hash}
use rs_reticulum_lite.Resource.Outbound.{contains, collides, part_of, hash_parts, concat}

pub length-hash_parts :
    (sha256 : List ℕ → List ℕ) (buf : List ℕ) (total : ℕ) (random_hash : List ℕ) (i n : ℕ)
    → length (hash_parts sha256 buf total random_hash i n) ≡ n
unfolding hash_parts
length-hash_parts sha256 buf total random_hash i zero = refl
length-hash_parts sha256 buf total random_hash i (suc n) =
    ap suc (length-hash_parts sha256 buf total random_hash (i + 1) n)

pub get_or-hash_parts :
    (sha256 : List ℕ → List ℕ) (buf : List ℕ) (total : ℕ) (random_hash : List ℕ) (i n k j : ℕ)
    → k < n
    → i + k ≡ j
    → get_or (hash_parts sha256 buf total random_hash i n) k []
      ≡ get_map_hash sha256 (part_of buf total j) random_hash
unfolding hash_parts
get_or-hash_parts sha256 buf total random_hash i zero k j h e = absurd (omega arith)
get_or-hash_parts sha256 buf total random_hash i (suc n) zero j h e =
    let same : i ≡ j = omega (arith, e) in
    ap (λ m. get_map_hash sha256 (part_of buf total m) random_hash) same
get_or-hash_parts sha256 buf total random_hash i (suc n) (suc k) j h e =
    get_or-hash_parts sha256 buf total random_hash (i + 1) n k j (omega arith) (omega (arith, e))

or-false : (a b : Bool) → (a || b) ≡ false → (a ≡ false) × (b ≡ false)
or-false false b h = (refl, h)
or-false true b h = absurd cc

contains-append :
    (xs : List (List ℕ)) (y h : List ℕ)
    → contains (xs ++ (y ∷ [])) h ≡ false
    → (contains xs h ≡ false) × (y ≢ h)
unfolding contains
contains-append [] y h e = (
  refl,
  λ same.
      let (differ, _) = or-false (bytes_eq y h) false e in
      let equal : bytes_eq y h ≡ true = ap (bytes_eq y) (sym same) ∙ bytes_eq_refl y in cc,
)
contains-append (x ∷ xs) y h e =
    let (first, rest) = or-false (bytes_eq x h) (contains (xs ++ (y ∷ [])) h) e in
    let (here, apart) = contains-append xs y h rest in (rw (first, here) refl, apart)

-- No hash is among those before, where the scan finds no collision.
collides-contains :
    (seen hs : List (List ℕ)) (i : ℕ)
    → collides seen hs ≡ false
    → i < length hs
    → contains seen (get_or hs i []) ≡ false
unfolding collides
collides-contains seen [] i e h = absurd (omega arith)
collides-contains seen (x ∷ hs) zero e h = (or-false (contains seen x) _ e).0
collides-contains seen (x ∷ hs) (suc i) e h =
    (contains-append seen x (get_or hs i []) (
      collides-contains (seen ++ (x ∷ [])) hs i (or-false (contains seen x) _ e).1 (omega arith))).0

pub collides-ne :
    (seen hs : List (List ℕ)) (i j : ℕ)
    → collides seen hs ≡ false
    → i < j
    → j < length hs
    → get_or hs i [] ≢ get_or hs j []
unfolding collides
collides-ne seen [] i j e l h = absurd (omega arith)
collides-ne seen (x ∷ hs) i zero e l h = absurd (omega arith)
collides-ne seen (x ∷ hs) zero (suc j) e l h =
    (contains-append seen x (get_or hs j []) (
      collides-contains (seen ++ (x ∷ [])) hs j (or-false (contains seen x) _ e).1 (omega arith))).1
collides-ne seen (x ∷ hs) (suc i) (suc j) e l h =
    collides-ne (seen ++ (x ∷ [])) hs i j (or-false (contains seen x) _ e).1 (omega arith)
      (omega arith)

-- The `i`-th of the hashes laid one behind the other.
abbrev pub IsMapHash : List ℕ → Type 0
IsMapHash h = length h ≡ 4

pub slice-concat :
    (hs : List (List ℕ)) (rest : List ℕ) (i k : ℕ)
    → All IsMapHash hs
    → i < length hs
    → i * 4 ≡ k
    → take 4 (drop k (concat hs ++ rest)) ≡ get_or hs i []
unfolding concat
slice-concat [] rest i k a h e = absurd (omega arith)
slice-concat (x ∷ hs) rest zero k (size, a) h e =
    let start : k ≡ 0 = omega (arith, e) in
    rw start
      (ap (take 4) (append_assoc x (concat hs) rest) ∙ take-append 4 x (concat hs ++ rest) size)
slice-concat (x ∷ hs) rest (suc i) k (size, a) h e =
    ap (λ z. take 4 (drop k z)) (append_assoc x (concat hs) rest)
    ∙ ap (take 4) (skip k x (concat hs ++ rest) (i * 4) (omega (arith, size, e)))
    ∙ slice-concat hs rest i (i * 4) a (omega arith) refl
  where
    skip : (k : ℕ) (xs ys : List ℕ) (m : ℕ) → k ≡ length xs + m → drop k (xs ++ ys) ≡ drop m ys
    skip k [] ys m e = ap (λ j. drop j ys) (omega (arith, e))
    skip zero (x ∷ xs) ys m e = absurd (omega (arith, e))
    skip (suc k) (x ∷ xs) ys m e = skip k xs ys m (omega (arith, e))

pub length-concat : (hs : List (List ℕ)) → All IsMapHash hs → length (concat hs) ≡ length hs * 4
unfolding concat
length-concat [] a = refl
length-concat (x ∷ hs) (size, a) =
    omega (arith, length-append x (concat hs), size, length-concat hs a)
