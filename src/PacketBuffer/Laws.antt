-- ===== src/PacketBuffer/Laws.antt =====
-- What the methods of `PacketBuffer` do to the visible bytes.
use native.Mathlib.Numerals.{add-one}
use rs_reticulum_lite.Prelude.{
  ℕ, zero, suc, ◌+◌, ◌≤◌, ◌<◌, ◌≡◌, refl, sym, ap, ◌∙◌, List, [], ◌∷◌, ◌++◌, append_assoc, ◌==◌,
  ltb, arith, length, set, take, drop, length-append, length-set, length-take, length-drop,
  length-replicate, take-append, drop-append, Bool-cases, inl, inr,
}
use rs_reticulum_lite.Prelude.Result.{Result, ok, err, ◌>>=◌}
use rs_reticulum_lite.PacketBuffer.{
  PacketBuffer, BufferError, capacity, new, as_slice, push, copy_from_slice, extend_from_slice,
  from_slice, copy_with_hops,
}

-- The visible bytes lie in the array.
pub record IsValid (b : PacketBuffer) : Type 0 where
  pub fits : b.len ≤ capacity b

pub length-as_slice : (b : PacketBuffer) → IsValid b → length (as_slice b) ≡ b.len
unfolding as_slice
length-as_slice b v = omega (arith, length-take b.len b.bytes, v.fits)

pub length-copy_from_slice :
    (bytes : List ℕ) (at : ℕ) (source : List ℕ)
    → at + length source ≤ length bytes
    → length (copy_from_slice bytes at source) ≡ length bytes
length-copy_from_slice bytes at source h = omega (
  arith,
  length-append (take at bytes) (source ++ drop (at + length source) bytes),
  length-append source (drop (at + length source) bytes),
  length-take at bytes,
  length-drop (at + length source) bytes,
)

pub take-copy_from_slice :
    (bytes : List ℕ) (at : ℕ) (source : List ℕ)
    → at ≤ length bytes
    → take (at + length source) (copy_from_slice bytes at source) ≡ take at bytes ++ source
take-copy_from_slice bytes at source h =
    ap (take (at + length source))
      (sym (append_assoc (take at bytes) source (drop (at + length source) bytes)))
    ∙ take-append (at + length source) (take at bytes ++ source) (drop (at + length source) bytes)
        (omega (arith, length-append (take at bytes) source, length-take at bytes))

-- A write over a part of the same size.
pub copy_from_slice-append :
    (at : ℕ) (front old new rest : List ℕ)
    → length front ≡ at
    → length new ≡ length old
    → copy_from_slice (front ++ (old ++ rest)) at new ≡ front ++ (new ++ rest)
copy_from_slice-append at front old new rest h same = rw (
  take-append at front (old ++ rest) h,
  sym (append_assoc front old rest),
  drop-append (at + length new) (front ++ old) rest (omega (arith, length-append front old)),
)

-- What `extend_from_slice` and `push` leave: a valid buffer of the same capacity with the bytes
-- appended, or an error exactly where they do not fit.
abbrev pub Appended : PacketBuffer → List ℕ → Result BufferError PacketBuffer → Type 0
Appended b source (ok c) =
    (b.len + length source ≤ capacity b)
    × IsValid c
    × (capacity c ≡ capacity b)
    × (as_slice c ≡ as_slice b ++ source)
Appended b source (err e) = capacity b < b.len + length source

-- On a valid buffer, `extend_from_slice` appends all of the bytes to the visible ones and keeps the
-- capacity, or it fails, exactly where they do not fit.
pub extend_from_slice-Appended :
    (b : PacketBuffer) (source : List ℕ)
    → IsValid b
    → Appended b source (extend_from_slice b source)
unfolding extend_from_slice as_slice
extend_from_slice-Appended b source v =
    elim (Bool-cases (ltb (capacity b) (b.len + length source))) [
      | inl t ↦ rw t (ground arith)
      | inr f ↦
          let fits : b.len + length source ≤ capacity b = ground arith in
          let size = length-copy_from_slice b.bytes b.len source fits in
          rw f (
            fits,
            record { fits = omega (arith, size) },
            size,
            take-copy_from_slice b.bytes b.len source v.fits,
          )
    ]

take-set_end :
    (xs : List ℕ) (i v : ℕ) → i < length xs → take (suc i) (set xs i v) ≡ take i xs ++ (v ∷ [])
take-set_end [] i v h = absurd (omega arith)
take-set_end (x ∷ xs) zero v h = refl
take-set_end (x ∷ xs) (suc i) v h = ap (◌∷◌ x) (take-set_end xs i v (omega arith))

pub push-Appended : (b : PacketBuffer) (v : ℕ) → IsValid b → Appended b (v ∷ []) (push b v)
unfolding push as_slice
push-Appended b v val = elim (Bool-cases (b.len == capacity b)) [
  | inl t ↦ rw t (ground arith)
  | inr f ↦
      let room : b.len < capacity b = ground (arith, val.fits) in
      let size = length-set b.bytes b.len v in
      rw f (
        omega arith,
        record { fits = omega (arith, size) },
        size,
        rw add-one (take-set_end b.bytes b.len v room),
      )
]

pub new_lem : (n : ℕ) → IsValid (new n) × (capacity (new n) ≡ n) × (as_slice (new n) ≡ [])
unfolding new as_slice
new_lem n = (record { fits = omega arith }, length-replicate n 0, refl)

-- `from_slice` copies what fits, and fails on anything longer than the capacity.
abbrev pub Copied : ℕ → List ℕ → Result BufferError PacketBuffer → Type 0
Copied cap source (ok b) =
    (length source ≤ cap) × IsValid b × (capacity b ≡ cap) × (as_slice b ≡ source)
Copied cap source (err e) = cap < length source

length-new : (n : ℕ) → length (new n).bytes ≡ n
unfolding new
length-new n = length-replicate n 0

pub Appended-Copied :
    (cap : ℕ) (source : List ℕ) (r : Result BufferError PacketBuffer)
    → Appended (new cap) source r
    → Copied cap source r
unfolding new as_slice
Appended-Copied n source (ok b) (fits, val, size, bytes) =
    (omega (arith, length-new n), val, size ∙ length-new n, bytes)
Appended-Copied n source (err e) h = omega (arith, length-new n)

pub from_slice-Copied : (cap : ℕ) (source : List ℕ) → Copied cap source (from_slice cap source)
unfolding from_slice
from_slice-Copied n source =
    Appended-Copied n source (extend_from_slice (new n) source)
      (extend_from_slice-Appended (new n) source (new_lem n).0)

take-set_second : (n : ℕ) (xs : List ℕ) (v : ℕ) → 1 < n → take n (set xs 1 v) ≡ set (take n xs) 1 v
take-set_second zero xs v h = absurd (omega arith)
take-set_second (suc zero) xs v h = absurd (omega arith)
take-set_second (suc (suc n)) [] v h = refl
take-set_second (suc (suc n)) (x ∷ []) v h = refl
take-set_second (suc (suc n)) (x ∷ y ∷ xs) v h = refl

-- On a valid buffer, `copy_with_hops` changes the second visible byte and no other, if there is one.
pub as_slice-copy_with_hops :
    (b : PacketBuffer) (hops : ℕ)
    → IsValid b
    → IsValid (copy_with_hops b hops) × (as_slice (copy_with_hops b hops) ≡ set (as_slice b) 1 hops)
unfolding copy_with_hops as_slice
as_slice-copy_with_hops b hops v = elim (Bool-cases (ltb 1 b.len)) [
  | inl t ↦ rw t (
    record { fits = omega (arith, v.fits, length-set b.bytes 1 hops) },
    take-set_second b.len b.bytes hops (ground arith),
  )
  | inr f ↦ rw f (v, sym (short b.len b.bytes (ground arith)))
]
  where
    short : (n : ℕ) (xs : List ℕ) → n ≤ 1 → set (take n xs) 1 hops ≡ take n xs
    short zero xs h = refl
    short (suc zero) [] h = refl
    short (suc zero) (x ∷ xs) h = refl
    short (suc (suc n)) xs h = absurd (omega arith)

-- Two appends in a row are one of both parts.
pub Appended->>= :
    (b : PacketBuffer) (xs ys : List ℕ) (r : Result BufferError PacketBuffer)
    (f : PacketBuffer → Result BufferError PacketBuffer)
    → IsValid b
    → Appended b xs r
    → ((c : PacketBuffer) → IsValid c → Appended c ys (f c))
    → Appended b (xs ++ ys) (r >>= f)
Appended->>= b xs ys (err e) f v a k = omega (arith, length-append xs ys)
Appended->>= b xs ys (ok c) f v (fits, w, size, bytes) k = joined (f c) (k c w)
  where
    grown : c.len ≡ b.len + length xs
    grown = omega (
      arith,
      length-as_slice c w,
      length-as_slice b v,
      ap length bytes,
      length-append (as_slice b) xs,
    )

    joined : (s : Result BufferError PacketBuffer) → Appended c ys s → Appended b (xs ++ ys) s
    joined (err e) a = omega (arith, grown, size, length-append xs ys)
    joined (ok d) (fits', w', size', bytes') = (
      omega (arith, grown, size, length-append xs ys),
      w',
      size' ∙ size,
      bytes' ∙ ap (λ s. s ++ ys) bytes ∙ append_assoc (as_slice b) xs ys,
    )
