-- ===== src/Resource/Codec/Laws.antt =====
-- What the writer of src/resource.rs appends, and how the reader takes it back.
use rs_reticulum_lite.Prelude.{
  ℕ, ◌+◌, ◌^◌, ◌≤◌, ◌<◌, ◌≡◌, refl, ap, ◌∙◌, List, [], ◌∷◌, ◌++◌, append_assoc, arith,
  if◌then◌else◌, ltb, leb, length, take, length-append, take-append, drop-append, false, Bool-cases,
  inl, inr, le→leb,
}
use rs_reticulum_lite.Prelude.Words.{u32_max}
use rs_reticulum_lite.Prelude.Bytes.{to_be_bytes, length-to_be_bytes, from_be-to_be_bytes}
use rs_reticulum_lite.Prelude.Result.{Result, ok, err, ◌>>=◌}
use rs_reticulum_lite.PacketBuffer.Laws.{take-copy_from_slice, length-copy_from_slice}
use rs_reticulum_lite.Resource.{ResourceError, output_too_small}
use rs_reticulum_lite.Resource.Codec.{
  MpWriter, put, uint_bytes, put_bin, byte, take_bytes, word, uint, bin,
}

-- The position lies in the output.
pub record IsValid (w : MpWriter) : Type 0 where
  pub fits : w.pos ≤ length w.out

-- The bytes appended, or the error where they do not fit.
abbrev pub Written : MpWriter → List ℕ → Result ResourceError MpWriter → Type 0
Written w bytes (ok v) =
    IsValid v
    × (v.pos ≡ w.pos + length bytes)
    × (length v.out ≡ length w.out)
    × (take v.pos v.out ≡ take w.pos w.out ++ bytes)
Written w bytes (err e) = (e ≡ output_too_small) × (length w.out < w.pos + length bytes)

pub put-Written : (w : MpWriter) (bytes : List ℕ) → IsValid w → Written w bytes (put w bytes)
unfolding put
put-Written w bytes v = elim (Bool-cases (ltb (length w.out) (w.pos + length bytes))) [
  | inl t ↦ rw t (refl, ground arith)
  | inr f ↦
      let fits : w.pos + length bytes ≤ length w.out = ground arith in
      let size = length-copy_from_slice w.out w.pos bytes fits in
      rw f (
        record { fits = omega (arith, size) },
        refl,
        size,
        take-copy_from_slice w.out w.pos bytes v.fits,
      )
]

-- Two writes in a row are one of both parts.
pub Written->>= :
    (w : MpWriter) (xs ys : List ℕ) (r : Result ResourceError MpWriter)
    (f : MpWriter → Result ResourceError MpWriter)
    → Written w xs r
    → ((v : MpWriter) → IsValid v → Written v ys (f v))
    → Written w (xs ++ ys) (r >>= f)
Written->>= w xs ys (err e) f (too_small, short) k = (too_small, omega (arith, length-append xs ys))
Written->>= w xs ys (ok v) f (valid, moved, size, bytes) k = joined (f v) (k v valid)
  where
    joined : (r : Result ResourceError MpWriter) → Written v ys r → Written w (xs ++ ys) r
    joined (err e) (too_small, short) = (too_small, omega (arith, length-append xs ys, moved, size))
    joined (ok u) (valid', moved', size', bytes') = (
      valid',
      omega (arith, length-append xs ys, moved, moved'),
      size' ∙ size,
      bytes' ∙ ap (λ z. z ++ ys) bytes ∙ append_assoc (take w.pos w.out) xs ys,
    )

-- The bytes of a binary.
abbrev pub bin_bytes : List ℕ → List ℕ
bin_bytes s =
    if leb (length s) 0xff then 0xc4 ∷ length s ∷ s else 0xc5 ∷ (to_be_bytes 2 (length s) ++ s)

pub put_bin-Written :
    (w : MpWriter) (s : List ℕ)
    → length s ≤ 0xffff
    → IsValid w
    → Written w (bin_bytes s) (put_bin w s)
unfolding put_bin
put_bin-Written w s h v = elim (Bool-cases (leb (length s) 0xff)) [
  | inl t ↦ rw t (
      Written->>= w (0xc4 ∷ length s ∷ []) s _ (λ w. put w s) (put-Written w _ v)
        (λ u val. put-Written u s val))
  | inr f ↦
      rw (f, le→leb (length s) 0xffff h)
        (Written->>= w (0xc5 ∷ to_be_bytes 2 (length s)) s _ (λ w. put w s) (put-Written w _ v)
          (λ u val. put-Written u s val))
]

-- Reading.
pub take_bytes-append :
    (n : ℕ) (s rest : List ℕ) → length s ≡ n → take_bytes (s ++ rest) n ≡ ok (s, rest)
unfolding take_bytes
take_bytes-append n s rest h =
    let enough : ltb (length (s ++ rest)) n ≡ false = rw (length-append s rest) (ground arith) in
    rw (enough, take-append n s rest h, drop-append n s rest h) refl

word-append :
    (n v : ℕ) (rest : List ℕ) → v < 256 ^ n → word (to_be_bytes n v ++ rest) n ≡ ok (v, rest)
word-append n v rest h =
    rw
      (
        take_bytes-append n (to_be_bytes n v) rest (length-to_be_bytes n v),
        from_be-to_be_bytes n v h,
      )
      refl

-- Every u32 is read back from its minimal encoding.
pub uint-uint_bytes :
    (v : ℕ) (rest : List ℕ) → v ≤ u32_max → uint (uint_bytes v ++ rest) ≡ ok (v, rest)
unfolding uint byte
uint-uint_bytes v rest h = elim (Bool-cases (ltb v 0x80)) [
  | inl a ↦ rw (a, a) refl
  | inr a ↦ elim (Bool-cases (leb v 0xff)) [
    | inl b ↦ rw (a, b) refl
    | inr b ↦ elim (Bool-cases (leb v 0xffff)) [
      | inl c ↦ rw (a, b, c) (word-append 2 v rest (ground arith))
      | inr c ↦ rw (a, b, c) (word-append 4 v rest (omega (arith, h)))
    ]
  ]
]

pub bin-bin_bytes : (s rest : List ℕ) → length s ≤ 0xffff → bin (bin_bytes s ++ rest) ≡ ok (s, rest)
unfolding bin byte
bin-bin_bytes s rest h = elim (Bool-cases (leb (length s) 0xff)) [
  | inl a ↦ rw a (take_bytes-append (length s) s rest refl)
  | inr a ↦
      rw
        (
          a,
          append_assoc (to_be_bytes 2 (length s)) s rest,
          word-append 2 (length s) (s ++ rest) (omega (arith, h)),
        )
        (take_bytes-append (length s) s rest refl)
]
