-- ===== src/Lora/Framer/Encode.antt =====
-- The frames that `LoraFramer::encode` of src/lora.rs fills.
use Prim.Native.Nat.{bit_or}
use rs_reticulum_lite.Prelude.{
  ℕ, ◌+◌, ◌≤◌, ◌<◌, ◌≡◌, refl, ap, ◌∙◌, List, [], ◌∷◌, ◌++◌, ltb, leb, arith, length, set, take,
  drop, length-take, length-drop, length-set, Bool-cases, ◌⊎◌, inl, inr,
}
use rs_reticulum_lite.Prelude.Result.{Result, ok, err, ◌>>=◌}
use rs_reticulum_lite.PacketBuffer.Laws.{take-copy_from_slice}
use rs_reticulum_lite.Lora.Framer.{
  LoraFrame, LoraError, FramePair, set_frame, as_slice, encode, sequence_of,
}

-- A frame over its whole array.
pub record IsFrame (f : LoraFrame) : Type 0 where
  pub size : length f.bytes ≡ 255

take_one-set : (xs : List ℕ) (v : ℕ) → 0 < length xs → take 1 (set xs 0 v) ≡ v ∷ []
take_one-set [] v h = absurd (omega arith)
take_one-set (x ∷ xs) v h = refl

-- The visible bytes after a `set`.
abbrev pub Filled : ℕ → List ℕ → Result LoraError LoraFrame → Type 0
Filled header payload (ok f) = as_slice f ≡ header ∷ payload
Filled header payload (err e) = 254 < length payload

pub set_frame-Filled :
    (f : LoraFrame) (header : ℕ) (payload : List ℕ)
    → IsFrame f
    → Filled header payload (set_frame f header payload)
unfolding set_frame as_slice
set_frame-Filled f header payload v = elim (Bool-cases (ltb 254 (length payload))) [
  | inl t ↦ rw t (ground arith)
  | inr g ↦
      let n = length-set f.bytes 0 header in
      let len : length payload + 1 ≡ 1 + length payload = omega arith in
      rw (g, len)
        (take-copy_from_slice (set f.bytes 0 header) 1 payload (omega (arith, n, v.size))
          ∙ ap (λ s. s ++ payload) (take_one-set f.bytes header (omega (arith, v.size))))
]

-- What `encode` leaves: one frame, or two that carry the split flag, or an error exactly where the
-- packet is longer than two frames hold.
abbrev pub Encoded : List ℕ → ℕ → Result LoraError (FramePair × ℕ) → Type 0
Encoded packet sequence (err e) = 508 < length packet
Encoded packet sequence (ok (out, n)) =
    ((length packet ≤ 254) × (n ≡ 1) × (as_slice out.0 ≡ sequence ∷ packet))
    ⊎ ((254 < length packet)
        × (length packet ≤ 508)
        × (n ≡ 2)
        × (as_slice out.0 ≡ bit_or sequence 1 ∷ take 254 packet)
        × (as_slice out.1 ≡ bit_or sequence 1 ∷ drop 254 packet))

encode_one-Encoded :
    (packet : List ℕ) (sequence : ℕ) (second : LoraFrame) (r : Result LoraError LoraFrame)
    → length packet ≤ 254
    → Filled sequence packet r
    → Encoded packet sequence (r >>= λ first. ok ((first, second), 1))
encode_one-Encoded packet sequence second (ok first) h filled = inl (h, refl, filled)
encode_one-Encoded packet sequence second (err e) h filled = absurd (omega arith)

encode_two-Encoded :
    (packet : List ℕ) (sequence : ℕ) (r s : Result LoraError LoraFrame)
    → 254 < length packet
    → length packet ≤ 508
    → Filled (bit_or sequence 1) (take 254 packet) r
    → Filled (bit_or sequence 1) (drop 254 packet) s
    → Encoded packet sequence (r >>= λ first. s >>= λ second. ok ((first, second), 2))
encode_two-Encoded packet sequence (ok first) (ok second) h h' a b = inr (h, h', refl, a, b)
encode_two-Encoded packet sequence (err e) s h h' a b =
    absurd (omega (arith, length-take 254 packet))
encode_two-Encoded packet sequence (ok first) (err e) h h' a b =
    absurd (omega (arith, length-drop 254 packet))

-- Into whole output frames, `encode` writes a packet of up to 254 bytes as one frame and one of up to
-- 508 bytes as two that carry the split flag, and it fails exactly on longer ones.
pub encode-Encoded :
    (packet : List ℕ) (nibble : ℕ) (out : FramePair)
    → IsFrame out.0
    → IsFrame out.1
    → Encoded packet (sequence_of nibble) (encode packet nibble out)
unfolding encode
encode-Encoded packet nibble (f, g) vf vg = elim (Bool-cases (ltb 508 (length packet))) [
  | inl t ↦ rw t (ground arith)
  | inr t ↦ elim (Bool-cases (leb (length packet) 254)) [
    | inl u ↦
        rw (t, u)
          (encode_one-Encoded packet (sequence_of nibble) g _ (ground arith)
            (set_frame-Filled f (sequence_of nibble) packet vf))
    | inr u ↦
        rw (t, u)
          (encode_two-Encoded packet (sequence_of nibble) _ _ (ground arith) (ground arith)
            (set_frame-Filled f (bit_or (sequence_of nibble) 1) (take 254 packet) vf)
            (set_frame-Filled g (bit_or (sequence_of nibble) 1) (drop 254 packet) vg))
  ]
]
