-- ===== src/Lora/Framer/RoundTrip.antt =====
-- A packet split by `LoraFramer::encode` of src/lora.rs and joined again by `ingest_frame`.
use Prim.Native.Nat.{bit_and, bit_or}
use rs_reticulum_lite.Prelude.{
  ℕ, ◌+◌, ◌/◌, ◌≤◌, ◌<◌, ◌≡◌, refl, ap, subst, ◌∙◌, List, ◌∷◌, ◌++◌, Option, none, some, Bool, true,
  false, if◌then◌else◌, ◌==◌, ==_iff, ==_refl, leb, not, is_some_and, arith, length, take, drop,
  length-take, length-drop, take-append-drop, Bool-cases, inl, inr,
}
use rs_reticulum_lite.Prelude.Bytes.{every, every-holds}
use rs_reticulum_lite.Prelude.Words.{u64_max}
use rs_reticulum_lite.Prelude.Result.{Result, ok, err}
use rs_reticulum_lite.PacketBuffer.{PacketBuffer, BufferError, capacity}
use rs_reticulum_lite.PacketBuffer
use rs_reticulum_lite.PacketBuffer.Laws.{
  IsValid, length-as_slice, Appended, Copied, from_slice-Copied, extend_from_slice-Appended,
}
use rs_reticulum_lite.Lora.Framer.{
  LoraError, FramePair, LoraFramer, PendingSplit, Received, encode, as_slice, expire, ingest_frame,
  ingest_split, keep_first, received, from_slice, sequence_of,
}
use rs_reticulum_lite.Lora.Framer.Encode.{IsFrame, Encoded, encode-Encoded}

-- The caller hands the frames over, the second at `later`.
abbrev pub receive : LoraFramer → FramePair → ℕ → ℕ → ℕ → Received
receive f out n now later =
    if n == 1
    then ingest_frame f (as_slice out.0) now
    else ingest_frame (ingest_frame f (as_slice out.0) now).0 (as_slice out.1) later

-- The framer returns the packet and keeps nothing.
abbrev pub Delivered : List ℕ → Received → Type 0
Delivered packet (f, ok (some b)) =
    (f.pending ≡ none) × IsValid b × (PacketBuffer.as_slice b ≡ packet)
Delivered packet (f, ok none) = ⊥
Delivered packet (f, err e) = ⊥

single_table : every 256 (λ n. bit_and (sequence_of n) 1 == 0) ≡ true
unfolding every
single_table = refl

split_table : every 256 (λ n. not (bit_and (bit_or (sequence_of n) 1) 1 == 0)) ≡ true
unfolding every
split_table = refl

sequence_table : every 256 (λ n. bit_or (sequence_of n) 1 / 16 == bit_and n 15) ≡ true
unfolding every
sequence_table = refl

received-Delivered :
    (f : LoraFramer) (packet : List ℕ) (r : Result BufferError PacketBuffer)
    → f.pending ≡ none
    → length packet ≤ 508
    → Copied 508 packet r
    → Delivered packet (f, received r)
received-Delivered f packet (ok b) e h (fits, v, size, bytes) = (e, v, bytes)
received-Delivered f packet (err x) e h c = absurd (omega arith)

ingest_single :
    (f : LoraFramer) (nibble : ℕ) (packet : List ℕ) (now : ℕ)
    → nibble < 256
    → length packet ≤ 508
    → Delivered packet (ingest_frame f (sequence_of nibble ∷ packet) now)
unfolding ingest_frame
ingest_single f nibble packet now h n =
    let emptied : LoraFramer = record (expire f now) { pending = none } in
    rw (every-holds 256 (λ n. bit_and (sequence_of n) 1 == 0) nibble single_table h)
      (received-Delivered emptied packet _ refl n (from_slice-Copied 508 packet))

-- The framer holds a half of this sequence.
abbrev pub holds : ℕ → Option PendingSplit → Bool
holds s pending = is_some_and (λ p. p.sequence == s) pending

-- The first of two frames is kept until the timeout.
abbrev pub Kept : ℕ → List ℕ → ℕ → Received → Type 0
Kept s chunk expires (f, ok none) =
    (b : PacketBuffer) × (f.pending
      ≡ some (record { sequence = s; first = b; expires_ms = expires }))
    × IsValid b
    × (capacity b ≡ 508)
    × (PacketBuffer.as_slice b ≡ chunk)
Kept s chunk expires (f, ok (some b)) = ⊥
Kept s chunk expires (f, err e) = ⊥

keep_first-Kept :
    (f : LoraFramer) (s now : ℕ) (chunk : List ℕ) (r : Result BufferError PacketBuffer)
    → length chunk ≤ 508
    → now + f.split_timeout_ms ≤ u64_max
    → Copied 508 chunk r
    → Kept s chunk (now + f.split_timeout_ms) (keep_first f s now r)
keep_first-Kept f s now chunk (ok b) h t (fits, v, size, bytes) = (
  b,
  ap (λ x. some (record { sequence = s; first = b; expires_ms = x })) (omega arith),
  v,
  size,
  bytes,
)
keep_first-Kept f s now chunk (err e) h t c = absurd (omega arith)

ingest_split-Kept :
    (f : LoraFramer) (pending : Option PendingSplit) (s now : ℕ) (chunk : List ℕ)
    → holds s pending ≡ false
    → length chunk ≤ 508
    → now + f.split_timeout_ms ≤ u64_max
    → Kept s chunk (now + f.split_timeout_ms) (ingest_split f pending s chunk now)
ingest_split-Kept f none s now chunk free h t =
    keep_first-Kept f s now chunk (from_slice chunk) h t (from_slice-Copied 508 chunk)
ingest_split-Kept f (some p) s now chunk free h t =
    rw free (keep_first-Kept f s now chunk (from_slice chunk) h t (from_slice-Copied 508 chunk))

expire-split_timeout_ms :
    (f : LoraFramer) (now : ℕ) → (expire f now).split_timeout_ms ≡ f.split_timeout_ms
unfolding expire
expire-split_timeout_ms f now =
    elim (Bool-cases (is_some_and (λ p. leb p.expires_ms now) f.pending)) [
      | inl t ↦ rw t refl
      | inr t ↦ rw t refl
    ]

ingest_first :
    (f : LoraFramer) (nibble : ℕ) (chunk : List ℕ) (now : ℕ)
    → nibble < 256
    → length chunk ≤ 508
    → holds (bit_and nibble 15) (expire f now).pending ≡ false
    → now + f.split_timeout_ms ≤ u64_max
    → Kept
        (bit_and nibble 15)
        chunk
        (now + f.split_timeout_ms)
        (ingest_frame f (bit_or (sequence_of nibble) 1 ∷ chunk) now)
unfolding ingest_frame
ingest_first f nibble chunk now h n free t =
    let header : ℕ = bit_or (sequence_of nibble) 1 in
    let split : not (bit_and header 1 == 0) ≡ true =
      every-holds 256 (λ n. not (bit_and (bit_or (sequence_of n) 1) 1 == 0)) nibble split_table h in
    let split_off : (bit_and header 1 == 0) ≡ false = ground arith in
    let sequence : header / 16 ≡ bit_and nibble 15 = (==_iff _ _).0 (
      every-holds 256 (λ n. bit_or (sequence_of n) 1 / 16 == bit_and n 15) nibble sequence_table
        h) in
    let kept : Kept (bit_and nibble 15) chunk (now + (expire f now).split_timeout_ms)
        (ingest_split (expire f now) (expire f now).pending (bit_and nibble 15) chunk now) =
      ingest_split-Kept (expire f now) (expire f now).pending (bit_and nibble 15) now chunk free n
        (rw (expire-split_timeout_ms f now) t) in
    rw (split_off, sequence)
      (subst
        (λ w.
          Kept (bit_and nibble 15) chunk (now + w)
            (ingest_split (expire f now) (expire f now).pending (bit_and nibble 15) chunk now))
        (expire-split_timeout_ms f now) kept)

Appended-Delivered :
    (f : LoraFramer) (b : PacketBuffer) (first second : List ℕ)
    (r : Result BufferError PacketBuffer)
    → f.pending ≡ none
    → b.len + length second ≤ capacity b
    → PacketBuffer.as_slice b ≡ first
    → Appended b second r
    → Delivered (first ++ second) (f, received r)
Appended-Delivered f b first second (ok c) e fits bytes (n, v, size, all) =
    (e, v, all ∙ ap (λ s. s ++ second) bytes)
Appended-Delivered f b first second (err x) e fits bytes a = absurd (omega arith)

ingest_second :
    (f : LoraFramer) (b : PacketBuffer) (nibble expires : ℕ) (first second : List ℕ) (later : ℕ)
    → nibble < 256
    → later < expires
    → f.pending ≡ some (record { sequence = bit_and nibble 15; first = b; expires_ms = expires })
    → IsValid b
    → capacity b ≡ 508
    → PacketBuffer.as_slice b ≡ first
    → length first + length second ≤ 508
    → Delivered (first ++ second) (ingest_frame f (bit_or (sequence_of nibble) 1 ∷ second) later)
unfolding ingest_frame expire
ingest_second f b nibble expires first second later h live held v size bytes n =
    let header : ℕ = bit_or (sequence_of nibble) 1 in
    let split : not (bit_and header 1 == 0) ≡ true =
      every-holds 256 (λ n. not (bit_and (bit_or (sequence_of n) 1) 1 == 0)) nibble split_table h in
    let split_off : (bit_and header 1 == 0) ≡ false = ground arith in
    let sequence : header / 16 ≡ bit_and nibble 15 = (==_iff _ _).0 (
      every-holds 256 (λ n. bit_or (sequence_of n) 1 / 16 == bit_and n 15) nibble sequence_table
        h) in
    let fresh : leb expires later ≡ false = ground arith in
    let emptied : LoraFramer = record f { pending = none } in
    rw (held, fresh, split_off, sequence, ==_refl (bit_and nibble 15))
      (Appended-Delivered emptied b first second (PacketBuffer.extend_from_slice b second) refl
        (omega (arith, ap length bytes, length-as_slice b v)) bytes
        (extend_from_slice-Appended b second v))

deliver_split :
    (f : LoraFramer) (nibble now later : ℕ) (first second : List ℕ) (kept : Received)
    → nibble < 256
    → later < now + f.split_timeout_ms
    → length first + length second ≤ 508
    → Kept (bit_and nibble 15) first (now + f.split_timeout_ms) kept
    → Delivered
        (first ++ second)
        (ingest_frame kept.0 (bit_or (sequence_of nibble) 1 ∷ second) later)
deliver_split f nibble now later first second (g, ok none) h live n (b, held, v, size, bytes) =
    ingest_second g b nibble (now + f.split_timeout_ms) first second later h live held v size bytes
      n
deliver_split f nibble now later first second (g, ok (some c)) h live n k = elim k [ ]
deliver_split f nibble now later first second (g, err e) h live n k = elim k [ ]

deliver-Encoded :
    (f : LoraFramer) (packet : List ℕ) (nibble now later : ℕ) (out : FramePair) (n : ℕ)
    → nibble < 256
    → holds (bit_and nibble 15) (expire f now).pending ≡ false
    → now + f.split_timeout_ms ≤ u64_max
    → later < now + f.split_timeout_ms
    → Encoded packet (sequence_of nibble) (ok (out, n))
    → Delivered packet (receive f out n now later)
deliver-Encoded f packet nibble now later out n h free t live (inl (short, one, bytes)) =
    rw (one, bytes) (ingest_single f nibble packet now h (omega arith))
deliver-Encoded f packet nibble now later out n h free t live
      (inr (long, fits, two, bytes, bytes')) =
    rw (two, bytes, bytes')
      (subst
        (λ p. Delivered p (
          ingest_frame (ingest_frame f (bit_or (sequence_of nibble) 1 ∷ take 254 packet) now).0
            (bit_or (sequence_of nibble) 1 ∷ drop 254 packet) later))
        (take-append-drop 254 packet)
        (deliver_split f nibble now later (take 254 packet) (drop 254 packet) _ h live
          (omega (arith, length-take 254 packet, length-drop 254 packet))
          (ingest_first f nibble (take 254 packet) now h (omega (arith, length-take 254 packet))
            free t)))

-- A packet of at most 508 bytes that `encode` splits comes back whole from `ingest_frame`, in a
-- framer that holds no half of the same sequence, when the second frame, if there is one, arrives
-- before the timeout and the clock does not saturate. Nothing is left pending.
pub ingest_frame-encode :
    (f : LoraFramer) (packet : List ℕ) (nibble now later : ℕ) (out : FramePair)
    → nibble < 256
    → IsFrame out.0
    → IsFrame out.1
    → length packet ≤ 508
    → holds (bit_and nibble 15) (expire f now).pending ≡ false
    → now + f.split_timeout_ms ≤ u64_max
    → later < now + f.split_timeout_ms
    → (frames : FramePair) × (n : ℕ) × (encode packet nibble out ≡ ok (frames, n))
      × Delivered packet (receive f frames n now later)
ingest_frame-encode f packet nibble now later out h v w fits free t live =
    by_result (encode packet nibble out) refl (encode-Encoded packet nibble out v w)
  where
    by_result :
        (r : Result LoraError (FramePair × ℕ))
        → encode packet nibble out ≡ r
        → Encoded packet (sequence_of nibble) r
        → (frames : FramePair) × (n : ℕ) × (encode packet nibble out ≡ ok (frames, n))
          × Delivered packet (receive f frames n now later)
    by_result (ok (frames, n)) e encoded =
        (frames, n, e, deliver-Encoded f packet nibble now later frames n h free t live encoded)
    by_result (err x) e encoded = absurd (omega arith)
