-- ===== src/Announce/Gate/Laws.antt =====
-- What the cap of src/announce_cap.rs keeps free on an interface, and the order of release.
use native.Mathlib.Nat.{add-mul, div-lt_iff_lt-mul}
use rs_reticulum_lite.Prelude.{
  ℕ, ◌+◌, ◌-◌, ◌*◌, ◌/◌, ◌≤◌, ◌<◌, ◌≡◌, refl, ap, subst, suc, List, true, false, if◌then◌else◌,
  ◌==◌, ◌↔◌, inl, inr, arith, leb, le→leb, lt→leb, length, take, drop, length-take, length-drop,
  min,
}
use rs_reticulum_lite.Prelude.Words.{u32_max, div_ceil}
use rs_reticulum_lite.Prelude.Result.{ok}
use rs_reticulum_lite.Lora.Framer.{FramePair, encode, as_slice, sequence_of}
use rs_reticulum_lite.Lora.Framer.Encode.{IsFrame, Encoded, encode-Encoded}
use rs_reticulum_lite.Lora.Modem.{LoraModemConfig, frame_airtime_ms}
use rs_reticulum_lite.Announce.Gate.{cap_floor, spacing_ms, lora_tx_ms, release_precedes}

cap_floor-pos : (c : ℕ) → 0 < cap_floor c
unfolding cap_floor
cap_floor-pos c = ground arith

div_ceil-le : (a b s : ℕ) → 0 < b → (div_ceil a b ≤ s) ↔ (a ≤ s * b)
div_ceil-le a b s h =
    let (down, up) : ((a + (b - 1)) / b < s + 1) ↔ (a + (b - 1) < (s + 1) * b) =
      div-lt_iff_lt-mul h in
    let split = add-mul s 1 b in
    (λ le. omega (arith, down (omega arith), split), λ le. omega (arith, up (omega (arith, split))))

-- The spacing is the least time of which the airtime is at most the share that the cap allows, a
-- cap of zero counting as one permille.
pub spacing_ms-least : (tx cap s : ℕ) → (spacing_ms tx cap ≤ s) ↔ (tx * 1000 ≤ s * cap_floor cap)
unfolding spacing_ms
spacing_ms-least tx c s = div_ceil-le (tx * 1000) (cap_floor c) s (cap_floor-pos c)

-- The airtime of the frames that are sent.
abbrev pub frames_airtime : LoraModemConfig → FramePair → ℕ → ℕ
frames_airtime modem out n =
    if n == 1
    then frame_airtime_ms modem (length (as_slice out.0))
    else min
        (frame_airtime_ms modem (length (as_slice out.0))
          + frame_airtime_ms modem (length (as_slice out.1)))
        u32_max

lora_tx_ms-Encoded :
    (modem : LoraModemConfig) (packet : List ℕ) (sequence : ℕ) (out : FramePair) (n : ℕ)
    → Encoded packet sequence (ok (out, n))
    → lora_tx_ms (length packet) modem ≡ frames_airtime modem out n
unfolding lora_tx_ms
lora_tx_ms-Encoded modem packet sequence out n (inl (short, one, bytes)) =
    let t : leb (length packet) 254 ≡ true = le→leb (length packet) 254 short in
    rw (one, bytes, t) (ap (frame_airtime_ms modem) (omega arith))
lora_tx_ms-Encoded modem packet sequence out n (inr (long, fits, two, bytes, bytes')) =
    let t : leb (length packet) 254 ≡ false = lt→leb (length packet) 254 long in
    let a : length (take 254 packet) ≡ 254 = omega (arith, length-take 254 packet) in
    let b : suc (length (drop 254 packet)) ≡ (length packet - 254) + 1 =
      omega (arith, length-drop 254 packet) in
    rw (two, bytes, bytes', t, a, b) refl

-- The airtime that the cap charges for a packet is that of the frames into which the framer splits
-- it, over whole output frames.
pub lora_tx_ms-encode :
    (modem : LoraModemConfig) (packet : List ℕ) (nibble : ℕ) (blank out : FramePair) (n : ℕ)
    → IsFrame blank.0
    → IsFrame blank.1
    → encode packet nibble blank ≡ ok (out, n)
    → lora_tx_ms (length packet) modem ≡ frames_airtime modem out n
lora_tx_ms-encode modem packet nibble blank out n v w e =
    lora_tx_ms-Encoded modem packet (sequence_of nibble) out n
      (subst (Encoded packet (sequence_of nibble)) e (encode-Encoded packet nibble blank v w))

-- `release_precedes` is a strict order: it is transitive and asymmetric.
pub release_precedes-order :
    (h q h' q' h'' q'' : ℕ)
    → release_precedes h q h' q' ≡ true
    → release_precedes h' q' h'' q'' ≡ true
    → (release_precedes h q h'' q'' ≡ true) × (release_precedes h' q' h q ≡ false)
unfolding release_precedes
release_precedes-order h q h' q' h'' q'' a b = (ground arith, ground arith)
