-- ===== src/Resource/Inbound/Step.antt =====
-- How parts of one ciphertext fill a receiver of src/resource.rs.
pub mod Advance
use rs_reticulum_lite.Prelude.{
  ℕ, zero, suc, ◌+◌, ◌-◌, ◌*◌, ◌/◌, ◌≤◌, ◌<◌, ◌≡◌, ◌≢◌, refl, sym, ap, ◌∙◌, min, Option, none, some,
  List, [], ◌∷◌, ◌++◌, length, take, drop, get_or, set, arith, length-take, length-drop,
  get_or-take, get_or-drop, get_or-append_front, get_or-append_back, Bool-cases, inl, inr,
}
use rs_reticulum_lite.PacketBuffer.{copy_from_slice}
use rs_reticulum_lite.Resource.{sdu}
use rs_reticulum_lite.Resource.Outbound.{part_of}

-- Reading behind a write.
pub get_or-copy_inside :
    (bytes : List ℕ) (at : ℕ) (source : List ℕ) (q : ℕ)
    → at + length source ≤ length bytes
    → at ≤ q
    → q < at + length source
    → get_or (copy_from_slice bytes at source) q 0 ≡ get_or source (q - at) 0
get_or-copy_inside bytes at source q fits low high =
    get_or-append_back (take at bytes) (source ++ drop (at + length source) bytes) (q - at) q 0
      (omega (arith, length-take at bytes))
    ∙ get_or-append_front source (drop (at + length source) bytes) (q - at) 0 (omega arith)

pub get_or-copy_before :
    (bytes : List ℕ) (at : ℕ) (source : List ℕ) (q : ℕ)
    → at + length source ≤ length bytes
    → q < at
    → get_or (copy_from_slice bytes at source) q 0 ≡ get_or bytes q 0
get_or-copy_before bytes at source q fits low =
    get_or-append_front (take at bytes) (source ++ drop (at + length source) bytes) q 0
      (omega (arith, length-take at bytes))
    ∙ get_or-take at bytes q 0 low

pub get_or-copy_behind :
    (bytes : List ℕ) (at : ℕ) (source : List ℕ) (q : ℕ)
    → at + length source ≤ length bytes
    → at + length source ≤ q
    → get_or (copy_from_slice bytes at source) q 0 ≡ get_or bytes q 0
get_or-copy_behind bytes at source q fits high =
    get_or-append_back (take at bytes) (source ++ drop (at + length source) bytes) (q - at) q 0
      (omega (arith, length-take at bytes))
    ∙ get_or-append_back source (drop (at + length source) bytes) (q - (at + length source))
        (q - at) 0 (omega arith)
    ∙ get_or-drop (at + length source) bytes (q - (at + length source)) q 0 (omega arith)

-- The sizes of the parts: `total` bytes in `n` parts, all but the last of 464 bytes.
abbrev pub AreParts : ℕ → ℕ → Type 0
AreParts total n = (total ≤ n * sdu) × (n * sdu < total + sdu)

pub length-part_of :
    (blob : List ℕ) (n i : ℕ)
    → AreParts (length blob) n
    → i < n
    → length (part_of blob (length blob) i) ≡ min sdu (length blob - i * sdu)
length-part_of blob n i (low, high) h = omega (
  arith,
  length-take (min ((i + 1) * sdu) (length blob) - i * sdu) (drop (i * sdu) blob),
  length-drop (i * sdu) blob,
)

pub get_or-part_of :
    (blob : List ℕ) (i q : ℕ)
    → i * sdu ≤ q
    → q < (i + 1) * sdu
    → q < length blob
    → get_or (part_of blob (length blob) i) (q - i * sdu) 0 ≡ get_or blob q 0
get_or-part_of blob i q low high inside =
    get_or-take (min ((i + 1) * sdu) (length blob) - i * sdu) (drop (i * sdu) blob) (q - i * sdu) 0
      (omega arith)
    ∙ get_or-drop (i * sdu) blob (q - i * sdu) q 0 (omega arith)
