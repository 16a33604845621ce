-- ===== src/Resource/Inbound/Slots.antt =====
-- Which slot of a receiver of src/resource.rs a part of a ciphertext finds.
use rs_reticulum_lite.Prelude.{
  ℕ, zero, suc, ◌+◌, ◌-◌, ◌*◌, ◌≤◌, ◌<◌, ◌≡◌, refl, sym, ap, ◌∙◌, min, none, some, List, [], Bool,
  true, false, not, ◌&&◌, if◌then◌else◌, ◌==◌, ==_iff, length, get_or, arith, Bool-cases, inl, inr,
}
use rs_reticulum_lite.Prelude.Bytes.{bytes_eq, eq_of_bytes_eq, bytes_eq_refl}
use rs_reticulum_lite.Resource.{sdu, get_map_hash}
use rs_reticulum_lite.Resource.Outbound.{part_of}
use rs_reticulum_lite.Resource.Inbound.{InboundResource, expected_part_len, fits_slot, find_slot}
use rs_reticulum_lite.Resource.Inbound.Step.{AreParts, length-part_of}
use rs_reticulum_lite.Resource.Inbound.Receive.{IsValid, IsCopy}

-- The slot found is the first one in the range that is free and takes the part.
pub find_slot-some :
    (sha256 : List ℕ → List ℕ) (r : InboundResource) (part : List ℕ) (i n k : ℕ)
    → find_slot sha256 r part i n ≡ some k
    → (i ≤ k) × (k < i + n) × (fits_slot sha256 r part k ≡ true)
unfolding find_slot
find_slot-some sha256 r part i zero k h = cc
find_slot-some sha256 r part i (suc n) k h = elim (Bool-cases (get_or r.received i false)) [
  | inl t ↦
      let (low, high, e) = find_slot-some sha256 r part (i + 1) n k (rw t at h) in
      (omega arith, omega arith, e)
  | inr f ↦ elim (Bool-cases (fits_slot sha256 r part i)) [
    | inl t ↦
        let here : some i ≡ some k = rw (f, t) at h in
        let same : i ≡ k = cc in
        (omega arith, omega arith, ap (fits_slot sha256 r part) (sym same) ∙ t)
    | inr g ↦
        let (low, high, e) = find_slot-some sha256 r part (i + 1) n k (rw (f, g) at h) in
        (omega arith, omega arith, e)
  ]
]

-- A free slot of the range that takes the part is not passed over.
pub find_slot-none :
    (sha256 : List ℕ → List ℕ) (r : InboundResource) (part : List ℕ) (i n j : ℕ)
    → find_slot sha256 r part i n ≡ none
    → i ≤ j
    → j < i + n
    → fits_slot sha256 r part j ≡ true
    → get_or r.received j false ≡ true
unfolding find_slot
find_slot-none sha256 r part i zero j h low high e = absurd (omega arith)
find_slot-none sha256 r part i (suc n) j h low high e = elim (Bool-cases (j == i)) [
  | inl t ↦
      let same : j ≡ i = ground arith in
      elim (Bool-cases (get_or r.received i false)) [
        | inl g ↦ ap (λ k. get_or r.received k false) same ∙ g
        | inr g ↦
            let fit : fits_slot sha256 r part i ≡ true =
              ap (fits_slot sha256 r part) (sym same) ∙ e in
            cc (rw (g, fit) at h)
      ]
  | inr f ↦
      find_slot-none sha256 r part (i + 1) n j
        (rest (get_or r.received i false) (fits_slot sha256 r part i) h) (ground arith)
        (omega arith) e
]
  where
    rest :
        (a b : Bool)
        → (if not a && b then some i else find_slot sha256 r part (i + 1) n) ≡ none
        → find_slot sha256 r part (i + 1) n ≡ none
    rest true b h = h
    rest false true h = cc
    rest false false h = h

-- No two parts of a ciphertext have the same map hash.
abbrev pub AreDistinct : (List ℕ → List ℕ) → List ℕ → List ℕ → ℕ → Type 0
AreDistinct sha256 blob random_hash n =
    (i j : ℕ)
    → i < n
    → j < n
    → get_map_hash sha256 (part_of blob (length blob) i) random_hash
      ≡ get_map_hash sha256 (part_of blob (length blob) j) random_hash
    → i ≡ j

pub fits_slot-hash :
    (sha256 : List ℕ → List ℕ) (r : InboundResource) (part : List ℕ) (i : ℕ)
    → fits_slot sha256 r part i ≡ true
    → get_or r.map_hashes i [] ≡ get_map_hash sha256 part r.random_hash
unfolding fits_slot
fits_slot-hash sha256 r part i h =
    eq_of_bytes_eq _ _
      (front (bytes_eq (get_or r.map_hashes i []) (get_map_hash sha256 part r.random_hash)) _ h)
  where
    front : (a b : Bool) → (a && b) ≡ true → a ≡ true
    front true b h = refl
    front false b h = cc

-- A part fits its own slot.
pub fits_slot-part_of :
    (sha256 : List ℕ → List ℕ) (r : InboundResource) (blob : List ℕ) (i : ℕ)
    → IsValid r
    → IsCopy sha256 r blob
    → i < r.num_parts
    → fits_slot sha256 r (part_of blob (length blob) i) i ≡ true
unfolding fits_slot expected_part_len
fits_slot-part_of sha256 r blob i v c h =
    let parts : AreParts (length blob) r.num_parts =
      (omega (arith, c.whole, v.parts.0), omega (arith, c.whole, v.parts.1)) in
    let size = length-part_of blob r.num_parts i parts h in
    let (low, high) = parts in
    let measured : (length (part_of blob (length blob) i)
          == (if i + 1 == r.num_parts then r.transfer_size - i * sdu else sdu))
        ≡ true =
      rw size (sized (length blob) r.transfer_size r.num_parts i c.whole low high h) in
    rw
      (
        c.hashes i h,
        bytes_eq_refl (get_map_hash sha256 (part_of blob (length blob) i) r.random_hash),
      )
      measured
  where
    sized :
        (m t n i : ℕ)
        → m ≡ t
        → m ≤ n * sdu
        → n * sdu < m + sdu
        → i < n
        → (min sdu (m - i * sdu) == (if i + 1 == n then t - i * sdu else sdu)) ≡ true
    sized m t n i e low high h = elim (Bool-cases (i + 1 == n)) [
      | inl l ↦ rw l ((==_iff _ _).1 (ground arith))
      | inr l ↦ rw l ((==_iff _ _).1 (ground arith))
    ]
