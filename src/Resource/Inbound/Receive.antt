-- ===== src/Resource/Inbound/Receive.antt =====
-- What filling a slot of a receiver of src/resource.rs keeps and makes true.
use rs_reticulum_lite.Prelude.{
  ℕ, ◌+◌, ◌*◌, ◌/◌, ◌≤◌, ◌<◌, ◌≡◌, ◌≢◌, sym, ◌∙◌, List, [], Bool, true, false, ltb, ltb→lt, length,
  get_or, set, arith, length-set, get_or-set_cases, Bool-cases, inl, inr, ◌⊎◌,
}
use rs_reticulum_lite.PacketBuffer.Laws.{length-copy_from_slice}
use rs_reticulum_lite.Resource.{sdu, max_parts, transfer_max, get_map_hash}
use rs_reticulum_lite.Resource.Outbound.{part_of}
use rs_reticulum_lite.Resource.Inbound.{InboundResource, fill_slot}
use rs_reticulum_lite.Resource.Inbound.Step.{
  AreParts, get_or-copy_inside, get_or-copy_before, get_or-copy_behind, length-part_of,
  get_or-part_of,
}
use rs_reticulum_lite.Resource.Inbound.Step.Advance.{advance-Advanced}

-- The arrays have their sizes, and the index of completion is that of the first slot that is
-- not received.
pub record IsValid (r : InboundResource) : Type 0 where
  pub size : length r.buf ≡ transfer_max
  pub slots : length r.received ≡ max_parts
  pub few : r.num_parts ≤ max_parts
  pub parts : AreParts r.transfer_size r.num_parts
  pub inside : r.consecutive_completed ≤ r.num_parts
  pub prefix : (j : ℕ) → j < r.consecutive_completed → get_or r.received j false ≡ true
  pub stopped :
      (r.consecutive_completed ≡ r.num_parts)
      ⊎ (get_or r.received r.consecutive_completed false ≡ false)

-- The receiver is for a ciphertext: its hashes are those of the parts, and the slots received hold
-- the bytes.
pub record IsCopy (sha256 : List ℕ → List ℕ) (r : InboundResource) (blob : List ℕ) : Type 0 where
  pub whole : length blob ≡ r.transfer_size
  pub hashes :
      (i : ℕ)
      → i < r.num_parts
      → get_or r.map_hashes i [] ≡ get_map_hash sha256 (part_of blob (length blob) i) r.random_hash
  pub bytes :
      (q : ℕ)
      → q < length blob
      → get_or r.received (q / sdu) false ≡ true
      → get_or r.buf q 0 ≡ get_or blob q 0

pub fill_slot-IsValid :
    (r : InboundResource) (part : List ℕ) (i : ℕ)
    → IsValid r
    → i < r.num_parts
    → i * sdu + length part ≤ transfer_max
    → IsValid (fill_slot r part i)
unfolding fill_slot
fill_slot-IsValid r part i v h fits =
    let received : List Bool = set r.received i true in
    let kept : (j : ℕ) → get_or r.received j false ≡ true → get_or received j false ≡ true = λ j e.
      elim (get_or-set_cases r.received i j true false) [
        | inl (same, low, new) ↦ new
        | inr (old, _) ↦ old ∙ e
      ] in
    let a =
      advance-Advanced received r.num_parts r.num_parts r.consecutive_completed v.inside
        (omega arith) in
    record {
      size = length-copy_from_slice r.buf (i * sdu) part (omega (arith, v.size, fits)) ∙ v.size;
      slots = length-set r.received i true ∙ v.slots;
      few = v.few;
      parts = v.parts;
      inside = a.inside;
      prefix = λ j l. elim (Bool-cases (ltb j r.consecutive_completed)) [
        | inl t ↦ kept j (v.prefix j (ground arith))
        | inr f ↦ a.filled j (ground arith) l
      ];
      stopped = a.stopped;
    }

pub fill_slot-IsCopy :
    (sha256 : List ℕ → List ℕ) (r : InboundResource) (blob : List ℕ) (i : ℕ)
    → IsValid r
    → IsCopy sha256 r blob
    → i < r.num_parts
    → IsCopy sha256 (fill_slot r (part_of blob (length blob) i) i) blob
unfolding fill_slot
fill_slot-IsCopy sha256 r blob i v c h =
    let part : List ℕ = part_of blob (length blob) i in
    let parts : AreParts (length blob) r.num_parts =
      (omega (arith, c.whole, v.parts.0), omega (arith, c.whole, v.parts.1)) in
    let size = length-part_of blob r.num_parts i parts h in
    let (low, high) = parts in
    let fits : i * sdu + length part ≤ length r.buf =
      omega (arith, size, v.size, v.few, low, high) in
    record {
      whole = c.whole;
      hashes = c.hashes;
      bytes = λ q l e. elim (Bool-cases (ltb q (i * sdu))) [
        | inl t ↦
            get_or-copy_before r.buf (i * sdu) part q fits (ground arith)
            ∙ c.bytes q l (other q e (omega (arith, ltb→lt _ _ t)))
        | inr f ↦ elim (Bool-cases (ltb q ((i + 1) * sdu))) [
          | inl t ↦
              get_or-copy_inside r.buf (i * sdu) part q fits (ground arith)
                (omega (arith, ltb→lt _ _ t, size))
              ∙ get_or-part_of blob i q (ground arith) (ground arith) l
          | inr g ↦
              get_or-copy_behind r.buf (i * sdu) part q fits (omega (arith, ltb-le _ _ g, size))
              ∙ c.bytes q l (other q e (omega (arith, ltb-le _ _ g)))
        ]
      ];
    }
  where
    ltb-le : (a b : ℕ) → ltb a b ≡ false → b ≤ a
    ltb-le a b h = ground arith

    other :
        (q : ℕ)
        → get_or (set r.received i true) (q / sdu) false ≡ true
        → q / sdu ≢ i
        → get_or r.received (q / sdu) false ≡ true
    other q e n = elim (get_or-set_cases r.received i (q / sdu) true false) [
      | inl (same, _, _) ↦ absurd (n same)
      | inr (old, _) ↦ sym old ∙ e
    ]
