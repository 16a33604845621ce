-- ===== src/Resource/Inbound/Run.antt =====
-- Sequences of parts arriving at a receiver of src/resource.rs.
use rs_reticulum_lite.Prelude.{
  ℕ, zero, suc, ◌+◌, ◌-◌, ◌*◌, ◌≤◌, ◌<◌, ◌≡◌, refl, sym, ap, ◌∙◌, none, List, [], ◌∷◌, Bool, true,
  false, length, get_or, set, arith, All, get_or-set_self, Bool-cases, Option-cases, inl, inr, ◌==◌,
  ◌≢◌, subst,
}
use rs_reticulum_lite.Resource.{sdu}
use rs_reticulum_lite.Resource.Outbound.{part_of}
use rs_reticulum_lite.Resource.Inbound.{
  InboundResource, is_transferring, window_end, advance, fill_slot, find_slot, receive_part,
}
use rs_reticulum_lite.Resource.Inbound.Step.{length-part_of}
use rs_reticulum_lite.Resource.Inbound.Step.Advance.{advance-Advanced}
use rs_reticulum_lite.Resource.Inbound.Receive.{
  IsValid, IsCopy, fill_slot-IsValid, fill_slot-IsCopy,
}
use rs_reticulum_lite.Resource.Inbound.Slots.{
  AreDistinct, find_slot-some, find_slot-none, fits_slot-hash, fits_slot-part_of,
}

-- A receiver that gathers a ciphertext.
pub record IsGathering (sha256 : List ℕ → List ℕ) (r : InboundResource) (blob : List ℕ)
    : Type 0 where
  pub valid : IsValid r
  pub copy : IsCopy sha256 r blob
  pub distinct : AreDistinct sha256 blob r.random_hash r.num_parts
  pub state : is_transferring r.state ≡ true

-- What an arrival keeps, and that the index of completion never goes back.
pub record Kept (r s : InboundResource) : Type 0 where
  pub resource_hash : s.resource_hash ≡ r.resource_hash
  pub random_hash : s.random_hash ≡ r.random_hash
  pub transfer_size : s.transfer_size ≡ r.transfer_size
  pub num_parts : s.num_parts ≡ r.num_parts
  pub window : s.window ≡ r.window
  pub forward : r.consecutive_completed ≤ s.consecutive_completed

pub Kept_refl : (r : InboundResource) → Kept r r
Kept_refl r = record {
  resource_hash = refl;
  random_hash = refl;
  transfer_size = refl;
  num_parts = refl;
  window = refl;
  forward = omega arith;
}

pub Kept_trans : (r s t : InboundResource) → Kept r s → Kept s t → Kept r t
Kept_trans r s t a b = record {
  resource_hash = b.resource_hash ∙ a.resource_hash;
  random_hash = b.random_hash ∙ a.random_hash;
  transfer_size = b.transfer_size ∙ a.transfer_size;
  num_parts = b.num_parts ∙ a.num_parts;
  window = b.window ∙ a.window;
  forward = omega (arith, a.forward, b.forward);
}

fill_slot-Kept :
    (r : InboundResource) (part : List ℕ) (i : ℕ) → IsValid r → Kept r (fill_slot r part i)
unfolding fill_slot
fill_slot-Kept r part i v =
    let a =
      advance-Advanced (set r.received i true) r.num_parts r.num_parts r.consecutive_completed
        v.inside (omega arith) in
    record {
      resource_hash = refl;
      random_hash = refl;
      transfer_size = refl;
      num_parts = refl;
      window = refl;
      forward = a.forward;
    }

part_fits :
    (sha256 : List ℕ → List ℕ) (r : InboundResource) (blob : List ℕ) (i : ℕ)
    → IsValid r
    → IsCopy sha256 r blob
    → i < r.num_parts
    → i * sdu + length (part_of blob (length blob) i) ≤ 3712
part_fits sha256 r blob i v c h =
    let (low, high) = v.parts in
    omega (
      arith,
      c.whole,
      v.few,
      low,
      high,
      length-part_of blob r.num_parts i (omega (arith, c.whole, low), omega (arith, c.whole, high))
          h,
    )

fill_slot-IsGathering :
    (sha256 : List ℕ → List ℕ) (r : InboundResource) (blob : List ℕ) (i : ℕ)
    → IsGathering sha256 r blob
    → i < r.num_parts
    → IsGathering sha256 (fill_slot r (part_of blob (length blob) i) i) blob
unfolding fill_slot
fill_slot-IsGathering sha256 r blob i g h = record {
  valid =
      fill_slot-IsValid r (part_of blob (length blob) i) i g.valid h
        (part_fits sha256 r blob i g.valid g.copy h);
  copy = fill_slot-IsCopy sha256 r blob i g.valid g.copy h;
  distinct = g.distinct;
  state = g.state;
}

fill_slot-advances :
    (r : InboundResource) (part : List ℕ) (j : ℕ)
    → IsValid r
    → j < r.num_parts
    → r.consecutive_completed ≡ j
    → j < (fill_slot r part j).consecutive_completed
unfolding fill_slot
fill_slot-advances r part j v h e =
    let received : List Bool = set r.received j true in
    let a =
      advance-Advanced received r.num_parts r.num_parts r.consecutive_completed v.inside
        (omega arith) in
    let to : ℕ = advance received r.num_parts r.num_parts r.consecutive_completed in
    let new : get_or received j false ≡ true =
      get_or-set_self r.received j true false (omega (arith, v.slots, v.few)) in
    elim (Bool-cases (to == j)) [
      | inr f ↦ let apart : to ≢ j = ground arith in omega (arith, a.forward)
      | inl t ↦
          let same : to ≡ j = ground arith in
          elim a.stopped [
            | inl top ↦ omega (arith, top)
            | inr free ↦
                let clash : get_or received j false ≡ false =
                  ap (λ k. get_or received k false) (sym same) ∙ free in
                absurd cc
          ]
    ]

-- What one arrival leaves.
pub record Arrived (sha256 : List ℕ → List ℕ) (r s : InboundResource) (blob : List ℕ) (j : ℕ)
    : Type 0 where
  pub gathering : IsGathering sha256 s blob
  pub kept : Kept r s
  pub progress : r.consecutive_completed ≡ j → j < window_end r → j < s.consecutive_completed

-- A part of the ciphertext fills its own slot or none, and the first missing one is filled if the
-- window is open.
pub receive_part-Arrived :
    (sha256 : List ℕ → List ℕ) (r : InboundResource) (blob : List ℕ) (j : ℕ)
    → IsGathering sha256 r blob
    → j < r.num_parts
    → Arrived sha256 r (receive_part sha256 r (part_of blob (length blob) j)).0 blob j
unfolding receive_part
receive_part-Arrived sha256 r blob j g h =
    let part : List ℕ = part_of blob (length blob) j in
    let c : ℕ = r.consecutive_completed in
    let n : ℕ = window_end r - c in
    let search = find_slot sha256 r part c n in
    elim (Option-cases search) [
      | inl missed ↦
          rw (g.state, missed)
            record {
              gathering = g;
              kept = Kept_refl r;
              progress = λ e l. absurd (blocked missed e l);
            }
      | inr (i, found) ↦
          let (low, high, fit) = find_slot-some sha256 r part c n i found in
          let bound : i < r.num_parts = omega arith in
          let same : i ≡ j =
            g.distinct i j bound h
              (sym (g.copy.hashes i bound) ∙ fits_slot-hash sha256 r part i fit) in
          rw (g.state, found, same)
            record {
              gathering = fill_slot-IsGathering sha256 r blob j g h;
              kept = fill_slot-Kept r part j g.valid;
              progress = λ e l. fill_slot-advances r part j g.valid h e;
            }
    ]
  where
    blocked :
        find_slot sha256 r
            (part_of blob (length blob) j)
            r.consecutive_completed
            (window_end r - r.consecutive_completed)
          ≡ none
        → r.consecutive_completed ≡ j
        → j < window_end r
        → ⊥
    blocked missed e l =
        let full : get_or r.received j false ≡ true =
          find_slot-none sha256 r (part_of blob (length blob) j) r.consecutive_completed
            (window_end r - r.consecutive_completed) j missed (omega arith) (omega arith)
            (fits_slot-part_of sha256 r blob j g.valid g.copy h) in
        elim g.valid.stopped [
          | inl top ↦ omega (arith, top)
          | inr free ↦
              let clash : get_or r.received j false ≡ false =
                ap (λ k. get_or r.received k false) (sym e) ∙ free in
              cc
        ]

-- The arrivals of the parts with the given indices.
unfoldable pub deliver : (List ℕ → List ℕ) → InboundResource → List ℕ → List ℕ → InboundResource
deliver sha256 r blob [] = r
deliver sha256 r blob (j ∷ js) =
    deliver sha256 (receive_part sha256 r (part_of blob (length blob) j)).0 blob js

pub record Delivered (sha256 : List ℕ → List ℕ) (r s : InboundResource) (blob : List ℕ)
    : Type 0 where
  pub gathering : IsGathering sha256 s blob
  pub kept : Kept r s

abbrev pub IsIndex : ℕ → ℕ → Type 0
IsIndex n j = j < n

-- Parts of the ciphertext in any order, lost or repeated, keep a receiver gathering it.
pub deliver-Delivered :
    (sha256 : List ℕ → List ℕ) (r : InboundResource) (blob js : List ℕ)
    → IsGathering sha256 r blob
    → All (IsIndex r.num_parts) js
    → Delivered sha256 r (deliver sha256 r blob js) blob
unfolding deliver
deliver-Delivered sha256 r blob [] g h = record { gathering = g; kept = Kept_refl r }
deliver-Delivered sha256 r blob (j ∷ js) g (h, hs) =
    let s : InboundResource = (receive_part sha256 r (part_of blob (length blob) j)).0 in
    let a = receive_part-Arrived sha256 r blob j g h in
    let same : s.num_parts ≡ r.num_parts = a.kept.num_parts in
    let rest =
      deliver-Delivered sha256 s blob js a.gathering
        (subst (λ n. All (IsIndex n) js) (sym same) hs) in
    record {
      gathering = rest.gathering;
      kept = Kept_trans r s (deliver sha256 s blob js) a.kept rest.kept;
    }

-- The indices of `n` parts from `i` on.
abbrev pub in_order : ℕ → ℕ → List ℕ
in_order i zero = []
in_order i (suc n) = i ∷ in_order (i + 1) n

-- In order, the parts complete the transfer while the window is open.
deliver-in_order :
    (sha256 : List ℕ → List ℕ) (r : InboundResource) (blob : List ℕ) (i n : ℕ)
    → IsGathering sha256 r blob
    → 1 ≤ r.window.window
    → i ≤ r.consecutive_completed
    → i + n ≤ r.num_parts
    → i + n ≤ (deliver sha256 r blob (in_order i n)).consecutive_completed
unfolding deliver
deliver-in_order sha256 r blob i zero g w low high = omega arith
deliver-in_order sha256 r blob i (suc n) g w low high =
    let s : InboundResource = (receive_part sha256 r (part_of blob (length blob) i)).0 in
    let a = receive_part-Arrived sha256 r blob i g (omega arith) in
    let next : i + 1 ≤ s.consecutive_completed = elim (Bool-cases (r.consecutive_completed == i)) [
      | inl t ↦
          let here : r.consecutive_completed ≡ i = ground arith in
          omega (arith, a.progress here (omega arith))
      | inr f ↦
          let apart : r.consecutive_completed ≢ i = ground arith in omega (arith, a.kept.forward)
    ] in
    let same : s.num_parts ≡ r.num_parts = a.kept.num_parts in
    let wide : 1 ≤ s.window.window = rw a.kept.window w in
    omega (arith, deliver-in_order sha256 s blob (i + 1) n a.gathering wide next (omega arith))

in_order-All : (i n m : ℕ) → i + n ≤ m → All (IsIndex m) (in_order i n)
in_order-All i zero m h = tt
in_order-All i (suc n) m h = (omega arith, in_order-All (i + 1) n m (omega arith))

pub deliver_all :
    (sha256 : List ℕ → List ℕ) (r : InboundResource) (blob : List ℕ)
    → IsGathering sha256 r blob
    → 1 ≤ r.window.window
    → (deliver sha256 r blob (in_order 0 r.num_parts)).consecutive_completed ≡ r.num_parts
deliver_all sha256 r blob g w =
    let all = in_order-All 0 r.num_parts r.num_parts (omega arith) in
    let d = deliver-Delivered sha256 r blob (in_order 0 r.num_parts) g all in
    let low = deliver-in_order sha256 r blob 0 r.num_parts g w (omega arith) (omega arith) in
    omega (arith, low, d.gathering.valid.inside, d.kept.num_parts)
