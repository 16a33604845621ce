-- ===== src/Resource/Delivery/Start.antt =====
-- The receiver accepts the advertisement of what the sender of src/resource.rs has built.
use rs_reticulum_lite.Prelude.{
  ℕ, zero, suc, ◌+◌, ◌-◌, ◌*◌, ◌/◌, ◌%◌, ◌≤◌, ◌<◌, ◌≡◌, refl, sym, ap, ap₂, ◌∙◌, none, List, [],
  ◌++◌, false, not, ◌||◌, ◌==◌, ltb, ltb→lt, length, take, drop, replicate, get_or, arith, All,
  length-append, length-take, length-replicate, take-append, get_or-append_front, Bool-cases, inl,
  inr,
}
use rs_reticulum_lite.Prelude.Words.{div_ceil}
use rs_reticulum_lite.Prelude.Result.{ok, AllClear, AllClear-first_error}
use rs_reticulum_lite.Crypto.{Primitives}
use rs_reticulum_lite.Crypto.Token.{pad_of}
use rs_reticulum_lite.Crypto.Token.Form.{IsCipher, token_of, length-token_of}
use rs_reticulum_lite.Resource.{
  sdu, max_parts, maphash_len, token_len, transfer_max, get_map_hash, hash_pair,
}
use rs_reticulum_lite.Resource.Outbound.{
  OutboundResource, advertisement, part_of, hash_parts, has_map_hash_collision, concat,
}
use rs_reticulum_lite.Resource.Outbound.Hashes.{
  length-hash_parts, get_or-hash_parts, collides-ne, IsMapHash, slice-concat,
}
use rs_reticulum_lite.Resource.Outbound.Built.{IsBuilt}
use rs_reticulum_lite.Resource.Inbound.{
  InboundResource, admission_checks, read_hashes, validate_adv, purpose_valid, fresh,
  from_advertisement,
}
use rs_reticulum_lite.Resource.Inbound.Step.{AreParts}
use rs_reticulum_lite.Resource.Inbound.Receive.{IsCopy}
use rs_reticulum_lite.Resource.Inbound.Slots.{AreDistinct}
use rs_reticulum_lite.Resource.Inbound.Admission.{
  length-read_hashes, get_or-read_hashes, fresh-IsValid, supported,
}
use rs_reticulum_lite.Resource.Inbound.Run.{IsGathering}
use rs_reticulum_lite.Resource.Delivery.{IsHash, part_of-append}

-- The sizes of what was built fit each other.
record IsSized (n total k : ℕ) : Type 0 where
  token : token_len (4 + n) ≡ total
  bounded : total ≤ 3712
  least : 64 ≤ total
  few : k ≤ 8
  parts : AreParts total k

consistent_sizes :
    (n total parts : ℕ)
    → n ≤ 3659
    → total ≡ (4 + n) + (16 - (4 + n) % 16) + 48
    → parts ≡ div_ceil total sdu
    → IsSized n total parts
unfolding token_len
consistent_sizes n total parts h t e = record {
  token = omega (arith, t);
  bounded = omega (arith, t);
  least = omega (arith, t);
  few = omega (arith, t, e);
  parts = (omega (arith, e), omega (arith, e));
}

hash_parts-IsMapHash :
    (sha256 : List ℕ → List ℕ) (buf : List ℕ) (total : ℕ) (random_hash : List ℕ) (i n : ℕ)
    → IsHash sha256
    → All IsMapHash (hash_parts sha256 buf total random_hash i n)
unfolding hash_parts get_map_hash hash_pair
hash_parts-IsMapHash sha256 buf total random_hash i zero h = tt
hash_parts-IsMapHash sha256 buf total random_hash i (suc n) h = (
  omega (
    arith,
    length-take 4 (sha256 (part_of buf total i ++ random_hash)),
    h.length-sha256 (part_of buf total i ++ random_hash),
  ),
  hash_parts-IsMapHash sha256 buf total random_hash (i + 1) n h,
)

get_or-none_received : (n k : ℕ) → get_or (replicate n false) k false ≡ false
get_or-none_received zero k = refl
get_or-none_received (suc n) zero = refl
get_or-none_received (suc n) (suc k) = get_or-none_received n k

module _ (sha256 : List ℕ → List ℕ) (p : Primitives) (bytes key random_hash iv : List ℕ)
    (r : OutboundResource) (b : IsBuilt sha256 p bytes key random_hash iv r)
    (tag_size : length random_hash ≡ 4) (iv_size : length iv ≡ 16) (c : IsCipher p)
    (sha : IsHash sha256) where
  sizes : IsSized (length bytes) r.total_size r.num_parts
  sizes =
      consistent_sizes (length bytes) r.total_size r.num_parts b.small
        (b.total
          ∙ ap (λ k. k + pad_of k + 48) (omega (arith, length-append random_hash bytes, tag_size)))
        b.parts

  admitted : AllClear (admission_checks (advertisement r) none)
  unfolding advertisement purpose_valid
  admitted =
      let s = sizes in
      let data_size : r.data_size ≡ length bytes = b.size in
      let bounded : (ltb 3712 r.total_size || ltb 3659 r.data_size) ≡ false =
        within r.total_size r.data_size s.bounded (omega (arith, data_size, b.small)) in
      let least : ltb r.total_size 64 ≡ false = not-less r.total_size 64 s.least in
      let token : not (token_len (4 + r.data_size) == r.total_size) ≡ false =
        not-equal _ _ (ap (λ k. token_len (4 + k)) data_size ∙ s.token) in
      (
        refl,
        (
          refl,
          (
            refl,
            (
              refl,
              (
                refl,
                (
                  bounded,
                  (
                    least,
                    (token, (not-equal _ _ b.parts, (not-equal _ _ (ap (λ k. k * 4) b.parts), tt))),
                  ),
                ),
              ),
            ),
          ),
        ),
      )
    where
      not-equal : (a b : ℕ) → a ≡ b → not (a == b) ≡ false
      not-equal a b h = ground arith

      not-less : (a b : ℕ) → b ≤ a → ltb a b ≡ false
      not-less a b h = ground arith

      within : (a b : ℕ) → a ≤ 3712 → b ≤ 3659 → (ltb 3712 a || ltb 3659 b) ≡ false
      within a b h k = ground arith

  -- The token of the tagged payload, and the receiver of its advertisement.
  abbrev pub token : List ℕ
  token = token_of p key iv (random_hash ++ bytes)

  abbrev pub parts : ℕ
  parts = div_ceil r.total_size sdu

  abbrev pub receiver : InboundResource
  receiver =
      fresh (advertisement r) (replicate transfer_max 0)
        (read_hashes (advertisement r).hashmap 0 parts
          ++ replicate (max_parts - parts) (replicate maphash_len 0))
        parts

  length-token : length token ≡ r.total_size
  length-token = length-token_of p key iv (random_hash ++ bytes) c iv_size ∙ sym b.total

  abbrev hashes : List (List ℕ)
  hashes = hash_parts sha256 r.buf r.total_size random_hash 0 r.num_parts

  -- The hash of a part, read from the advertisement.
  read_hash :
      (i : ℕ)
      → i < r.num_parts
      → take 4 (drop (i * 4) (advertisement r).hashmap) ≡ get_or hashes i []
  unfolding advertisement
  read_hash i h =
      let size = length-hash_parts sha256 r.buf r.total_size random_hash 0 r.num_parts in
      let front : take r.num_parts r.map_hashes ≡ hashes =
        ap (take r.num_parts) b.hashes
        ∙ take-append r.num_parts hashes
            (replicate (max_parts - r.num_parts) (replicate maphash_len 0)) size in
      rw front (
        slice-concat hashes (drop (0 + length (concat hashes)) (replicate 32 0)) i (i * 4)
          (hash_parts-IsMapHash sha256 r.buf r.total_size random_hash 0 r.num_parts sha)
          (omega (arith, size)) refl)

  -- The parts of the buffer are those of the token.
  pub part_of-token :
      (i : ℕ) → i < r.num_parts → part_of r.buf r.total_size i ≡ part_of token (length token) i
  part_of-token i h =
      let (low, high) = sizes.parts in
      ap (λ t. part_of r.buf t i) (sym length-token)
      ∙ ap (λ z. part_of z (length token) i) b.buf
      ∙ part_of-append token b.behind i (omega (arith, length-token, high))

  receiver-IsCopy : IsCopy sha256 receiver token
  unfolding advertisement
  receiver-IsCopy = record {
    whole = length-token;
    hashes = λ i h.
        let bound : i < r.num_parts = omega (arith, b.parts) in
        get_or-append_front (read_hashes (advertisement r).hashmap 0 parts)
          (replicate (max_parts - parts) (replicate maphash_len 0)) i []
          (omega (arith, length-read_hashes (advertisement r).hashmap 0 parts))
        ∙ get_or-read_hashes (advertisement r).hashmap 0 parts i i h (omega arith)
        ∙ read_hash i bound
        ∙ get_or-hash_parts sha256 r.buf r.total_size random_hash 0 r.num_parts i i bound
            (omega arith)
        ∙ ap₂ (get_map_hash sha256) (part_of-token i bound) (sym b.tag);
    bytes = λ q l e. let empty = get_or-none_received max_parts (q / sdu) in absurd cc;
  }

  token-AreDistinct : AreDistinct sha256 token r.random_hash parts
  unfolding has_map_hash_collision
  token-AreDistinct i j hi hj same =
      let size = length-hash_parts sha256 r.buf r.total_size random_hash 0 r.num_parts in
      let bi : i < r.num_parts = omega (arith, b.parts) in
      let bj : j < r.num_parts = omega (arith, b.parts) in
      let equal : get_or hashes i [] ≡ get_or hashes j [] =
        hash_at i bi ∙ same ∙ sym (hash_at j bj) in
      elim (Bool-cases (ltb i j)) [
        | inl t ↦
            absurd (collides-ne [] hashes i j b.apart (ltb→lt i j t) (omega (arith, size)) equal)
        | inr f ↦ elim (Bool-cases (ltb j i)) [
          | inl t ↦
              absurd
                (collides-ne [] hashes j i b.apart (ltb→lt j i t) (omega (arith, size)) (sym equal))
          | inr g ↦ neither i j f g
        ]
      ]
    where
      neither : (i j : ℕ) → ltb i j ≡ false → ltb j i ≡ false → i ≡ j
      neither i j f g = ground arith

      hash_at :
          (i : ℕ)
          → i < r.num_parts
          → get_or hashes i [] ≡ get_map_hash sha256 (part_of token (length token) i) r.random_hash
      hash_at i h =
          get_or-hash_parts sha256 r.buf r.total_size random_hash 0 r.num_parts i i h (omega arith)
          ∙ ap₂ (get_map_hash sha256) (part_of-token i h) (sym b.tag)

  pub receiver-IsGathering : IsGathering sha256 receiver token
  unfolding advertisement
  receiver-IsGathering = record {
    valid =
        fresh-IsValid (advertisement r) none (replicate transfer_max 0) receiver.map_hashes parts
          (supported (advertisement r) none admitted) (length-replicate {A = ℕ} transfer_max 0);
    copy = receiver-IsCopy;
    distinct = token-AreDistinct;
    state = refl;
  }

  pub from_advertisement-advertisement : from_advertisement (advertisement r) ≡ ok receiver
  unfolding from_advertisement validate_adv advertisement
  from_advertisement-advertisement =
      rw (AllClear-first_error (admission_checks (advertisement r) none) admitted) refl
