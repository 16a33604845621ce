-- ===== src/Resource/Outbound/Built.antt =====
-- What `build` of src/resource.rs leaves: the token of the tagged payload, in parts.
use rs_reticulum_lite.Prelude.{
  ℕ, ◌+◌, ◌-◌, ◌≤◌, ◌<◌, ◌≡◌, refl, sym, ap, subst, ◌∙◌, ◌⊎◌, inl, inr, List, ◌++◌, append_assoc,
  false, ltb, length, take, drop, replicate, arith, length-append, length-take, take-append,
  drop-append, Bool-cases,
}
use rs_reticulum_lite.Prelude.Words.{div_ceil}
use rs_reticulum_lite.Prelude.Result.{Result, ok, err}
use rs_reticulum_lite.PacketBuffer.{copy_from_slice}
use rs_reticulum_lite.PacketBuffer.Laws.{take-copy_from_slice, length-copy_from_slice}
use rs_reticulum_lite.Crypto.{Primitives, token_overhead}
use rs_reticulum_lite.Crypto.Token.{pad_of}
use rs_reticulum_lite.Crypto.Token.Form.{IsCipher, token_of, length-token_of}
use rs_reticulum_lite.Crypto.Token.Form
use rs_reticulum_lite.Crypto.Token.Write.{token_encrypt_in_place_lem}
use rs_reticulum_lite.Resource.{
  ResourceError, too_large, map_hash_collision, sdu, max_parts, maphash_len, data_max, transfer_max,
  compute_resource_hash, compute_expected_proof,
}
use rs_reticulum_lite.Resource.Outbound.{
  OutboundResource, zeroed, has_map_hash_collision, hash_parts, finish, returned, build_into, build,
}

-- The resource that was built from a payload: its token, sizes, hashes and proof.
pub record IsBuilt (sha256 : List ℕ → List ℕ) (p : Primitives) (bytes key random_hash iv : List ℕ)
    (r : OutboundResource) : Type 0 where
  pub behind : List ℕ
  pub buf : r.buf ≡ token_of p key iv (random_hash ++ bytes) ++ behind
  pub total : r.total_size ≡ Form.token_len (random_hash ++ bytes)
  pub size : r.data_size ≡ length bytes
  pub small : length bytes ≤ data_max
  pub parts : r.num_parts ≡ div_ceil r.total_size sdu
  pub identity : r.resource_hash ≡ compute_resource_hash sha256 bytes random_hash
  pub proof : r.expected_proof ≡ compute_expected_proof sha256 bytes r.resource_hash
  pub tag : r.random_hash ≡ random_hash
  pub hashes :
      r.map_hashes
      ≡ hash_parts sha256 r.buf r.total_size random_hash 0 r.num_parts
        ++ replicate (max_parts - r.num_parts) (replicate maphash_len 0)
  pub apart :
      has_map_hash_collision (hash_parts sha256 r.buf r.total_size random_hash 0 r.num_parts)
      ≡ false

-- The buffer that `build_into` fills before the encryption.
filled_lem :
    (blank random_hash bytes : List ℕ)
    → length random_hash ≡ 4
    → 20 + length bytes ≤ length blank
    → (take
          (4 + length bytes)
          (drop 16 (copy_from_slice (copy_from_slice blank 16 random_hash) 20 bytes))
        ≡ random_hash ++ bytes)
      × (length (copy_from_slice (copy_from_slice blank 16 random_hash) 20 bytes) ≡ length blank)
filled_lem blank random_hash bytes h fits =
    let first : List ℕ = copy_from_slice blank 16 random_hash in
    let rest : List ℕ = drop (20 + length bytes) first in
    let size = length-copy_from_slice blank 16 random_hash (omega arith) in
    let twenty : 16 + length random_hash ≡ 20 = omega (arith, h) in
    let head : take 20 first ≡ take 16 blank ++ random_hash =
      ap (λ k. take k first) (sym twenty)
      ∙ take-copy_from_slice blank 16 random_hash (omega arith) in
    let front : length (take 16 blank) ≡ 16 = omega (arith, length-take 16 blank) in
    (
      ap (λ z. take (4 + length bytes) (drop 16 (z ++ (bytes ++ rest)))) head
          ∙ ap (λ z. take (4 + length bytes) (drop 16 z))
              (append_assoc (take 16 blank) random_hash (bytes ++ rest))
          ∙ ap (take (4 + length bytes)) (
              drop-append 16 (take 16 blank) (random_hash ++ (bytes ++ rest)) front
              ∙ sym (append_assoc random_hash bytes rest))
          ∙ take-append (4 + length bytes) (random_hash ++ bytes) rest
              (omega (arith, length-append random_hash bytes, h)),
      length-copy_from_slice first 20 bytes (omega (arith, size)) ∙ size,
    )

-- What `build` returns: the resource, or the error that says why there is none.
abbrev pub Built :
    (List ℕ → List ℕ)
    → Primitives
    → List ℕ
    → List ℕ
    → List ℕ
    → List ℕ
    → Result ResourceError OutboundResource
    → Type 0
Built sha256 p bytes key random_hash iv (ok r) = IsBuilt sha256 p bytes key random_hash iv r
Built sha256 p bytes key random_hash iv (err e) =
    ((e ≡ too_large) × (data_max < length bytes)) ⊎ (e ≡ map_hash_collision)

finish_lem :
    (sha256 : List ℕ → List ℕ) (p : Primitives) (bytes key random_hash iv buf behind : List ℕ)
    (total : ℕ) (r : OutboundResource)
    → buf ≡ token_of p key iv (random_hash ++ bytes) ++ behind
    → total ≡ Form.token_len (random_hash ++ bytes)
    → length bytes ≤ data_max
    → Built sha256 p bytes key random_hash iv
        (returned (finish sha256 r bytes random_hash (buf, ok total)))
finish_lem sha256 p bytes key random_hash iv buf behind total r whole size small =
    let hashes = hash_parts sha256 buf total random_hash 0 (div_ceil total sdu) in
    elim (Bool-cases (has_map_hash_collision hashes)) [
      | inl t ↦ rw t (inr refl)
      | inr f ↦ rw f record {
        behind = behind;
        buf = whole;
        total = size;
        size = refl;
        small = small;
        parts = refl;
        identity = refl;
        proof = refl;
        tag = refl;
        hashes = refl;
        apart = f;
      }
    ]

-- A cipher that keeps lengths, a random tag of four bytes and an IV of 16 given, `build` leaves the
-- token of the tagged payload with its sizes, distinct map hashes, identity and proof, unless the
-- payload is too large or two map hashes collide.
pub build-Built :
    (sha256 : List ℕ → List ℕ) (p : Primitives) (bytes key random_hash iv : List ℕ)
    → IsCipher p
    → length iv ≡ 16
    → length random_hash ≡ 4
    → Built sha256 p bytes key random_hash iv (build sha256 p bytes key random_hash iv)
unfolding build build_into zeroed
build-Built sha256 p bytes key random_hash iv c hi hr =
    elim (Bool-cases (ltb data_max (length bytes))) [
      | inl t ↦ rw t (inl (refl, ground arith))
      | inr f ↦
          let small : length bytes ≤ data_max = ground arith in
          let blank : List ℕ = replicate (length (replicate {A = ℕ} transfer_max 0)) 0 in
          let (inside, size) = filled_lem blank random_hash bytes hr (omega arith) in
          let filled : List ℕ = copy_from_slice (copy_from_slice blank 16 random_hash) 20 bytes in
          let n : ℕ = 4 + length bytes in
          let sealed =
            token_encrypt_in_place_lem p key iv filled n c hi (omega arith) (omega arith) in
          let long : length (random_hash ++ bytes) ≡ n =
            omega (arith, length-append random_hash bytes, hr) in
          rw f (
            subst
              (λ z.
                Built sha256 p bytes key random_hash iv
                  (returned (finish sha256 zeroed bytes random_hash z)))
              (sym sealed)
              (finish_lem sha256 p bytes key random_hash iv
                (token_of p key iv (take n (drop 16 filled))
                  ++ drop (n + pad_of n + token_overhead) filled)
                (drop (n + pad_of n + token_overhead) filled) (n + pad_of n + token_overhead) zeroed
                (ap (λ z. token_of p key iv z ++ drop (n + pad_of n + token_overhead) filled)
                  inside)
                (ap (λ k. k + pad_of k + token_overhead) (sym long)) small))
    ]
