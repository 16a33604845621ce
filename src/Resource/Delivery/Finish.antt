-- ===== src/Resource/Delivery/Finish.antt =====
-- The assembly of a complete receiver of src/resource.rs, and the proof of delivery.
use rs_reticulum_lite.Prelude.{
  ℕ, ◌+◌, ◌-◌, ◌/◌, ◌≤◌, ◌≡◌, refl, sym, ap, ap₂, subst, ◌∙◌, some, List, ◌++◌, append_assoc, true,
  false, ◌==◌, ==_iff, ltb, length, take, drop, arith, length-append, length-take, take-append,
  drop-append, get_or-take, list_ext,
}
use rs_reticulum_lite.Prelude.Bytes.{bytes_eq, bytes_eq_refl}
use rs_reticulum_lite.Prelude.Result.{Result, ok, err}
use rs_reticulum_lite.PacketBuffer.{copy_from_slice}
use rs_reticulum_lite.PacketBuffer.Laws.{take-copy_from_slice, length-copy_from_slice}
use rs_reticulum_lite.Crypto.{Primitives}
use rs_reticulum_lite.Crypto.Token.{token_decrypt_in_place}
use rs_reticulum_lite.Crypto.Token.Form.{IsCipher, token_of, tag_of, padding}
use rs_reticulum_lite.Crypto.Token.Read.{token_decrypt_in_place-token_of}
use rs_reticulum_lite.Resource.{ResourceError, sdu, compute_resource_hash, compute_expected_proof}
use rs_reticulum_lite.Resource.Outbound.{OutboundResource, validate_proof}
use rs_reticulum_lite.Resource.Inbound.{
  InboundResource, is_assembled, is_complete, opened, assemble, data_of, build_proof,
}
use rs_reticulum_lite.Resource.Inbound.Run.{IsGathering}
use rs_reticulum_lite.Resource.Delivery.{IsHash}

-- A complete receiver holds the ciphertext.
take-buf :
    (sha256 : List ℕ → List ℕ) (s : InboundResource) (blob : List ℕ)
    → IsGathering sha256 s blob
    → s.consecutive_completed ≡ s.num_parts
    → take s.transfer_size s.buf ≡ blob
take-buf sha256 s blob g done =
    let size : length (take s.transfer_size s.buf) ≡ length blob = omega (
      arith,
      length-take s.transfer_size s.buf,
      g.copy.whole,
      g.valid.size,
      g.valid.few,
      g.valid.parts.0,
    ) in
    list_ext (take s.transfer_size s.buf) blob 0 size (λ q l.
      get_or-take s.transfer_size s.buf q 0 (omega (arith, size, g.copy.whole))
      ∙ g.copy.bytes q (omega (arith, size))
          (g.valid.prefix (q / sdu) (omega (arith, size, g.copy.whole, done, g.valid.parts.0))))

-- The payload behind the IV and the tag of an opened token.
payload_lem :
    (iv random_hash bytes rest : List ℕ) (n : ℕ)
    → length iv ≡ 16
    → length random_hash ≡ 4
    → n ≡ length bytes
    → take (20 + n - 20) (drop 20 (iv ++ ((random_hash ++ bytes) ++ rest))) ≡ bytes
payload_lem iv random_hash bytes rest n hi hr e =
    let shape : iv ++ ((random_hash ++ bytes) ++ rest) ≡ (iv ++ random_hash) ++ (bytes ++ rest) =
      ap (iv ++◌) (append_assoc random_hash bytes rest)
      ∙ sym (append_assoc iv random_hash (bytes ++ rest)) in
    ap (λ z. take (20 + n - 20) (drop 20 z)) shape
    ∙ ap (take (20 + n - 20)) (
        drop-append 20 (iv ++ random_hash) (bytes ++ rest)
          (omega (arith, length-append iv random_hash, hi, hr)))
    ∙ take-append (20 + n - 20) bytes rest (omega (arith, e))

-- What the assembly leaves: the payload, and the proof that the sender expects.
pub record IsAssembled (sha256 : List ℕ → List ℕ) (bytes : List ℕ) (s : InboundResource)
    (a : InboundResource × Result ResourceError ℕ) : Type 0 where
  pub reported : a.1 ≡ ok (length bytes)
  pub state : is_assembled a.0.state ≡ true
  pub payload : data_of a.0 ≡ some bytes
  pub proof : a.0.proof ≡ compute_expected_proof sha256 bytes s.resource_hash
  pub identity : a.0.resource_hash ≡ s.resource_hash

opened-IsAssembled :
    (sha256 : List ℕ → List ℕ) (s : InboundResource) (iv random_hash bytes rest : List ℕ) (n : ℕ)
    → length iv ≡ 16
    → length random_hash ≡ 4
    → n ≡ 4 + length bytes
    → s.random_hash ≡ random_hash
    → s.resource_hash ≡ compute_resource_hash sha256 bytes random_hash
    → IsAssembled sha256 bytes s (opened sha256 s (iv ++ ((random_hash ++ bytes) ++ rest), ok n))
unfolding data_of
opened-IsAssembled sha256 s iv random_hash bytes rest n hi hr e tag identity =
    let buf : List ℕ = (iv ++ ((random_hash ++ bytes) ++ rest)) ++ drop s.transfer_size s.buf in
    let less : n - 4 ≡ length bytes = omega (arith, e) in
    let whole : buf ≡ iv ++ ((random_hash ++ bytes) ++ (rest ++ drop s.transfer_size s.buf)) =
      append_assoc iv ((random_hash ++ bytes) ++ rest) (drop s.transfer_size s.buf)
      ∙ ap (iv ++◌) (append_assoc (random_hash ++ bytes) rest (drop s.transfer_size s.buf)) in
    let inside : take (20 + (n - 4) - 20) (drop 20 buf) ≡ bytes =
      ap (λ z. take (20 + (n - 4) - 20) (drop 20 z)) whole
      ∙ payload_lem iv random_hash bytes (rest ++ drop s.transfer_size s.buf) (n - 4) hi hr less in
    let long : ltb n 4 ≡ false = rw e (not-less (length bytes)) in
    let same : bytes_eq (compute_resource_hash sha256 bytes s.random_hash) s.resource_hash ≡ true =
      ap (λ h. bytes_eq (compute_resource_hash sha256 bytes s.random_hash) h)
        (identity ∙ ap (compute_resource_hash sha256 bytes) (sym tag))
      ∙ bytes_eq_refl (compute_resource_hash sha256 bytes s.random_hash) in
    rw (long, inside, same)
      record {
        reported = ap ok less;
        state = refl;
        payload = ap some inside;
        proof = refl;
        identity = refl;
      }
  where
    not-less : (m : ℕ) → ltb (4 + m) 4 ≡ false
    not-less m = ground arith

-- A complete receiver of a token that was not touched yet is assembled.
pub assemble-IsAssembled :
    (sha256 : List ℕ → List ℕ) (p : Primitives) (s : InboundResource)
    (bytes key random_hash iv : List ℕ)
    → IsCipher p
    → length iv ≡ 16
    → length random_hash ≡ 4
    → IsGathering sha256 s (token_of p key iv (random_hash ++ bytes))
    → is_complete s ≡ true
    → s.random_hash ≡ random_hash
    → s.resource_hash ≡ compute_resource_hash sha256 bytes random_hash
    → IsAssembled sha256 bytes s (assemble sha256 p s key)
unfolding assemble is_complete
assemble-IsAssembled sha256 p s bytes key random_hash iv c hi hr g done tag identity =
    let pt : List ℕ = random_hash ++ bytes in
    let full = take-buf sha256 s (token_of p key iv pt) g ((==_iff _ _).0 done) in
    let plain =
      ap (token_decrypt_in_place p key) full ∙ token_decrypt_in_place-token_of p key iv pt c hi in
    let shape : iv ++ ((pt ++ padding pt) ++ tag_of p key iv pt)
        ≡ iv ++ (pt ++ (padding pt ++ tag_of p key iv pt)) =
      ap (iv ++◌) (append_assoc pt (padding pt) (tag_of p key iv pt)) in
    let read = plain ∙ ap (λ z. (z, ok (length pt))) shape in
    rw (g.state, done)
      (subst (λ z. IsAssembled sha256 bytes s (opened sha256 s z)) (sym read)
        (opened-IsAssembled sha256 s iv random_hash bytes (padding pt ++ tag_of p key iv pt)
          (length pt) hi hr (omega (arith, length-append random_hash bytes, hr)) tag identity))

-- The proof that the receiver writes is the one that the sender validates.
abbrev pub Proved : OutboundResource → Result ResourceError (List ℕ × ℕ) → Type 0
Proved r (err e) = ⊥
Proved r (ok (out, n)) = validate_proof r (take n out) ≡ true

pub build_proof-Proved :
    (sha256 : List ℕ → List ℕ) (bytes : List ℕ) (r : OutboundResource) (s a : InboundResource)
    (out : List ℕ)
    → IsHash sha256
    → is_assembled a.state ≡ true
    → a.resource_hash ≡ r.resource_hash
    → a.proof ≡ r.expected_proof
    → length r.resource_hash ≡ 32
    → length r.expected_proof ≡ 32
    → 64 ≤ length out
    → Proved r (build_proof a out)
unfolding build_proof validate_proof
build_proof-Proved sha256 bytes r s a out sha done identity proof hash_size proof_size room =
    let first : List ℕ = copy_from_slice out 0 a.resource_hash in
    let whole : List ℕ = copy_from_slice first 32 a.proof in
    let hash_len : length a.resource_hash ≡ 32 = ap length identity ∙ hash_size in
    let proof_len : length a.proof ≡ 32 = ap length proof ∙ proof_size in
    let size = length-copy_from_slice out 0 a.resource_hash (omega (arith, hash_len)) in
    let sixty_four : 32 + length a.proof ≡ 64 = omega (arith, proof_len) in
    let thirty_two : 0 + length a.resource_hash ≡ 32 = omega (arith, hash_len) in
    let front : take 32 first ≡ r.resource_hash =
      ap (λ k. take k first) (sym thirty_two)
      ∙ take-copy_from_slice out 0 a.resource_hash (omega arith)
      ∙ identity in
    let both : take 64 whole ≡ r.resource_hash ++ r.expected_proof =
      ap (λ k. take k whole) (sym sixty_four)
      ∙ take-copy_from_slice first 32 a.proof (omega (arith, size))
      ∙ ap₂ (λ x y. x ++ y) front proof in
    let enough : ltb (length out) 64 ≡ false = not-less (length out) room in
    let long : (length (r.resource_hash ++ r.expected_proof) == 64) ≡ true =
      (==_iff _ _).1
        (omega (arith, length-append r.resource_hash r.expected_proof, hash_size, proof_size)) in
    rw
      (
        done,
        enough,
        both,
        long,
        take-append 32 r.resource_hash r.expected_proof hash_size,
        drop-append 32 r.resource_hash r.expected_proof hash_size,
        bytes_eq_refl r.resource_hash,
      )
      (bytes_eq_refl r.expected_proof)
  where
    not-less : (m : ℕ) → 64 ≤ m → ltb m 64 ≡ false
    not-less m h = ground arith
