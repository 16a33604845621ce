-- ===== src/Crypto/Ecies/Laws.antt =====
-- Laws of the ECIES layer of src/crypto.rs.
use rs_reticulum_lite.Prelude.{
  ℕ, suc, ◌+◌, ◌≤◌, ◌≡◌, refl, sym, ap, ◌∙◌, Option, none, some, List, [], ◌∷◌, ◌++◌, append_assoc,
  arith, length, take, drop, get_elem?, take-append, drop-append, length-append, length-drop, false,
  ltb, Bool-cases, inl, inr,
}
use rs_reticulum_lite.Prelude.Result.{Result, ok, err}
use rs_reticulum_lite.PacketBuffer.{copy_from_slice}
use rs_reticulum_lite.Crypto.{Primitives, CryptoError}
use rs_reticulum_lite.Crypto.Token.{token_decrypt}
use rs_reticulum_lite.Crypto.Token.Form.{IsCipher, token_of, token_len, length-token_of}
use rs_reticulum_lite.Crypto.Token.Write.{token_encrypt_lem}
use rs_reticulum_lite.Crypto.Token.Read.{token_decrypt-token_of}
use rs_reticulum_lite.Crypto.Token.Laws.{Guarded, token_decrypt-Guarded}
use rs_reticulum_lite.Crypto.Ecies.{
  padded_max, max_ecies_plaintext, with_hint, first_of, session_key, derive_token_key,
  ecies_encrypt, ecies_decrypt, try_ratchets, ecies_decrypt_with_ratchets,
  ecies_decrypt_with_ratchet_hint,
}

-- What X25519 promises: both sides compute the same secret, and a public key has 32 bytes.
pub record IsAgreement (p : Primitives) : Type 0 where
  pub diffie_hellman_comm :
      (a b : List ℕ)
      → p.diffie_hellman a (p.x25519_public b) ≡ p.diffie_hellman b (p.x25519_public a)
  pub length-x25519_public : (a : List ℕ) → length (p.x25519_public a) ≡ 32

-- The blob: the ephemeral public key and the token.
abbrev pub blob_of : Primitives → List ℕ → List ℕ → List ℕ → List ℕ → List ℕ → List ℕ
blob_of p pt target_pub identity_hash eph iv =
    p.x25519_public eph ++ token_of p (session_key p eph target_pub identity_hash) iv pt

ecies_encrypt_lem :
    (p : Primitives) (pt target_pub identity_hash eph iv out : List ℕ)
    → IsCipher p
    → length iv ≡ 16
    → length pt ≤ max_ecies_plaintext
    → 32 + token_len pt ≤ length out
    → ecies_encrypt p pt target_pub identity_hash eph iv out ≡ (
      blob_of p pt target_pub identity_hash eph iv ++ drop (token_len pt) (drop 32 out),
      ok (32 + token_len pt),
    )
unfolding ecies_encrypt
ecies_encrypt_lem p pt target_pub identity_hash eph iv out c hi hp ho =
    let key : List ℕ = session_key p eph target_pub identity_hash in
    let short : ltb max_ecies_plaintext (length pt) ≡ false = ground arith in
    let room : ltb (length out) 32 ≡ false = ground arith in
    let token =
      token_encrypt_lem p padded_max key iv (drop 32 out) pt c hi (omega arith)
        (omega (arith, length-drop 32 out)) in
    let shape =
      append_assoc (p.x25519_public eph) (token_of p key iv pt)
        (drop (token_len pt) (drop 32 out)) in
    rw (short, room, token) (ap (λ z. (z, ok (32 + token_len pt))) (sym shape))

-- A cipher that undoes itself and a key agreement given, what is encrypted to the public key of a
-- private key, with an IV of 16 bytes and at most 383 bytes of plaintext, is decrypted by that
-- private key to the same bytes, where both outputs have room.
pub ecies_decrypt-ecies_encrypt :
    (p : Primitives) (pt private identity_hash eph iv out mine : List ℕ)
    → IsCipher p
    → IsAgreement p
    → length iv ≡ 16
    → length pt ≤ max_ecies_plaintext
    → 32 + token_len pt ≤ length out
    → length pt ≤ length mine
    → ecies_decrypt p
        (take
          (32 + token_len pt)
          (ecies_encrypt p pt (p.x25519_public private) identity_hash eph iv out).0)
        private
        identity_hash
        mine
      ≡ (copy_from_slice mine 0 pt, ok (length pt))
unfolding ecies_decrypt derive_token_key
ecies_decrypt-ecies_encrypt p pt private identity_hash eph iv out mine c a hi hp ho hm =
    let key : List ℕ = session_key p eph (p.x25519_public private) identity_hash in
    let token : List ℕ = token_of p key iv pt in
    let blob : List ℕ = blob_of p pt (p.x25519_public private) identity_hash eph iv in
    let size = length-token_of p key iv pt c hi in
    let head = a.length-x25519_public eph in
    let whole : length blob ≡ 32 + token_len pt =
      omega (arith, length-append (p.x25519_public eph) token, size, head) in
    let sent =
      ap (λ r. take (32 + token_len pt) r.0)
        (ecies_encrypt_lem p pt (p.x25519_public private) identity_hash eph iv out c hi hp ho)
      ∙ take-append (32 + token_len pt) blob (drop (token_len pt) (drop 32 out)) whole in
    let enough : ltb (length blob) 96 ≡ false = rw whole (ground arith) in
    rw
      (
        sent,
        enough,
        drop-append 32 (p.x25519_public eph) token head,
        take-append 32 (p.x25519_public eph) token head,
        a.diffie_hellman_comm private eph,
      )
      (token_decrypt-token_of p padded_max key iv pt mine c hi (omega arith) hm)

-- A failed attempt leaves the output as it was.
Guarded-err :
    (p : Primitives) (token key out : List ℕ) (r : List ℕ × Result CryptoError ℕ) (e : CryptoError)
    → Guarded p token key out r
    → r.1 ≡ err e
    → r.0 ≡ out
Guarded-err p token key out (o, err d) e g h = g
Guarded-err p token key out (o, ok n) e g h = cc

ecies_decrypt-err :
    (p : Primitives) (blob private identity_hash out : List ℕ) (e : CryptoError)
    → (ecies_decrypt p blob private identity_hash out).1 ≡ err e
    → (ecies_decrypt p blob private identity_hash out).0 ≡ out
unfolding ecies_decrypt
ecies_decrypt-err p blob private identity_hash out e h = elim (Bool-cases (ltb (length blob) 96)) [
  | inl t ↦ rw t refl
  | inr f ↦
      let key : List ℕ = session_key p private (take 32 blob) identity_hash in
      rw f (
        Guarded-err p (drop 32 blob) key out (token_decrypt p padded_max (drop 32 blob) key out) e
          (token_decrypt-Guarded p padded_max (drop 32 blob) key out) (rw f at h))
]

-- What a scan reports: a hint with which the one attempt gives the same, unless all fail.
abbrev pub Hinted :
    Primitives
    → List ℕ
    → List (List ℕ)
    → List ℕ
    → List ℕ
    → List ℕ
    → List ℕ × Result CryptoError (ℕ × Option ℕ)
    → Type 0
Hinted p blob ratchets private identity_hash out (o, ok (n, hint)) =
    ecies_decrypt_with_ratchet_hint p blob ratchets private identity_hash hint out ≡ (o, ok n)
Hinted p blob ratchets private identity_hash out (o, err e) =
    (o ≡ out) × (ecies_decrypt p blob private identity_hash out ≡ (out, err e))

with_hint-Hinted :
    (p : Primitives) (blob : List ℕ) (ratchets : List (List ℕ)) (private identity_hash out : List ℕ)
    (r : List ℕ × Result CryptoError ℕ)
    → ecies_decrypt p blob private identity_hash out ≡ r
    → Hinted p blob ratchets private identity_hash out (with_hint none r)
unfolding ecies_decrypt_with_ratchet_hint
with_hint-Hinted p blob ratchets private identity_hash out (o, ok n) h = h
with_hint-Hinted p blob ratchets private identity_hash out (o, err e) h =
    let kept : o ≡ out =
      sym (ap (λ r. r.0) h)
      ∙ ecies_decrypt-err p blob private identity_hash out e (ap (λ r. r.1) h) in
    (kept, h ∙ ap (λ z. (z, err e)) kept)

hint_at :
    (p : Primitives) (blob : List ℕ) (ratchets : List (List ℕ))
    (private identity_hash out r : List ℕ) (k : ℕ)
    → get_elem? ratchets k ≡ some r
    → ecies_decrypt_with_ratchet_hint p blob ratchets private identity_hash (some k) out
      ≡ ecies_decrypt p blob r identity_hash out
unfolding ecies_decrypt_with_ratchet_hint
hint_at p blob ratchets private identity_hash out r k h =
    rw (h, ecies_decrypt_with_ratchet_hint) refl

-- The scan of the ratchets behind the first `index` ones.
try_ratchets-Hinted :
    (p : Primitives) (blob : List ℕ) (ratchets rs : List (List ℕ)) (private identity_hash : List ℕ)
    (index : ℕ) (out : List ℕ)
    → ((i : ℕ) → get_elem? ratchets (index + i) ≡ get_elem? rs i)
    → Hinted p blob ratchets private identity_hash out
        (try_ratchets p blob rs private identity_hash index out)
unfolding try_ratchets
try_ratchets-Hinted p blob ratchets [] private identity_hash index out h =
    with_hint-Hinted p blob ratchets private identity_hash out
      (ecies_decrypt p blob private identity_hash out) refl
try_ratchets-Hinted p blob ratchets (r ∷ rs) private identity_hash index out h =
    attempted (ecies_decrypt p blob r identity_hash out) refl (
      try_ratchets-Hinted p blob ratchets rs private identity_hash (index + 1) out
        (λ i. ap (get_elem? ratchets) (omega arith) ∙ h (suc i)))
  where
    attempted :
        (a : List ℕ × Result CryptoError ℕ)
        → ecies_decrypt p blob r identity_hash out ≡ a
        → Hinted p blob ratchets private identity_hash out
            (try_ratchets p blob rs private identity_hash (index + 1) out)
        → Hinted p blob ratchets private identity_hash out
            (first_of index a (try_ratchets p blob rs private identity_hash (index + 1) a.0))
    attempted (o, ok n) e next =
        hint_at p blob ratchets private identity_hash out r index
          (ap (get_elem? ratchets) (omega arith) ∙ h 0)
        ∙ e
    attempted (o, err d) e next =
        let kept : o ≡ out =
          sym (ap (λ z. z.0) e)
          ∙ ecies_decrypt-err p blob r identity_hash out d (ap (λ z. z.1) e) in
        rw kept next

-- Whatever the cipher, the scan of the ratchets and the base key reports a hint with which the one
-- attempt of `ecies_decrypt_with_ratchet_hint` gives the same bytes and length; where every key
-- fails, the output is unchanged and the error is that of the base key.
pub ecies_decrypt_with_ratchets-Hinted :
    (p : Primitives) (blob : List ℕ) (ratchets : List (List ℕ)) (private identity_hash out : List ℕ)
    → Hinted p blob ratchets private identity_hash out
        (ecies_decrypt_with_ratchets p blob ratchets private identity_hash out)
unfolding ecies_decrypt_with_ratchets
ecies_decrypt_with_ratchets-Hinted p blob ratchets private identity_hash out =
    try_ratchets-Hinted p blob ratchets ratchets private identity_hash 0 out
      (λ i. ap (get_elem? ratchets) (omega arith))
