-- ===== src/Crypto/Token/Read.antt =====
-- The decryptions of src/crypto.rs read the Token back.
use rs_reticulum_lite.Prelude.{
  ℕ, zero, suc, ◌+◌, ◌-◌, ◌%◌, ◌≤◌, ◌<◌, ◌≡◌, refl, sym, ap, ap₂, ◌∙◌, List, [], ◌∷◌, ◌++◌,
  append_assoc, arith, Bool-cases, inl, inr, length-drop, take-append-drop, length, take, drop,
  replicate, length-append, take-append, drop-append, true, false, not, ◌||◌, ltb, ◌==◌, get_or,
}
use rs_reticulum_lite.Prelude.Bytes.{bytes_eq_refl}
use rs_reticulum_lite.Prelude.Result.{Result, ok, err}
use rs_reticulum_lite.PacketBuffer.{copy_from_slice}
use rs_reticulum_lite.PacketBuffer.Laws.{copy_from_slice-append}
use rs_reticulum_lite.Crypto.{Primitives, CryptoError}
use rs_reticulum_lite.Crypto.Token.{
  pad_of, all_equal, pkcs7_unpad, is_authentic, token_decrypt_in_place, token_decrypt,
}
use rs_reticulum_lite.Crypto.Token.Form.{
  IsCipher, padding, ciphertext_of, tag_of, token_of, length_padded, whole_blocks,
  length-ciphertext_of, length-token_of,
}

-- Reading the padding back.
all_equal-replicate : (n b : ℕ) → all_equal b (replicate n b) ≡ true
unfolding all_equal
all_equal-replicate zero b = refl
all_equal-replicate (suc n) b = ground (arith, all_equal-replicate n b)

get_or-replicate : (n b i : ℕ) → i < n → get_or (replicate n b) i 0 ≡ b
get_or-replicate zero b i h = absurd (omega arith)
get_or-replicate (suc n) b zero h = refl
get_or-replicate (suc n) b (suc i) h = get_or-replicate n b i (omega arith)

get_or-append :
    (xs ys : List ℕ) (i k : ℕ) → length xs + i ≡ k → get_or (xs ++ ys) k 0 ≡ get_or ys i 0
get_or-append [] ys i k h = ap (λ j. get_or ys j 0) (omega (arith, h))
get_or-append (x ∷ xs) ys i zero h = absurd (omega arith)
get_or-append (x ∷ xs) ys i (suc k) h = get_or-append xs ys i k (omega arith)

pub pkcs7_unpad-padding : (pt : List ℕ) → pkcs7_unpad (pt ++ padding pt) ≡ ok pt
unfolding pkcs7_unpad
pkcs7_unpad-padding pt =
    let n : ℕ = length pt in
    let pad : ℕ = pad_of n in
    let size : length (pt ++ padding pt) ≡ n + pad = length_padded pt in
    let last : get_or (pt ++ padding pt) (n + pad - 1) 0 ≡ pad =
      get_or-append pt (padding pt) (pad - 1) (n + pad - 1) (omega arith)
      ∙ get_or-replicate pad pad (pad - 1) (omega arith) in
    let start : n + pad - pad ≡ n = omega arith in
    let not_empty : (n + pad == 0) ≡ false = ground arith in
    let good : (pad == 0 || (ltb 16 pad || ltb (n + pad) pad)) ≡ false = ground arith in
    rw
      (
        size,
        last,
        not_empty,
        good,
        start,
        drop-append n pt (padding pt) refl,
        all_equal-replicate pad pad,
        take-append n pt (padding pt) refl,
      )
      refl

-- The parts of a token: what is signed, the tag, the IV and the ciphertext.
record Parts (p : Primitives) (key iv pt token : List ℕ) : Type 0 where
  signed : take (length token - 32) token ≡ iv ++ ciphertext_of p key iv pt
  signature : drop (length token - 32) token ≡ tag_of p key iv pt
  vector : take 16 token ≡ iv
  sealed : drop 16 (take (length token - 32) token) ≡ ciphertext_of p key iv pt

token_of-Parts :
    (p : Primitives) (key iv pt : List ℕ)
    → IsCipher p
    → length iv ≡ 16
    → Parts p key iv pt (token_of p key iv pt)
token_of-Parts p key iv pt v hi =
    let ct : List ℕ = ciphertext_of p key iv pt in
    let tag : List ℕ = tag_of p key iv pt in
    let whole : token_of p key iv pt ≡ (iv ++ ct) ++ tag = sym (append_assoc iv ct tag) in
    let split : ℕ = length (token_of p key iv pt) - 32 in
    let front : length (iv ++ ct) ≡ split = omega (
      arith,
      length-append iv ct,
      length-append iv (ct ++ tag),
      length-append ct tag,
      v.length-hmac (take 32 key) (iv ++ ct),
    ) in
    let signed : take split (token_of p key iv pt) ≡ iv ++ ct =
      ap (take split) whole ∙ take-append split (iv ++ ct) tag front in
    record {
      signed = signed;
      signature = ap (drop split) whole ∙ drop-append split (iv ++ ct) tag front;
      vector = take-append 16 iv (ct ++ tag) hi;
      sealed = ap (drop 16) signed ∙ drop-append 16 iv ct hi;
    }

is_authentic-token_of :
    (p : Primitives) (key iv pt : List ℕ)
    → IsCipher p
    → length iv ≡ 16
    → is_authentic p key (token_of p key iv pt) ≡ true
unfolding is_authentic
is_authentic-token_of p key iv pt v hi =
    let q = token_of-Parts p key iv pt v hi in
    rw (q.signed, q.signature) (bytes_eq_refl (tag_of p key iv pt))

decrypted :
    (p : Primitives) (key iv pt : List ℕ)
    → IsCipher p
    → length iv ≡ 16
    → p.aes_decrypt
        (drop 32 key)
        (take 16 (token_of p key iv pt))
        (drop 16 (take (length (token_of p key iv pt) - 32) (token_of p key iv pt)))
      ≡ pt ++ padding pt
decrypted p key iv pt v hi =
    let q = token_of-Parts p key iv pt v hi in
    ap₂ (p.aes_decrypt (drop 32 key)) q.vector q.sealed
    ∙ v.aes_decrypt-aes_encrypt (drop 32 key) iv (pt ++ padding pt) (whole_blocks pt)

-- A token opens in place: the plaintext stands behind the IV, and its length is reported.
pub token_decrypt_in_place-token_of :
    (p : Primitives) (key iv pt : List ℕ)
    → IsCipher p
    → length iv ≡ 16
    → token_decrypt_in_place p key (token_of p key iv pt)
      ≡ (iv ++ ((pt ++ padding pt) ++ tag_of p key iv pt), ok (length pt))
unfolding token_decrypt_in_place
token_decrypt_in_place-token_of p key iv pt v hi =
    let token : List ℕ = token_of p key iv pt in
    let ct : List ℕ = ciphertext_of p key iv pt in
    let tag : List ℕ = tag_of p key iv pt in
    let padded : List ℕ = pt ++ padding pt in
    let size = length-token_of p key iv pt v hi in
    let blocks = length_padded pt in
    let enough : ltb (length token) 64 ≡ false = rw size (ground arith) in
    let aligned : ((length token - 32 - 16) % 16 == 0) ≡ true = rw size (ground arith) in
    let opened : copy_from_slice token 16 padded ≡ iv ++ (padded ++ tag) =
      copy_from_slice-append 16 iv ct padded tag hi
        (omega (arith, length-ciphertext_of p key iv pt v, blocks)) in
    let front : length (iv ++ padded) ≡ length token - 32 =
      omega (arith, length-append iv padded, size, blocks) in
    let kept : drop 16 (take (length token - 32) (iv ++ (padded ++ tag))) ≡ padded =
      ap (λ z. drop 16 (take (length token - 32) z)) (sym (append_assoc iv padded tag))
      ∙ ap (drop 16) (take-append (length token - 32) (iv ++ padded) tag front)
      ∙ drop-append 16 iv padded hi in
    rw
      (
        enough,
        is_authentic-token_of p key iv pt v hi,
        aligned,
        decrypted p key iv pt v hi,
        opened,
        kept,
        pkcs7_unpad-padding pt,
      )
      refl

all_equal_sound : (pad : ℕ) (xs : List ℕ) → all_equal pad xs ≡ true → xs ≡ replicate (length xs) pad
unfolding all_equal
all_equal_sound pad [] h = refl
all_equal_sound pad (x ∷ xs) h =
    let here : x ≡ pad = ground arith in
    let rest : all_equal pad xs ≡ true = ground arith in
    ap₂ (◌∷◌) here (all_equal_sound pad xs rest)

-- What `pkcs7_unpad` returns is followed by its padding.
pub record IsPadded (bytes plaintext : List ℕ) : Type 0 where
  pub pad : ℕ
  pub some_pad : 0 < pad
  pub one_block : pad ≤ 16
  pub whole : bytes ≡ plaintext ++ replicate pad pad

abbrev pub Unpadded : List ℕ → Result CryptoError (List ℕ) → Type 0
Unpadded bytes (err e) = Unit
Unpadded bytes (ok plaintext) = IsPadded bytes plaintext

pub pkcs7_unpad-Unpadded : (bytes : List ℕ) → Unpadded bytes (pkcs7_unpad bytes)
unfolding pkcs7_unpad
pkcs7_unpad-Unpadded bytes =
    let n : ℕ = length bytes in
    let pad : ℕ = get_or bytes (n - 1) 0 in
    elim (Bool-cases (n == 0)) [
      | inl t ↦ rw t tt
      | inr a ↦ elim (Bool-cases (pad == 0 || (ltb 16 pad || ltb n pad))) [
        | inl t ↦ rw (a, t) tt
        | inr b ↦ elim (Bool-cases (all_equal pad (drop (n - pad) bytes))) [
          | inr f ↦ rw (a, b, f) tt
          | inl t ↦
              let fits : pad ≤ n = ground arith in
              let size : length (drop (n - pad) bytes) ≡ pad =
                omega (arith, length-drop (n - pad) bytes) in
              let tail : drop (n - pad) bytes ≡ replicate pad pad =
                all_equal_sound pad (drop (n - pad) bytes) t ∙ ap (λ k. replicate k pad) size in
              rw (a, b, t)
                record {
                  pad = pad;
                  some_pad = ground arith;
                  one_block = ground arith;
                  whole =
                      sym (take-append-drop (n - pad) bytes)
                      ∙ ap (λ ys. take (n - pad) bytes ++ ys) tail;
                }
        ]
      ]
    ]

-- Decryption by copy writes the plaintext at the front of the output.
pub token_decrypt-token_of :
    (p : Primitives) (pad_max : ℕ) (key iv pt out : List ℕ)
    → IsCipher p
    → length iv ≡ 16
    → length pt + pad_of (length pt) ≤ pad_max
    → length pt ≤ length out
    → token_decrypt p pad_max (token_of p key iv pt) key out
      ≡ (copy_from_slice out 0 pt, ok (length pt))
unfolding token_decrypt
token_decrypt-token_of p pad_max key iv pt out v hi hp ho =
    let token : List ℕ = token_of p key iv pt in
    let ct : List ℕ = ciphertext_of p key iv pt in
    let size = length-token_of p key iv pt v hi in
    let enough : ltb (length token) 64 ≡ false = rw size (ground arith) in
    let q = token_of-Parts p key iv pt v hi in
    let n : length (drop 16 (take (length token - 32) token)) ≡ length pt + pad_of (length pt) =
      ap length q.sealed ∙ length-ciphertext_of p key iv pt v in
    let m : ℕ = length pt + pad_of (length pt) in
    let some_blocks : (m == 0 || (not (m % 16 == 0) || ltb pad_max m)) ≡ false = ground arith in
    let room : ltb (length out) (length pt) ≡ false = ground arith in
    rw
      (
        enough,
        is_authentic-token_of p key iv pt v hi,
        n,
        some_blocks,
        decrypted p key iv pt v hi,
        pkcs7_unpad-padding pt,
        room,
      )
      refl
