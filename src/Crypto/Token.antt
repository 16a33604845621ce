-- ===== src/Crypto/Token.antt =====
-- The Token of src/crypto.rs: PKCS7 padding, and encryption and decryption in place and by copy.
-- A buffer that a function writes is returned next to its result. The crates' constructors fail on
-- a key of a wrong length only, and the keys are arrays here, so that those errors do not occur.
pub mod Form
pub mod Write
pub mod Read
pub mod Laws
use rs_reticulum_lite.Prelude.{
  ℕ, ◌+◌, ◌-◌, ◌%◌, List, [], ◌∷◌, ◌++◌, Bool, true, not, ◌&&◌, ◌||◌, if◌then◌else◌, ◌==◌, ltb,
  length, get_or, take, drop, replicate,
}
use rs_reticulum_lite.Prelude.Words.{u64_max}
use rs_reticulum_lite.Prelude.Bytes.{bytes_eq}
use rs_reticulum_lite.Prelude.Result.{Result, ok, err}
use rs_reticulum_lite.PacketBuffer.{copy_from_slice}
use rs_reticulum_lite.Crypto.{
  Primitives, CryptoError, plaintext_too_long, output_too_small, authentication_failed,
  token_overhead,
}

abbrev pub pad_of : ℕ → ℕ
pad_of n = 16 - n % 16

unfoldable pub pkcs7_pad : List ℕ → List ℕ → List ℕ × Result CryptoError ℕ
pkcs7_pad plaintext out =
    let pad : ℕ = pad_of (length plaintext) in
    let total : ℕ = length plaintext + pad in
    if ltb (length out) total then (out, err output_too_small) else (
      copy_from_slice (copy_from_slice out 0 plaintext) (length plaintext) (replicate pad pad),
      ok total,
    )

-- The loop over the padding bytes.
unfoldable pub all_equal : ℕ → List ℕ → Bool
all_equal pad [] = true
all_equal pad (b ∷ bs) = b == pad && all_equal pad bs

unfoldable pub pkcs7_unpad : List ℕ → Result CryptoError (List ℕ)
pkcs7_unpad bytes =
    let pad : ℕ = get_or bytes (length bytes - 1) 0 in
    let start : ℕ = length bytes - pad in
    if length bytes == 0
    then err authentication_failed
    else if pad == 0 || (ltb 16 pad || ltb (length bytes) pad)
    then err authentication_failed
    else if not (all_equal pad (drop start bytes))
    then err authentication_failed
    else ok (take start bytes)

-- The ends of the two decryptions, on what `pkcs7_unpad` returns.
abbrev pub strip_in_place : List ℕ → ℕ → Result CryptoError (List ℕ) → List ℕ × Result CryptoError ℕ
strip_in_place buf split (ok pt) = (buf, ok (length pt))
strip_in_place buf split (err e) = (copy_from_slice buf 16 (replicate (split - 16) 0), err e)

abbrev pub strip_into : List ℕ → Result CryptoError (List ℕ) → List ℕ × Result CryptoError ℕ
strip_into out (err e) = (out, err e)
strip_into out (ok pt) =
    if ltb (length out) (length pt)
    then (out, err output_too_small)
    else (copy_from_slice out 0 pt, ok (length pt))

module _ (p : Primitives) where
  -- Encryption and tag, in a buffer filled with the IV and `padded` bytes of padded plaintext.
  abbrev pub seal_filled : List ℕ → List ℕ → ℕ → List ℕ → List ℕ
  seal_filled key iv padded filled =
      let sealed : List ℕ =
        copy_from_slice filled 16 (p.aes_encrypt (drop 32 key) iv (take padded (drop 16 filled))) in
      copy_from_slice sealed (16 + padded) (p.hmac (take 32 key) (take (16 + padded) sealed))

  -- What `token_encrypt_in_place` writes once the sizes fit; `padded` is the length of the padded
  -- plaintext.
  unfoldable pub write_token : List ℕ → List ℕ → List ℕ → ℕ → ℕ → List ℕ
  write_token key iv buf pt_len padded =
      let pad : ℕ = pad_of pt_len in
      seal_filled key iv padded
        (copy_from_slice (copy_from_slice buf 0 iv) (16 + pt_len) (replicate pad pad))

  -- The two `checked_add`, with a usize of 64 bits.
  unfoldable pub token_encrypt_in_place :
      List ℕ → List ℕ → List ℕ → ℕ → List ℕ × Result CryptoError ℕ
  token_encrypt_in_place key iv buf pt_len =
      let padded : ℕ = pt_len + pad_of pt_len in
      let total : ℕ = padded + token_overhead in
      if ltb u64_max padded || ltb u64_max total
      then (buf, err plaintext_too_long)
      else if ltb (length buf) total
      then (buf, err output_too_small)
      else (write_token key iv buf pt_len padded, ok total)

  -- `data[..split]` is what the tag at `data[split..]` signs.
  unfoldable pub is_authentic : List ℕ → List ℕ → Bool
  is_authentic key token =
      let split : ℕ = length token - 32 in
      bytes_eq (p.hmac (take 32 key) (take split token)) (drop split token)

  unfoldable pub token_decrypt_in_place : List ℕ → List ℕ → List ℕ × Result CryptoError ℕ
  token_decrypt_in_place key buf =
      let split : ℕ = length buf - 32 in
      let plain : List ℕ = p.aes_decrypt (drop 32 key) (take 16 buf) (drop 16 (take split buf)) in
      let opened : List ℕ = copy_from_slice buf 16 plain in
      if ltb (length buf) 64
      then (buf, err authentication_failed)
      else if not (is_authentic key buf)
      then (buf, err authentication_failed)
      else if not ((split - 16) % 16 == 0)
      then (buf, err authentication_failed)
      else strip_in_place opened split (pkcs7_unpad (drop 16 (take split opened)))

  -- `padded` is the stack array of PAD bytes.
  abbrev pub seal :
      List ℕ → List ℕ → List ℕ → List ℕ × Result CryptoError ℕ → List ℕ × Result CryptoError ℕ
  seal key iv out (padded, err e) = (out, err plaintext_too_long)
  seal key iv out (padded, ok plen) =
      if ltb (length out) (16 + plen + 32) then (out, err output_too_small) else (
        seal_filled key iv plen (copy_from_slice (copy_from_slice out 0 iv) 16 (take plen padded)),
        ok (16 + plen + 32),
      )

  unfoldable pub token_encrypt :
      ℕ → List ℕ → List ℕ → List ℕ → List ℕ → List ℕ × Result CryptoError ℕ
  token_encrypt pad_max plaintext key iv out =
      seal key iv out (pkcs7_pad plaintext (replicate pad_max 0))

  unfoldable pub token_decrypt : ℕ → List ℕ → List ℕ → List ℕ → List ℕ × Result CryptoError ℕ
  token_decrypt pad_max token key out =
      let ciphertext : List ℕ = drop 16 (take (length token - 32) token) in
      if ltb (length token) 64
      then (out, err authentication_failed)
      else if not (is_authentic key token)
      then (out, err authentication_failed)
      else if length ciphertext == 0
          || (not (length ciphertext % 16 == 0) || ltb pad_max (length ciphertext))
      then (out, err authentication_failed)
      else strip_into out (pkcs7_unpad (p.aes_decrypt (drop 32 key) (take 16 token) ciphertext))
