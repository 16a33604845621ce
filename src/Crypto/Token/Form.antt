-- ===== src/Crypto/Token/Form.antt =====
-- The Token that src/crypto.rs writes, described apart from the buffers.
use rs_reticulum_lite.Prelude.{
  ℕ, ◌+◌, ◌%◌, ◌≡◌, ◌∙◌, List, ◌++◌, arith, length, take, drop, replicate, length-append,
  length-replicate,
}
use rs_reticulum_lite.Crypto.{Primitives, token_overhead}
use rs_reticulum_lite.Crypto.Token.{pad_of}

-- What the code relies on: the cipher keeps the length of whole blocks and undoes itself, and a tag
-- has 32 bytes.
pub record IsCipher (p : Primitives) : Type 0 where
  pub length-aes_encrypt :
      (key iv bytes : List ℕ)
      → length bytes % 16 ≡ 0
      → length (p.aes_encrypt key iv bytes) ≡ length bytes
  pub aes_decrypt-aes_encrypt :
      (key iv bytes : List ℕ)
      → length bytes % 16 ≡ 0
      → p.aes_decrypt key iv (p.aes_encrypt key iv bytes) ≡ bytes
  pub length-hmac : (key bytes : List ℕ) → length (p.hmac key bytes) ≡ 32

abbrev pub padding : List ℕ → List ℕ
padding pt = replicate (pad_of (length pt)) (pad_of (length pt))

abbrev pub ciphertext_of : Primitives → List ℕ → List ℕ → List ℕ → List ℕ
ciphertext_of p key iv pt = p.aes_encrypt (drop 32 key) iv (pt ++ padding pt)

abbrev pub tag_of : Primitives → List ℕ → List ℕ → List ℕ → List ℕ
tag_of p key iv pt = p.hmac (take 32 key) (iv ++ ciphertext_of p key iv pt)

-- IV, ciphertext and tag.
abbrev pub token_of : Primitives → List ℕ → List ℕ → List ℕ → List ℕ
token_of p key iv pt = iv ++ (ciphertext_of p key iv pt ++ tag_of p key iv pt)

abbrev pub token_len : List ℕ → ℕ
token_len pt = length pt + pad_of (length pt) + token_overhead

pub length_padded : (pt : List ℕ) → length (pt ++ padding pt) ≡ length pt + pad_of (length pt)
length_padded pt = omega (
  arith,
  length-append pt (padding pt),
  length-replicate (pad_of (length pt)) (pad_of (length pt)),
)

pub whole_blocks : (pt : List ℕ) → length (pt ++ padding pt) % 16 ≡ 0
whole_blocks pt = omega (arith, length_padded pt)

pub length-ciphertext_of :
    (p : Primitives) (key iv pt : List ℕ)
    → IsCipher p
    → length (ciphertext_of p key iv pt) ≡ length pt + pad_of (length pt)
length-ciphertext_of p key iv pt c =
    c.length-aes_encrypt (drop 32 key) iv (pt ++ padding pt) (whole_blocks pt) ∙ length_padded pt

pub length-token_of :
    (p : Primitives) (key iv pt : List ℕ)
    → IsCipher p
    → length iv ≡ 16
    → length (token_of p key iv pt) ≡ token_len pt
length-token_of p key iv pt c h =
    let ct : List ℕ = ciphertext_of p key iv pt in
    let tag : List ℕ = tag_of p key iv pt in
    let size = length-ciphertext_of p key iv pt c in
    let signed = c.length-hmac (take 32 key) (iv ++ ct) in
    omega (arith, length-append iv (ct ++ tag), length-append ct tag, size, signed)
