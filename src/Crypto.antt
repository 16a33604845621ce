-- ===== src/Crypto.antt =====
-- src/crypto.rs: padding, Tokens and ECIES. The ciphers, the HMAC, HKDF and X25519 are third-party
-- crates: their functions are the fields of `Primitives`.
pub mod Token
pub mod Ecies
use rs_reticulum_lite.Prelude.{ℕ, List}

-- `aes_encrypt` and `aes_decrypt` are AES-256-CBC without padding, of a key, an IV and whole blocks;
-- `hkdf` derives 64 bytes from a salt and a shared secret with an empty info.
pub record Primitives : Type 0 where
  pub aes_encrypt : List ℕ → List ℕ → List ℕ → List ℕ
  pub aes_decrypt : List ℕ → List ℕ → List ℕ → List ℕ
  pub hmac : List ℕ → List ℕ → List ℕ
  pub hkdf : List ℕ → List ℕ → List ℕ
  pub x25519_public : List ℕ → List ℕ
  pub diffie_hellman : List ℕ → List ℕ → List ℕ

pub data CryptoError : Type 0 where
  plaintext_too_long output_too_small authentication_failed : CryptoError

abbrev pub token_overhead : ℕ
token_overhead = 48
