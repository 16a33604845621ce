-- ===== src/Crypto/Ecies.antt =====
-- The ECIES layer of src/crypto.rs: an ephemeral public key in front of a Token.
pub mod Laws
use rs_reticulum_lite.Prelude.{
  ℕ, ◌+◌, ◌-◌, ◌%◌, Option, none, some, List, [], ◌∷◌, not, ◌||◌, if◌then◌else◌, ◌==◌, ltb, length,
  get_elem?, take, drop, ◌++◌,
}
use rs_reticulum_lite.Prelude.Words.{u64_max}
use rs_reticulum_lite.Prelude.Result.{Result, ok, err}
use rs_reticulum_lite.PacketBuffer.{copy_from_slice}
use rs_reticulum_lite.Crypto.{
  Primitives, CryptoError, plaintext_too_long, output_too_small, authentication_failed,
  token_overhead,
}
use rs_reticulum_lite.Crypto.Token.{
  token_encrypt, token_decrypt, token_encrypt_in_place, token_decrypt_in_place,
}

abbrev pub ecies_fixed_overhead : ℕ
ecies_fixed_overhead = 32 + token_overhead

abbrev pub max_ecies_plaintext : ℕ
max_ecies_plaintext = 383

abbrev pub padded_max : ℕ
padded_max = max_ecies_plaintext + 1

unfoldable pub ecies_ciphertext_len : ℕ → Result CryptoError ℕ
ecies_ciphertext_len n =
    let padded : ℕ = n + (16 - n % 16) in
    if ltb u64_max padded || ltb u64_max (padded + ecies_fixed_overhead)
    then err plaintext_too_long
    else ok (padded + ecies_fixed_overhead)

-- The results of a call on `out[32..]`, whose first 32 bytes are `front`.
abbrev pub behind_key : List ℕ → List ℕ × Result CryptoError ℕ → List ℕ × Result CryptoError ℕ
behind_key front (rest, ok n) = (front ++ rest, ok (32 + n))
behind_key front (rest, err e) = (front ++ rest, err e)

-- The same for a call that reports a length of plaintext.
abbrev pub behind_front : List ℕ → List ℕ × Result CryptoError ℕ → List ℕ × Result CryptoError ℕ
behind_front front (rest, r) = (front ++ rest, r)

-- `map(|len| (len, hint))`
abbrev pub with_hint :
    Option ℕ → List ℕ × Result CryptoError ℕ → List ℕ × Result CryptoError (ℕ × Option ℕ)
with_hint hint (o, ok n) = (o, ok (n, hint))
with_hint hint (o, err e) = (o, err e)

-- A success at `index`, or what the rest of the scan gives.
abbrev pub first_of :
    ℕ
    → List ℕ × Result CryptoError ℕ
    → List ℕ × Result CryptoError (ℕ × Option ℕ)
    → List ℕ × Result CryptoError (ℕ × Option ℕ)
first_of index (o, ok n) rest = (o, ok (n, some index))
first_of index (o, err e) rest = rest

module _ (p : Primitives) where
  unfoldable pub derive_token_key : List ℕ → List ℕ → List ℕ
  derive_token_key shared salt = p.hkdf salt shared

  -- The key that one side derives from its private key and the other's public one.
  abbrev pub session_key : List ℕ → List ℕ → List ℕ → List ℕ
  session_key private public identity_hash =
      derive_token_key (p.diffie_hellman private public) identity_hash

  unfoldable pub ecies_encrypt :
      List ℕ → List ℕ → List ℕ → List ℕ → List ℕ → List ℕ → List ℕ × Result CryptoError ℕ
  ecies_encrypt plaintext target_pub identity_hash ephemeral_priv iv out =
      if ltb max_ecies_plaintext (length plaintext)
      then (out, err plaintext_too_long)
      else if ltb (length out) 32
      then (out, err output_too_small)
      else behind_key (p.x25519_public ephemeral_priv) (
          token_encrypt p padded_max plaintext (session_key ephemeral_priv target_pub identity_hash)
            iv (drop 32 out))

  unfoldable pub ecies_decrypt : List ℕ → List ℕ → List ℕ → List ℕ → List ℕ × Result CryptoError ℕ
  ecies_decrypt blob my_priv identity_hash out =
      if ltb (length blob) 96
      then (out, err authentication_failed)
      else token_decrypt p padded_max (drop 32 blob)
          (session_key my_priv (take 32 blob) identity_hash) out

  abbrev pub encrypt_in_place_sized :
      List ℕ
      → List ℕ
      → List ℕ
      → List ℕ
      → List ℕ
      → ℕ
      → Result CryptoError ℕ
      → List ℕ × Result CryptoError ℕ
  encrypt_in_place_sized target_pub identity_hash ephemeral_priv iv buf n (err e) = (buf, err e)
  encrypt_in_place_sized target_pub identity_hash ephemeral_priv iv buf n (ok total) =
      let token : List ℕ × Result CryptoError ℕ =
        token_encrypt_in_place p (session_key ephemeral_priv target_pub identity_hash) iv
          (drop 32 (take total buf)) n in
      if ltb (length buf) total
      then (buf, err output_too_small)
      else behind_key (p.x25519_public ephemeral_priv) (token.0 ++ drop total buf, token.1)

  unfoldable pub ecies_encrypt_in_place :
      List ℕ → List ℕ → List ℕ → List ℕ → List ℕ → ℕ → List ℕ × Result CryptoError ℕ
  ecies_encrypt_in_place target_pub identity_hash ephemeral_priv iv buf n =
      encrypt_in_place_sized target_pub identity_hash ephemeral_priv iv buf n
        (ecies_ciphertext_len n)

  unfoldable pub ecies_decrypt_in_place : List ℕ → List ℕ → List ℕ → List ℕ × Result CryptoError ℕ
  ecies_decrypt_in_place my_priv identity_hash buf =
      if ltb (length buf) (ecies_fixed_overhead + 16)
        || not ((length buf - ecies_fixed_overhead) % 16 == 0)
      then (buf, err authentication_failed)
      else behind_front (take 32 buf)
          (token_decrypt_in_place p (session_key my_priv (take 32 buf) identity_hash) (drop 32 buf))

  -- The loop over the ratchets from `index` on, and the base key behind it. A failed attempt leaves
  -- its buffer to the next one.
  unfoldable pub try_ratchets :
      List ℕ
      → List (List ℕ)
      → List ℕ
      → List ℕ
      → ℕ
      → List ℕ
      → List ℕ × Result CryptoError (ℕ × Option ℕ)
  try_ratchets blob [] my_priv identity_hash index out =
      with_hint none (ecies_decrypt blob my_priv identity_hash out)
  try_ratchets blob (r ∷ rs) my_priv identity_hash index out =
      let attempt = ecies_decrypt blob r identity_hash out in
      let rest = try_ratchets blob rs my_priv identity_hash (index + 1) attempt.0 in
      first_of index attempt rest

  unfoldable pub ecies_decrypt_with_ratchets :
      List ℕ → List (List ℕ) → List ℕ → List ℕ → List ℕ → List ℕ × Result CryptoError (ℕ × Option ℕ)
  ecies_decrypt_with_ratchets blob ratchets my_priv identity_hash out =
      try_ratchets blob ratchets my_priv identity_hash 0 out

  unfoldable pub ecies_decrypt_with_ratchet_hint :
      List ℕ → List (List ℕ) → List ℕ → List ℕ → Option ℕ → List ℕ → List ℕ × Result CryptoError ℕ
  ecies_decrypt_with_ratchet_hint blob ratchets my_priv identity_hash none out =
      ecies_decrypt blob my_priv identity_hash out
  ecies_decrypt_with_ratchet_hint blob ratchets my_priv identity_hash (some index) out =
      elim (get_elem? ratchets index) [
        | none ↦ (out, err authentication_failed)
        | some r ↦ ecies_decrypt blob r identity_hash out
      ]
