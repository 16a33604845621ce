-- ===== src/Tests/StandIn.antt =====
-- Concrete functions for the cryptographic primitives that src/crypto.rs and src/link.rs call.
use rs_reticulum_lite.Prelude.{refl, true, replicate}
use rs_reticulum_lite.Crypto.{Primitives}
use rs_reticulum_lite.Crypto.Token.Form.{IsCipher}
use rs_reticulum_lite.Crypto.Ecies.Laws.{IsAgreement}
use rs_reticulum_lite.Link.{Signatures, LocalIdentity}
use rs_reticulum_lite.Link.Laws.{IsSigner}

-- A cipher that changes nothing, a constant tag and a constant key agreement.
abbrev pub stand_in : Primitives
stand_in = record {
  aes_encrypt = λ key iv bytes. bytes;
  aes_decrypt = λ key iv bytes. bytes;
  hmac = λ key bytes. replicate 32 7;
  hkdf = λ salt shared. replicate 64 5;
  x25519_public = λ private. replicate 32 9;
  diffie_hellman = λ private public. replicate 32 1;
}

pub stand_in-IsCipher : IsCipher stand_in
stand_in-IsCipher = record {
  length-aes_encrypt = λ key iv bytes h. refl;
  aes_decrypt-aes_encrypt = λ key iv bytes h. refl;
  length-hmac = λ key bytes. refl;
}

pub stand_in-IsAgreement : IsAgreement stand_in
stand_in-IsAgreement = record {
  diffie_hellman_comm = λ a b. refl;
  length-x25519_public = λ a. refl;
}

-- Every signature is the same, and valid.
abbrev pub stand_in_signatures : Signatures
stand_in_signatures = record {
  ed25519_public = λ seed. replicate 32 4;
  sign = λ seed message. replicate 64 6;
  verify = λ key message signature. true;
}

abbrev pub stand_in_identity : LocalIdentity
stand_in_identity = record { public_key = replicate 64 2; seed = replicate 32 3 }

pub stand_in-IsSigner : IsSigner stand_in_signatures stand_in_identity
stand_in-IsSigner = record { length-sign = λ bytes. refl; verify-sign = λ bytes. refl }
