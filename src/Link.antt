-- ===== src/Link.antt =====
-- src/link.rs: signalling, link requests and proofs, identification, and the keys of a link. The
-- Ed25519 functions of the crate ed25519_dalek are the fields of `Signatures`.
pub mod Laws
pub mod Session
use Prim.Native.Nat.{bit_and, bit_or}
use rs_reticulum_lite.Prelude.{
  ℕ, ◌+◌, ◌-◌, ◌*◌, ◌/◌, ◌^◌, min, Option, none, some, List, [], ◌∷◌, ◌++◌, Bool, true, false, not,
  ◌&&◌, ◌||◌, if◌then◌else◌, ◌==◌, ltb, leb, length, take, drop, get_or,
}
use rs_reticulum_lite.Prelude.Bytes.{to_be_bytes}
use rs_reticulum_lite.Prelude.Result.{Result, ok, err, ◌>>=◌}
use rs_reticulum_lite.PacketBuffer.{copy_from_slice}
use rs_reticulum_lite.Wire.Hash.{truncated_hash}
use rs_reticulum_lite.Crypto.{Primitives, CryptoError, token_overhead}
use rs_reticulum_lite.Crypto.Token.{token_encrypt, token_decrypt}

-- `verify` is the parsing of the public key and the check of the signature: of a key, a message and
-- a signature.
pub record Signatures : Type 0 where
  pub ed25519_public : List ℕ → List ℕ
  pub sign : List ℕ → List ℕ → List ℕ
  pub verify : List ℕ → List ℕ → List ℕ → Bool

-- `LocalIdentity`, as far as links use it: the public key of 64 bytes and the signing seed.
pub record LocalIdentity : Type 0 where
  pub public_key : List ℕ
  pub seed : List ℕ

pub data LinkError : Type 0 where
  output_too_small invalid_length unsupported_mode invalid_mtu : LinkError

abbrev pub default_mtu : ℕ
default_mtu = 500

abbrev pub mtu_bytemask : ℕ
mtu_bytemask = 0x1fffff

abbrev pub mode_aes256_cbc : ℕ
mode_aes256_cbc = 1

abbrev pub link_request_len : ℕ
link_request_len = 67

abbrev pub link_proof_len : ℕ
link_proof_len = 99

abbrev pub link_padded_max : ℕ
link_padded_max = 464

unfoldable pub link_mdu : ℕ → ℕ
link_mdu mtu =
    let overhead : ℕ = 1 + 19 + token_overhead in
    let blocks : ℕ = (mtu - overhead) / 16 in
    if leb mtu overhead then 0 else if blocks == 0 then 0 else blocks * 16 - 1

pub record SignallingData : Type 0 where
  pub mode : ℕ
  pub mtu : ℕ

unfoldable pub signalling_new : ℕ → ℕ → SignallingData
signalling_new mode mtu = record { mode = bit_and mode 7; mtu = bit_and mtu mtu_bytemask }

unfoldable pub effective_mtu : SignallingData → Result LinkError ℕ
effective_mtu s =
    if s.mtu == 0
    then ok default_mtu
    else if leb 500 s.mtu && leb s.mtu mtu_bytemask
    then ok s.mtu
    else err invalid_mtu

unfoldable pub try_new : ℕ → ℕ → Result LinkError SignallingData
try_new mode mtu =
    let checked : SignallingData = record { mode = mode; mtu = mtu } in
    if ltb 7 mode
    then err unsupported_mode
    else effective_mtu checked >>= λ effective. ok (record { mode = mode; mtu = effective })

unfoldable pub fixed_endpoint : SignallingData → Result LinkError SignallingData
fixed_endpoint s =
    if not (s.mode == mode_aes256_cbc)
    then err unsupported_mode
    else try_new s.mode s.mtu >>= λ checked.
        if not (checked.mtu == default_mtu) then err invalid_mtu else ok checked

unfoldable pub default_signalling : SignallingData
default_signalling = signalling_new mode_aes256_cbc default_mtu

unfoldable pub pack_signalling : SignallingData → List ℕ
pack_signalling s =
    drop 1
      (to_be_bytes 4 (bit_or (bit_and s.mtu mtu_bytemask) (bit_and (s.mode * 2 ^ 5) 0xe0 * 2 ^ 16)))

unfoldable pub unpack_signalling : List ℕ → Option SignallingData
unpack_signalling bytes =
    let value : ℕ =
      bit_or (bit_or (get_or bytes 0 0 * 2 ^ 16) (get_or bytes 1 0 * 2 ^ 8)) (get_or bytes 2 0) in
    let s : SignallingData = record {
      mode = bit_and (value / 2 ^ 21) 7;
      mtu = bit_and value mtu_bytemask;
    } in
    if ltb (length bytes) 3 then none else some s

-- The signalling at the end of a request or proof, or the default.
abbrev pub signalling_of : Bool → List ℕ → SignallingData
signalling_of false bytes = default_signalling
signalling_of true bytes = elim (unpack_signalling bytes) [ none ↦ default_signalling | some s ↦ s ]

pub record LinkRequestView : Type 0 where
  pub peer_x25519_pub : List ℕ
  pub peer_ed25519_pub : List ℕ
  pub signalling : SignallingData

unfoldable pub parse_link_request : List ℕ → Result LinkError LinkRequestView
parse_link_request bytes =
    let s : SignallingData = signalling_of (length bytes == link_request_len) (drop 64 bytes) in
    let view : LinkRequestView = record {
      peer_x25519_pub = take 32 bytes;
      peer_ed25519_pub = take 32 (drop 32 bytes);
      signalling = s;
    } in
    if not (length bytes == 64) && not (length bytes == link_request_len)
    then err invalid_length
    else effective_mtu s >>= λ _. ok view

pub record LinkProofView : Type 0 where
  pub signature : List ℕ
  pub responder_x25519_pub : List ℕ
  pub signalling : SignallingData
  pub signalling_present : Bool

unfoldable pub parse_link_proof : List ℕ → Result LinkError LinkProofView
parse_link_proof bytes =
    let present : Bool = length bytes == link_proof_len in
    let s : SignallingData = signalling_of present (drop 96 bytes) in
    let view : LinkProofView = record {
      signature = take 64 bytes;
      responder_x25519_pub = take 32 (drop 64 bytes);
      signalling = s;
      signalling_present = present;
    } in
    if not (length bytes == 96) && not present
    then err invalid_length
    else effective_mtu s >>= λ _. ok view

-- What a link proof signs.
abbrev pub proof_signed : List ℕ → List ℕ → List ℕ → List ℕ → List ℕ
proof_signed link_id x25519_pub ed25519_pub signalling =
    link_id ++ (x25519_pub ++ (ed25519_pub ++ signalling))

module _ (sha256 : List ℕ → List ℕ) where
  unfoldable pub compute_link_id : List ℕ → List ℕ → List ℕ
  compute_link_id destination_hash request =
      truncated_hash sha256
        ((0x02 ∷ destination_hash) ++ (0x00 ∷ take (min (length request) 64) request))

module _ (g : Signatures) where
  -- The output with what was written, and the length.
  unfoldable pub build_identification :
      LocalIdentity → List ℕ → List ℕ → List ℕ × Result LinkError ℕ
  build_identification identity link_id out =
      let signature : List ℕ = g.sign identity.seed (link_id ++ identity.public_key) in
      if ltb (length out) 128
      then (out, err output_too_small)
      else (copy_from_slice (copy_from_slice out 0 identity.public_key) 64 signature, ok 128)

  unfoldable pub verify_identification : List ℕ → List ℕ → Option (List ℕ)
  verify_identification link_id plaintext =
      let public_key : List ℕ = take 64 plaintext in
      if not (length plaintext == 128)
      then none
      else if g.verify (drop 32 public_key) (link_id ++ public_key) (drop 64 plaintext)
      then some public_key
      else none

  unfoldable pub validate_link_proof : LinkProofView → List ℕ → List ℕ → Bool
  validate_link_proof v identity_public_key link_id =
      let ed_pub : List ℕ = drop 32 identity_public_key in
      let tail : List ℕ = if v.signalling_present then pack_signalling v.signalling else [] in
      elim (fixed_endpoint v.signalling) [
        | err e ↦ false
        | ok s ↦
            g.verify ed_pub (proof_signed link_id v.responder_x25519_pub ed_pub tail) v.signature
      ]

  module _ (p : Primitives) where
    unfoldable pub build_link_request :
        List ℕ → List ℕ → SignallingData → List ℕ → List ℕ × Result LinkError ℕ
    build_link_request x25519_priv ed25519_seed signalling out = elim (fixed_endpoint signalling) [
      | err e ↦ (out, err e)
      | ok s ↦
          let keys : List ℕ = p.x25519_public x25519_priv ++ g.ed25519_public ed25519_seed in
          if ltb (length out) link_request_len
          then (out, err output_too_small)
          else (copy_from_slice out 0 (keys ++ pack_signalling s), ok link_request_len)
    ]

    abbrev pub build_proof_signalled :
        LocalIdentity
        → List ℕ
        → List ℕ
        → List ℕ
        → Result LinkError SignallingData
        → List ℕ × Result LinkError ℕ
    build_proof_signalled identity x25519_priv link_id out (err e) = (out, err e)
    build_proof_signalled identity x25519_priv link_id out (ok s) =
        let x25519_pub : List ℕ = p.x25519_public x25519_priv in
        let bytes : List ℕ = pack_signalling s in
        let signature : List ℕ =
          g.sign identity.seed
            (proof_signed link_id x25519_pub (drop 32 identity.public_key) bytes) in
        if ltb (length out) link_proof_len
        then (out, err output_too_small)
        else (copy_from_slice out 0 (signature ++ (x25519_pub ++ bytes)), ok link_proof_len)

    unfoldable pub build_link_proof :
        LocalIdentity → List ℕ → List ℕ → SignallingData → List ℕ → List ℕ × Result LinkError ℕ
    build_link_proof identity x25519_priv link_id signalling out =
        build_proof_signalled identity x25519_priv link_id out (fixed_endpoint signalling)

module _ (p : Primitives) where
  -- `LinkKeys::derive`: the 64 bytes of the keys.
  unfoldable pub derive_link_keys : List ℕ → List ℕ → List ℕ → List ℕ
  derive_link_keys my_priv peer_pub link_id = p.hkdf link_id (p.diffie_hellman my_priv peer_pub)

  unfoldable pub link_encrypt : List ℕ → List ℕ → List ℕ → List ℕ → List ℕ × Result CryptoError ℕ
  link_encrypt keys plaintext iv out = token_encrypt p link_padded_max plaintext keys iv out

  unfoldable pub link_decrypt : List ℕ → List ℕ → List ℕ → List ℕ × Result CryptoError ℕ
  link_decrypt keys ciphertext out = token_decrypt p link_padded_max ciphertext keys out
