-- ===== src/Resource.antt =====
-- src/resource.rs: the constants, the errors and the hashes of a transfer. SHA-256 is a parameter.
pub mod Flags
pub mod Codec
pub mod Adv
pub mod Request
pub mod Window
pub mod Outbound
pub mod Inbound
pub mod Delivery
pub mod Watchdog
use rs_reticulum_lite.Prelude.{ℕ, ◌+◌, ◌-◌, ◌*◌, ◌/◌, List, ◌++◌, if◌then◌else◌, ltb, take, drop}
use rs_reticulum_lite.Prelude.Words.{saturating_sub}
use rs_reticulum_lite.Crypto.{CryptoError}

abbrev pub maphash_len : ℕ
maphash_len = 4

abbrev pub random_hash_size : ℕ
random_hash_size = 4

abbrev pub adv_overhead : ℕ
adv_overhead = 134

abbrev pub request_id_max : ℕ
request_id_max = 32

unfoldable pub resource_sdu : ℕ → ℕ
resource_sdu mtu = saturating_sub mtu (35 + 1)

abbrev pub sdu : ℕ
sdu = 464

unfoldable pub hashmap_max_len : ℕ → ℕ
hashmap_max_len mdu = if ltb adv_overhead mdu then (mdu - adv_overhead) / maphash_len else 0

abbrev pub max_parts : ℕ
max_parts = 8

abbrev pub transfer_max : ℕ
transfer_max = 3712

abbrev pub data_max : ℕ
data_max = 3659

unfoldable pub token_len : ℕ → ℕ
token_len pt_len = 16 + (pt_len / 16 + 1) * 16 + 32

pub data ResourceError : Type 0 where
  too_large invalid_advertisement compressed_unsupported split_unsupported : ResourceError
  metadata_unsupported request_response_unsupported encryption_required : ResourceError
  map_hash_collision invalid_request incomplete hash_mismatch corrupt : ResourceError
  invalid_state output_too_small : ResourceError
  crypto : CryptoError → ResourceError

-- `xs[from..to]`
abbrev pub slice {ℓ} : {A : Type ℓ} → List A → ℕ → ℕ → List A
slice xs from to = take (to - from) (drop from xs)

module _ (sha256 : List ℕ → List ℕ) where
  unfoldable pub hash_pair : List ℕ → List ℕ → List ℕ
  hash_pair a b = sha256 (a ++ b)

  unfoldable pub get_map_hash : List ℕ → List ℕ → List ℕ
  unfolding hash_pair
  get_map_hash part random_hash = take maphash_len (hash_pair part random_hash)

  unfoldable pub compute_resource_hash : List ℕ → List ℕ → List ℕ
  unfolding hash_pair
  compute_resource_hash bytes random_hash = hash_pair bytes random_hash

  unfoldable pub compute_expected_proof : List ℕ → List ℕ → List ℕ
  unfolding hash_pair
  compute_expected_proof bytes resource_hash = hash_pair bytes resource_hash
