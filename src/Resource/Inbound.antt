-- ===== src/Resource/Inbound.antt =====
-- The receiver of src/resource.rs. What a method returns stands next to the resource it leaves.
pub mod Admission
pub mod Step
pub mod Receive
pub mod Slots
pub mod Run
use rs_reticulum_lite.Prelude.{
  ℕ, zero, suc, ◌+◌, ◌-◌, ◌*◌, min, Option, none, some, List, [], ◌∷◌, ◌++◌, Bool, true, false, not,
  ◌&&◌, ◌||◌, if◌then◌else◌, ◌==◌, ltb, leb, length, take, drop, replicate, get_or, set,
}
use rs_reticulum_lite.Prelude.Words.{div_ceil}
use rs_reticulum_lite.Prelude.Bytes.{bytes_eq}
use rs_reticulum_lite.Prelude.Result.{Result, ok, err, ◌>>=◌, first_error}
use rs_reticulum_lite.PacketBuffer.{copy_from_slice}
use rs_reticulum_lite.Crypto.{Primitives, CryptoError, token_overhead}
use rs_reticulum_lite.Crypto.Token.{token_decrypt_in_place}
use rs_reticulum_lite.Resource.{
  ResourceError, too_large, invalid_advertisement, compressed_unsupported, metadata_unsupported,
  split_unsupported, request_response_unsupported, encryption_required, incomplete, hash_mismatch,
  corrupt, invalid_state, output_too_small, crypto, maphash_len, random_hash_size, sdu, max_parts,
  transfer_max, data_max, token_len, slice, get_map_hash, compute_resource_hash,
  compute_expected_proof,
}
use rs_reticulum_lite.Resource.Adv.{ResourceAdv}
use rs_reticulum_lite.Resource.Window
use rs_reticulum_lite.Resource.Window.{WindowState}
use rs_reticulum_lite.Resource.Request.{hashmap_is_not_exhausted}

-- `corrupted` is `Corrupt`, whose name an error has.
pub data InboundState : Type 0 where
  transferring assembled corrupted : InboundState

pub record InboundResource : Type 0 where
  pub buf : List ℕ
  pub resource_hash : List ℕ
  pub random_hash : List ℕ
  pub proof : List ℕ
  pub transfer_size : ℕ
  pub data_size : ℕ
  pub data_len : ℕ
  pub num_parts : ℕ
  pub consecutive_completed : ℕ
  pub received : List Bool
  pub map_hashes : List (List ℕ)
  pub state : InboundState
  pub window : WindowState

abbrev pub is_transferring : InboundState → Bool
is_transferring transferring = true
is_transferring assembled = false
is_transferring corrupted = false

abbrev pub is_assembled : InboundState → Bool
is_assembled transferring = false
is_assembled assembled = true
is_assembled corrupted = false

-- The purpose that the constructor expects.
unfoldable pub purpose_valid : ResourceAdv → Option (List ℕ) → Bool
purpose_valid adv none =
    not adv.flags.is_request && (not adv.flags.is_response && adv.request_id_len == 0)
purpose_valid adv (some id) =
    not adv.flags.is_request
    && (adv.flags.is_response && (adv.request_id_len == 16 && bytes_eq (take 16 adv.request_id) id))

-- The first `n` map hashes from the `i`-th on.
unfoldable pub read_hashes : List ℕ → ℕ → ℕ → List (List ℕ)
read_hashes hashmap i zero = []
read_hashes hashmap i (suc n) =
    slice hashmap (i * maphash_len) ((i + 1) * maphash_len) ∷ read_hashes hashmap (i + 1) n

-- The checks of `validate_adv`, in their order, with the error of each.
abbrev pub admission_checks : ResourceAdv → Option (List ℕ) → List (Bool × ResourceError)
admission_checks adv expected =
    let num_parts : ℕ = div_ceil adv.transfer_size sdu in
    (adv.flags.compressed, compressed_unsupported)
    ∷ (adv.flags.has_metadata, metadata_unsupported)
    ∷ (
      adv.flags.split || (not (adv.total_segments == 1) || not (adv.segment_index == 1)),
      split_unsupported,
    )
    ∷ (not (purpose_valid adv expected), request_response_unsupported)
    ∷ (not adv.flags.encrypted, encryption_required)
    ∷ (ltb transfer_max adv.transfer_size || ltb data_max adv.data_size, too_large)
    ∷ (ltb adv.transfer_size (token_overhead + 16), invalid_advertisement)
    ∷ (
      not (token_len (random_hash_size + adv.data_size) == adv.transfer_size),
      invalid_advertisement,
    )
    ∷ (not (adv.num_parts == num_parts), invalid_advertisement)
    ∷ (not (adv.hashmap_len == num_parts * maphash_len), invalid_advertisement)
    ∷ []

unfoldable pub validate_adv :
    ResourceAdv → Option (List ℕ) → Result ResourceError (List (List ℕ) × ℕ)
validate_adv adv expected =
    let num_parts : ℕ = div_ceil adv.transfer_size sdu in
    let hashes : List (List ℕ) =
      read_hashes adv.hashmap 0 num_parts
      ++ replicate (max_parts - num_parts) (replicate maphash_len 0) in
    first_error (admission_checks adv expected) >>= λ _. ok (hashes, num_parts)

-- The receiver of a validated advertisement, in a buffer of zeros.
abbrev pub fresh : ResourceAdv → List ℕ → List (List ℕ) → ℕ → InboundResource
fresh adv buf map_hashes num_parts = record {
  buf = buf;
  resource_hash = adv.resource_hash;
  random_hash = adv.random_hash;
  proof = replicate 32 0;
  transfer_size = adv.transfer_size;
  data_size = adv.data_size;
  data_len = 0;
  num_parts = num_parts;
  consecutive_completed = 0;
  received = replicate max_parts false;
  map_hashes = map_hashes;
  state = transferring;
  window = Window.new;
}

abbrev pub accepted :
    InboundResource
    → ResourceAdv
    → Result ResourceError (List (List ℕ) × ℕ)
    → InboundResource × Result ResourceError (Unit {0})
accepted r adv (err e) = (r, err e)
accepted r adv (ok (hashes, n)) = (fresh adv (replicate (length r.buf) 0) hashes n, ok tt)

unfoldable pub accept_into :
    InboundResource
    → ResourceAdv
    → Option (List ℕ)
    → InboundResource × Result ResourceError (Unit {0})
accept_into r adv expected = accepted r adv (validate_adv adv expected)

unfoldable pub from_advertisement_into :
    InboundResource → ResourceAdv → InboundResource × Result ResourceError (Unit {0})
from_advertisement_into r adv = accept_into r adv none

unfoldable pub from_response_into :
    InboundResource → ResourceAdv → List ℕ → InboundResource × Result ResourceError (Unit {0})
from_response_into r adv expected_request_id = accept_into r adv (some expected_request_id)

unfoldable pub from_advertisement : ResourceAdv → Result ResourceError InboundResource
from_advertisement adv =
    validate_adv adv none >>= λ (hashes, n). ok (fresh adv (replicate transfer_max 0) hashes n)

unfoldable pub expected_part_len : InboundResource → ℕ → ℕ
expected_part_len r i = if i + 1 == r.num_parts then r.transfer_size - i * sdu else sdu

abbrev pub window_end : InboundResource → ℕ
window_end r = min (r.consecutive_completed + r.window.window) r.num_parts

-- The `while` loop: `fuel` rounds from the index `c` on.
unfoldable pub advance : List Bool → ℕ → ℕ → ℕ → ℕ
advance received total zero c = c
advance received total (suc fuel) c =
    let rest = advance received total fuel (c + 1) in
    if ltb c total && get_or received c false then rest else c

-- The update of a slot that takes the part.
unfoldable pub fill_slot : InboundResource → List ℕ → ℕ → InboundResource
fill_slot r part i =
    let received : List Bool = set r.received i true in
    record r {
      buf = copy_from_slice r.buf (i * sdu) part;
      received = received;
      consecutive_completed = advance received r.num_parts r.num_parts r.consecutive_completed;
    }

unfoldable pub is_complete : InboundResource → Bool
is_complete r = r.consecutive_completed == r.num_parts

-- The indices of the missing slots among `n` from `i` on, at most `room` of them; a loop that
-- counts up to `window` and breaks finds `window` of them at least once.
unfoldable pub missing_from : List Bool → ℕ → ℕ → ℕ → List ℕ
missing_from received i zero room = []
missing_from received i (suc n) room =
    let here = missing_from received (i + 1) n (room - 1) in
    let later = missing_from received (i + 1) n room in
    if get_or received i false then later else if leb room 1 then i ∷ [] else i ∷ here

abbrev pub missing_in_window : InboundResource → List ℕ
missing_in_window r =
    missing_from r.received r.consecutive_completed (window_end r - r.consecutive_completed)
      r.window.window

-- The loop that copies the hashes of the slots to `out` from `pos` on.
unfoldable pub write_hashes : List (List ℕ) → List ℕ → ℕ → List ℕ → List ℕ × ℕ
write_hashes map_hashes [] pos out = (out, pos)
write_hashes map_hashes (i ∷ is) pos out =
    write_hashes map_hashes is (pos + maphash_len)
      (copy_from_slice out pos (get_or map_hashes i []))

unfoldable pub build_part_request : InboundResource → List ℕ → Result ResourceError (List ℕ × ℕ)
build_part_request r out =
    let missing : List ℕ = missing_in_window r in
    let head : List ℕ =
      copy_from_slice (copy_from_slice out 0 (hashmap_is_not_exhausted ∷ [])) 1 r.resource_hash in
    if not (is_transferring r.state) || is_complete r
    then err invalid_state
    else if ltb (length out) (1 + 32 + length missing * maphash_len)
    then err output_too_small
    else ok (write_hashes r.map_hashes missing 33 head)

abbrev pub payload : InboundResource → List ℕ
payload r = slice r.buf (16 + random_hash_size) (16 + random_hash_size + r.data_len)

unfoldable pub data_of : InboundResource → Option (List ℕ)
data_of r = if is_assembled r.state then some (payload r) else none

unfoldable pub build_proof : InboundResource → List ℕ → Result ResourceError (List ℕ × ℕ)
build_proof r out =
    if not (is_assembled r.state)
    then err invalid_state
    else if ltb (length out) 64
    then err output_too_small
    else ok (copy_from_slice (copy_from_slice out 0 r.resource_hash) 32 r.proof, 64)

module _ (sha256 : List ℕ → List ℕ) where
  -- The test of a slot, next to the one for the window.
  unfoldable pub fits_slot : InboundResource → List ℕ → ℕ → Bool
  fits_slot r part i =
      bytes_eq (get_or r.map_hashes i []) (get_map_hash sha256 part r.random_hash)
      && length part == expected_part_len r i

  unfoldable pub any_slot : InboundResource → List ℕ → ℕ → Bool
  any_slot r part zero = false
  any_slot r part (suc i) =
      ((get_or r.received i false || (leb r.consecutive_completed i && ltb i (window_end r)))
        && fits_slot r part i)
      || any_slot r part i

  unfoldable pub matches_part : InboundResource → List ℕ → Bool
  matches_part r part =
      (is_transferring r.state || is_assembled r.state) && any_slot r part r.num_parts

  -- The first slot among `n` from `i` on that takes the part.
  unfoldable pub find_slot : InboundResource → List ℕ → ℕ → ℕ → Option ℕ
  find_slot r part i zero = none
  find_slot r part i (suc n) =
      let rest = find_slot r part (i + 1) n in
      if not (get_or r.received i false) && fits_slot r part i then some i else rest

  abbrev pub filled : InboundResource → List ℕ → Option ℕ → InboundResource × Bool
  filled r part none = (r, false)
  filled r part (some i) = (fill_slot r part i, true)

  unfoldable pub receive_part : InboundResource → List ℕ → InboundResource × Bool
  receive_part r part =
      if is_transferring r.state
      then filled r part
          (find_slot r part r.consecutive_completed (window_end r - r.consecutive_completed))
      else (r, false)

  -- The end of `assemble`, on what the decryption leaves of the ciphertext.
  abbrev pub opened :
      InboundResource → List ℕ × Result CryptoError ℕ → InboundResource × Result ResourceError ℕ
  opened r (token, err e) =
      let failed : InboundResource = record r {
        buf = token ++ drop r.transfer_size r.buf;
        state = corrupted;
      } in
      (failed, err (crypto e))
  opened r (token, ok n) =
      let buf : List ℕ = token ++ drop r.transfer_size r.buf in
      let failed : InboundResource = record r { buf = buf; state = corrupted } in
      let bytes : List ℕ =
        slice buf (16 + random_hash_size) (16 + random_hash_size + (n - random_hash_size)) in
      let done : InboundResource = record failed {
        proof = compute_expected_proof sha256 bytes r.resource_hash;
        data_len = n - random_hash_size;
        state = assembled;
      } in
      if ltb n random_hash_size
      then (failed, err corrupt)
      else if not (bytes_eq (compute_resource_hash sha256 bytes r.random_hash) r.resource_hash)
      then (failed, err hash_mismatch)
      else (done, ok (n - random_hash_size))

  module _ (p : Primitives) where
    unfoldable pub assemble : InboundResource → List ℕ → InboundResource × Result ResourceError ℕ
    assemble r key =
        if not (is_transferring r.state)
        then (r, err invalid_state)
        else if not (is_complete r)
        then (r, err incomplete)
        else opened r (token_decrypt_in_place p key (take r.transfer_size r.buf))
