-- ===== src/Tests/Transfers.antt =====
-- Tokens and transfers of src/crypto.rs and src/resource.rs.
use rs_reticulum_lite.Prelude.{
  ℕ, ◌≡◌, refl, List, [], ◌∷◌, none, true, false, arith, take, drop, replicate,
}
use rs_reticulum_lite.Prelude.Result.{ok}
use rs_reticulum_lite.Tests.StandIn.{stand_in, stand_in-IsCipher, stand_in-IsAgreement}
use rs_reticulum_lite.Crypto.Token.{
  token_encrypt, token_decrypt, token_encrypt_in_place, token_decrypt_in_place,
}
use rs_reticulum_lite.Crypto.Token.Laws.{
  Opened, Guarded, token_decrypt_in_place-token_encrypt_in_place,
  token_encrypt-token_encrypt_in_place, token_decrypt-Guarded,
}
use rs_reticulum_lite.Crypto.Ecies.{ecies_encrypt, ecies_decrypt, ecies_decrypt_with_ratchets}
use rs_reticulum_lite.Crypto.Ecies.Laws.{
  Hinted, ecies_decrypt-ecies_encrypt, ecies_decrypt_with_ratchets-Hinted,
}
use rs_reticulum_lite.PacketBuffer.{copy_from_slice}
use rs_reticulum_lite.Resource.{token_len}
use rs_reticulum_lite.Resource.Adv.{ResourceAdv, default, no_flags, pack}
use rs_reticulum_lite.Resource.Adv.Encoding.{IsCanonical}
use rs_reticulum_lite.Resource.Adv.Laws.{Returned, parse-pack}
use rs_reticulum_lite.Resource.Window
use rs_reticulum_lite.Resource.Window.{WindowState, grow, shrink}
use rs_reticulum_lite.Resource.Window.Laws.{IsDriven, IsDriven-IsValid}
use rs_reticulum_lite.Resource.Outbound.{
  OutboundResource, zeroed, build, build_into, advertisement, has_map_hash_collision, collides,
  contains, hash_parts,
}
use rs_reticulum_lite.Resource.Inbound.{
  InboundResource, fresh, advance, accept_into, validate_adv, purpose_valid, assemble,
  from_advertisement, is_complete,
}
use rs_reticulum_lite.Resource.Inbound.Step.Advance.{Advanced, advance-Advanced}
use rs_reticulum_lite.Resource.Inbound.Run.{in_order}
use rs_reticulum_lite.Resource.Delivery.{IsHash}
use rs_reticulum_lite.Resource.Delivery.Transfer.{
  IsReceived, transfer, assemble-transfer, transfer_completes,
}
use rs_reticulum_lite.Resource.Watchdog
use rs_reticulum_lite.Resource.Watchdog.{max_adv_retries, deadline_ms}
use rs_reticulum_lite.Resource.Watchdog.Laws.{poll_all, resends, failures, poll_all-IsOverdue}

abbrev fixed_hash : List ℕ → List ℕ
fixed_hash bytes = replicate 32 3

fixed_hash-IsHash : IsHash fixed_hash
fixed_hash-IsHash = record { length-sha256 = λ bytes. refl }

abbrev key64 : List ℕ
key64 = replicate 64 2

abbrev iv16 : List ℕ
iv16 = replicate 16 4

token_decrypt_in_place-token_encrypt_in_place_example : Opened (take 5 (drop 16 (replicate 80 6))) (
    token_decrypt_in_place stand_in key64
      (take 64 (token_encrypt_in_place stand_in key64 iv16 (replicate 80 6) 5).0))
token_decrypt_in_place-token_encrypt_in_place_example =
    token_decrypt_in_place-token_encrypt_in_place stand_in key64 iv16 (replicate 80 6) 5
      stand_in-IsCipher refl (omega arith) (omega arith)

token_encrypt-token_encrypt_in_place_example :
    (take 64
        (token_encrypt stand_in 384
          (take 5 (drop 16 (replicate 80 6)))
          key64
          iv16
          (replicate 70 0)).0
      ≡ take 64 (token_encrypt_in_place stand_in key64 iv16 (replicate 80 6) 5).0)
    × ((token_encrypt stand_in 384
          (take 5 (drop 16 (replicate 80 6)))
          key64
          iv16
          (replicate 70 0)).1
        ≡ (token_encrypt_in_place stand_in key64 iv16 (replicate 80 6) 5).1)
token_encrypt-token_encrypt_in_place_example =
    token_encrypt-token_encrypt_in_place stand_in 384 key64 iv16 (replicate 80 6) (replicate 70 0) 5
      stand_in-IsCipher refl (omega arith) (omega arith) (omega arith) (omega arith)

token_decrypt-Guarded_example :
    Guarded stand_in
      (replicate 64 7)
      key64
      (replicate 20 0)
      (token_decrypt stand_in 384 (replicate 64 7) key64 (replicate 20 0))
token_decrypt-Guarded_example =
    token_decrypt-Guarded stand_in 384 (replicate 64 7) key64 (replicate 20 0)

ecies_decrypt-ecies_encrypt_example :
    ecies_decrypt stand_in
      (take 96
        (ecies_encrypt stand_in
          (1 ∷ 2 ∷ 3 ∷ [])
          (replicate 32 9)
          (replicate 16 8)
          (replicate 32 1)
          iv16
          (replicate 100 0)).0)
      (replicate 32 6)
      (replicate 16 8)
      (replicate 10 0)
    ≡ (copy_from_slice (replicate 10 0) 0 (1 ∷ 2 ∷ 3 ∷ []), ok 3)
ecies_decrypt-ecies_encrypt_example =
    ecies_decrypt-ecies_encrypt stand_in (1 ∷ 2 ∷ 3 ∷ []) (replicate 32 6) (replicate 16 8)
      (replicate 32 1) iv16 (replicate 100 0) (replicate 10 0) stand_in-IsCipher
      stand_in-IsAgreement refl (omega arith) (omega arith) (omega arith)

ecies_decrypt_with_ratchets-Hinted_example :
    Hinted stand_in
      (replicate 96 7)
      (replicate 32 1 ∷ [])
      (replicate 32 6)
      (replicate 16 8)
      (replicate 20 0)
      (ecies_decrypt_with_ratchets stand_in
        (replicate 96 7)
        (replicate 32 1 ∷ [])
        (replicate 32 6)
        (replicate 16 8)
        (replicate 20 0))
ecies_decrypt_with_ratchets-Hinted_example =
    ecies_decrypt_with_ratchets-Hinted stand_in (replicate 96 7) (replicate 32 1 ∷ [])
      (replicate 32 6) (replicate 16 8) (replicate 20 0)

default-IsCanonical : IsCanonical default
default-IsCanonical = record {
  transfer_size = omega arith;
  data_size = omega arith;
  num_parts = omega arith;
  segment_index = omega arith;
  total_segments = omega arith;
  resource_hash = refl;
  random_hash = refl;
  original_hash = refl;
  request_id_len = omega arith;
  length_request_id = refl;
  request_id = refl;
  hashmap_len = omega arith;
  whole_hashes = refl;
  length_hashmap = refl;
  hashmap = refl;
}

parse-pack_example : Returned default (9 ∷ []) (pack default (replicate 200 0))
parse-pack_example = parse-pack default (replicate 200 0) (9 ∷ []) default-IsCanonical (omega arith)

IsDriven-IsValid_example : Window.Laws.IsValid (shrink (grow Window.new 7000))
IsDriven-IsValid_example =
    IsDriven-IsValid (shrink (grow Window.new 7000))
      (IsDriven.shrunk (IsDriven.grown IsDriven.start 7000))

abbrev late_polls : List (ℕ × ℕ)
late_polls = (2000, 0) ∷ (4000, 0) ∷ (6000, 0) ∷ (8000, 0) ∷ (10000, 0) ∷ []

poll_all-IsOverdue_example :
    (resends (poll_all (Watchdog.new 0) late_polls) ≡ max_adv_retries)
    × (failures (poll_all (Watchdog.new 0) late_polls) ≡ 1)
unfolding deadline_ms
poll_all-IsOverdue_example =
    poll_all-IsOverdue 0 late_polls
      (omega arith, (omega arith, (omega arith, (omega arith, (omega arith, tt))))) (omega arith)

advance-Advanced_example :
    Advanced (true ∷ true ∷ false ∷ []) 3 0 (advance (true ∷ true ∷ false ∷ []) 3 3 0)
advance-Advanced_example =
    advance-Advanced (true ∷ true ∷ false ∷ []) 3 3 0 (omega arith) (omega arith)

-- A payload of three bytes, sent in one part.
abbrev payload3 : List ℕ
payload3 = 11 ∷ 12 ∷ 13 ∷ []

abbrev tag4 : List ℕ
tag4 = replicate 4 1

abbrev sent : OutboundResource
sent = (build_into fixed_hash stand_in zeroed payload3 key64 tag4 iv16).0

build-sent : build fixed_hash stand_in payload3 key64 tag4 iv16 ≡ ok sent
unfolding build build_into zeroed token_encrypt_in_place has_map_hash_collision collides contains
    hash_parts
build-sent = refl

transfer_completes_example :
    (s : InboundResource) × (from_advertisement (advertisement sent) ≡ ok s)
    × (is_complete (transfer fixed_hash sent s (in_order 0 sent.num_parts)) ≡ true)
transfer_completes_example =
    transfer_completes fixed_hash stand_in payload3 key64 tag4 iv16 sent fixed_hash-IsHash
      stand_in-IsCipher refl refl build-sent

-- A receiver that accepts the advertisement, and that the parts complete it.
landing :
    (s : InboundResource) × (from_advertisement (advertisement sent) ≡ ok s)
    × (is_complete (transfer fixed_hash sent s (in_order 0 sent.num_parts)) ≡ true)
landing =
    transfer_completes fixed_hash stand_in payload3 key64 tag4 iv16 sent fixed_hash-IsHash
      stand_in-IsCipher refl refl build-sent

assemble-transfer_example : IsReceived sent payload3 (replicate 64 0) (
    assemble fixed_hash stand_in
      (transfer fixed_hash sent landing.0 (in_order 0 sent.num_parts))
      key64)
assemble-transfer_example =
    assemble-transfer fixed_hash stand_in payload3 key64 tag4 iv16 sent landing.0
      (in_order 0 sent.num_parts) (replicate 64 0) fixed_hash-IsHash stand_in-IsCipher refl refl
      build-sent landing.1 landing.2 (omega arith)

abbrev idle : InboundResource
idle = fresh default (replicate 3712 0) [] 0

-- Ten bytes in a token of one part.
abbrev offer : ResourceAdv
offer = record default {
  transfer_size = 64;
  data_size = 10;
  num_parts = 1;
  segment_index = 1;
  total_segments = 1;
  flags = record no_flags { encrypted = true };
  hashmap_len = 4;
}

offer_taken : (accept_into idle offer none).1 ≡ ok tt
unfolding accept_into validate_adv purpose_valid token_len
offer_taken = refl
