-- ===== src/Resource/Outbound.antt =====
-- The sender of src/resource.rs. The result of `build_into` stands next to the resource it leaves.
pub mod Hashes
pub mod Built
use rs_reticulum_lite.Prelude.{
  ℕ, zero, suc, ◌+◌, ◌-◌, ◌*◌, min, Option, none, some, List, [], ◌∷◌, ◌++◌, Bool, true, false,
  ◌&&◌, ◌||◌, if◌then◌else◌, ◌==◌, ltb, leb, length, take, drop, replicate, get_or,
}
use rs_reticulum_lite.Prelude.Words.{div_ceil}
use rs_reticulum_lite.Prelude.Bytes.{bytes_eq}
use rs_reticulum_lite.Prelude.Result.{Result, ok, err}
use rs_reticulum_lite.PacketBuffer.{copy_from_slice}
use rs_reticulum_lite.Crypto.{Primitives, CryptoError}
use rs_reticulum_lite.Crypto.Token.{token_encrypt_in_place}
use rs_reticulum_lite.Resource.{
  ResourceError, too_large, map_hash_collision, crypto, maphash_len, random_hash_size, sdu,
  max_parts, transfer_max, data_max, slice, get_map_hash, compute_resource_hash,
  compute_expected_proof,
}
use rs_reticulum_lite.Resource.Flags.{ResourceFlags}
use rs_reticulum_lite.Resource.Adv.{ResourceAdv, default, no_flags}
use rs_reticulum_lite.Resource.Request.{PartRequestView, requested_hashes}

pub record OutboundResource : Type 0 where
  pub buf : List ℕ
  pub total_size : ℕ
  pub data_size : ℕ
  pub num_parts : ℕ
  pub resource_hash : List ℕ
  pub expected_proof : List ℕ
  pub random_hash : List ℕ
  pub map_hashes : List (List ℕ)

unfoldable pub zeroed : OutboundResource
zeroed = record {
  buf = replicate transfer_max 0;
  total_size = 0;
  data_size = 0;
  num_parts = 0;
  resource_hash = replicate 32 0;
  expected_proof = replicate 32 0;
  random_hash = replicate random_hash_size 0;
  map_hashes = replicate max_parts (replicate maphash_len 0);
}

-- `contains`
unfoldable pub contains : List (List ℕ) → List ℕ → Bool
contains [] h = false
contains (x ∷ xs) h = bytes_eq x h || contains xs h

-- The loop over the hashes, with the ones before in `seen`.
unfoldable pub collides : List (List ℕ) → List (List ℕ) → Bool
collides seen [] = false
collides seen (h ∷ hs) = contains seen h || collides (seen ++ (h ∷ [])) hs

unfoldable pub has_map_hash_collision : List (List ℕ) → Bool
has_map_hash_collision hs = collides [] hs

-- `buf[i * SDU..((i + 1) * SDU).min(total)]`
abbrev pub part_of : List ℕ → ℕ → ℕ → List ℕ
part_of buf total i = slice buf (i * sdu) (min ((i + 1) * sdu) total)

unfoldable pub part : OutboundResource → ℕ → Option (List ℕ)
part r i = if leb r.num_parts i then none else some (part_of r.buf r.total_size i)

-- The indices of the parts from `i` on that the request names.
unfoldable pub requested_from : List (List ℕ) → List (List ℕ) → ℕ → List ℕ
requested_from wanted [] i = []
requested_from wanted (mh ∷ hs) i =
    let rest = requested_from wanted hs (i + 1) in if contains wanted mh then i ∷ rest else rest

-- The indices found; the array's remaining places are not modelled.
unfoldable pub requested_parts : OutboundResource → PartRequestView → List ℕ
requested_parts r req =
    if bytes_eq req.resource_hash r.resource_hash
    then requested_from (requested_hashes req) (take r.num_parts r.map_hashes) 0
    else []

unfoldable pub validate_proof : OutboundResource → List ℕ → Bool
validate_proof r proof =
    length proof == 64
    && (bytes_eq (take 32 proof) r.resource_hash && bytes_eq (drop 32 proof) r.expected_proof)

-- The map hashes one behind the other.
unfoldable pub concat : List (List ℕ) → List ℕ
concat [] = []
concat (h ∷ hs) = h ++ concat hs

unfoldable pub advertisement : OutboundResource → ResourceAdv
advertisement r =
    let flags : ResourceFlags = record no_flags { encrypted = true } in
    record default {
      transfer_size = r.total_size;
      data_size = r.data_size;
      num_parts = r.num_parts;
      resource_hash = r.resource_hash;
      random_hash = r.random_hash;
      original_hash = r.resource_hash;
      segment_index = 1;
      total_segments = 1;
      flags = flags;
      hashmap_len = r.num_parts * maphash_len;
      hashmap =
          copy_from_slice (replicate (max_parts * maphash_len) 0) 0
            (concat (take r.num_parts r.map_hashes));
    }

-- `r.build_into(..)?; Ok(r)`
abbrev pub returned :
    OutboundResource × Result ResourceError (Unit {0}) → Result ResourceError OutboundResource
returned (r, err e) = err e
returned (r, ok _) = ok r

module _ (sha256 : List ℕ → List ℕ) where
  -- The hashes of the `n` parts from `i` on.
  unfoldable pub hash_parts : List ℕ → ℕ → List ℕ → ℕ → ℕ → List (List ℕ)
  hash_parts buf total random_hash i zero = []
  hash_parts buf total random_hash i (suc n) =
      get_map_hash sha256 (part_of buf total i) random_hash
      ∷ hash_parts buf total random_hash (i + 1) n

  -- The end of `build_into`, on what the encryption leaves.
  abbrev pub finish :
      OutboundResource
      → List ℕ
      → List ℕ
      → List ℕ × Result CryptoError ℕ
      → OutboundResource × Result ResourceError (Unit {0})
  finish r bytes random_hash (buf, err e) =
      let reset : OutboundResource = record r {
        buf = buf;
        total_size = 0;
        data_size = 0;
        num_parts = 0;
      } in
      (reset, err (crypto e))
  finish r bytes random_hash (buf, ok total) =
      let reset : OutboundResource = record r {
        buf = buf;
        total_size = 0;
        data_size = 0;
        num_parts = 0;
      } in
      let num_parts : ℕ = div_ceil total sdu in
      let hashes : List (List ℕ) = hash_parts buf total random_hash 0 num_parts in
      let resource_hash : List ℕ = compute_resource_hash sha256 bytes random_hash in
      let built : OutboundResource = record {
        buf = buf;
        total_size = total;
        data_size = length bytes;
        num_parts = num_parts;
        resource_hash = resource_hash;
        expected_proof = compute_expected_proof sha256 bytes resource_hash;
        random_hash = random_hash;
        map_hashes = hashes ++ replicate (max_parts - num_parts) (replicate maphash_len 0);
      } in
      if has_map_hash_collision hashes then (reset, err map_hash_collision) else (built, ok tt)

  module _ (p : Primitives) where
    unfoldable pub build_into :
        OutboundResource
        → List ℕ
        → List ℕ
        → List ℕ
        → List ℕ
        → OutboundResource × Result ResourceError (Unit {0})
    build_into r bytes key random_hash iv =
        let blank : List ℕ = replicate (length r.buf) 0 in
        let filled : List ℕ =
          copy_from_slice (copy_from_slice blank 16 random_hash) (16 + random_hash_size) bytes in
        if ltb data_max (length bytes)
        then (r, err too_large)
        else finish r bytes random_hash
            (token_encrypt_in_place p key iv filled (random_hash_size + length bytes))

    unfoldable pub build : List ℕ → List ℕ → List ℕ → List ℕ → Result ResourceError OutboundResource
    build bytes key random_hash iv = returned (build_into zeroed bytes key random_hash iv)
