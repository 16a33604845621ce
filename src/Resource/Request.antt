-- ===== src/Resource/Request.antt =====
-- The part request of src/resource.rs as the sender reads it.
use rs_reticulum_lite.Prelude.{
  ℕ, zero, suc, ◌+◌, ◌/◌, Option, none, some, List, [], ◌∷◌, Bool, if◌then◌else◌, ◌==◌, ltb, length,
  take, drop,
}
use rs_reticulum_lite.Prelude.Result.{Result, ok, err}
use rs_reticulum_lite.Resource.{ResourceError, invalid_request, maphash_len, slice}

abbrev pub hashmap_is_not_exhausted : ℕ
hashmap_is_not_exhausted = 0x00

abbrev pub hashmap_is_exhausted : ℕ
hashmap_is_exhausted = 0xff

pub record PartRequestView : Type 0 where
  pub wants_more_hashmap : Bool
  pub last_map_hash : Option (List ℕ)
  pub resource_hash : List ℕ
  pub requested : List ℕ

unfoldable pub parse_request : List ℕ → Result ResourceError PartRequestView
parse_request [] = err invalid_request
parse_request (flag ∷ rest) =
    let whole : List ℕ = flag ∷ rest in
    let more : Bool = flag == hashmap_is_exhausted in
    let offset : ℕ = if more then 1 + maphash_len else 1 in
    let view : PartRequestView = record {
      wants_more_hashmap = more;
      last_map_hash = if more then some (slice whole 1 (1 + maphash_len)) else none;
      resource_hash = slice whole offset (offset + 32);
      requested = drop (offset + 32) whole;
    } in
    if ltb (length whole) (offset + 32) then err invalid_request else ok view

-- `chunks_exact(4)`: the whole chunks, with the count as fuel.
unfoldable pub chunks : ℕ → List ℕ → List (List ℕ)
chunks zero bytes = []
chunks (suc n) bytes = take maphash_len bytes ∷ chunks n (drop maphash_len bytes)

unfoldable pub requested_count : PartRequestView → ℕ
requested_count v = length v.requested / maphash_len

unfoldable pub requested_hashes : PartRequestView → List (List ℕ)
requested_hashes v = chunks (requested_count v) v.requested
