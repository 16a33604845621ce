-- ===== src/Known.antt =====
-- src/known_destinations.rs: the public keys of known delivery destinations, and the hashes of
-- src/identity.rs that bind a key to its destination.
pub mod Laws
pub mod Blob
use rs_reticulum_lite.Prelude.{
  ℕ, zero, suc, ◌+◌, max, List, [], ◌∷◌, ◌++◌, Option, none, some, Bool, true, false, if◌then◌else◌,
  ◌==◌, ltb, length, set, take, replicate, get_or,
}
use rs_reticulum_lite.Prelude.Words.{saturating_add}
use rs_reticulum_lite.Prelude.Bytes.{bytes_eq}
use rs_reticulum_lite.Prelude.Result.{Result, ok, err}
use rs_reticulum_lite.Wire.Hash.{truncated_hash}

pub record KnownDestination : Type 0 where
  pub destination_hash : List ℕ
  pub public_key : List ℕ
  pub last_seen : ℕ

abbrev pub empty_entry : KnownDestination
empty_entry = record {
  destination_hash = replicate 16 0;
  public_key = replicate 64 0;
  last_seen = 0;
}

pub data KnownDestinationError : Type 0 where
  empty_capacity key_conflict output_too_small invalid_header unsupported_version :
      KnownDestinationError
  count_too_large invalid_length destination_hash_mismatch duplicate_destination :
      KnownDestinationError

pub record KnownDestinations : Type 0 where
  pub entries : List KnownDestination
  pub len : ℕ

unfoldable pub new : ℕ → KnownDestinations
new n = record { entries = replicate n empty_entry; len = 0 }

-- `self.entries[..self.len]`
abbrev pub live : KnownDestinations → List KnownDestination
live t = take t.len t.entries

abbrev pub is_for : List ℕ → KnownDestination → Bool
is_for key e = bytes_eq e.destination_hash key

-- `iter().find(..)` and `iter().position(..)`, from index `i`, by the destination.
unfoldable pub find_known : List ℕ → List KnownDestination → Option KnownDestination
find_known key [] = none
find_known key (e ∷ es) = if is_for key e then some e else find_known key es

unfoldable pub position_known : List ℕ → ℕ → List KnownDestination → Option ℕ
position_known key i [] = none
position_known key i (e ∷ es) = if is_for key e then some i else position_known key (i + 1) es

abbrev pub key_of : Option KnownDestination → Option (List ℕ)
key_of none = none
key_of (some e) = some e.public_key

unfoldable pub peek : KnownDestinations → List ℕ → Option (List ℕ)
peek t destination_hash = key_of (find_known destination_hash (live t))

-- `map(|e| e.last_seen).max().unwrap_or(0)`
unfoldable pub latest : List KnownDestination → ℕ
latest [] = 0
latest (e ∷ es) = max e.last_seen (latest es)

unfoldable pub next_recency : KnownDestinations → ℕ
next_recency t = saturating_add (latest (live t)) 1

abbrev pub touch_at : KnownDestinations → Option ℕ → KnownDestinations × Option (List ℕ)
touch_at t none = (t, none)
touch_at t (some index) =
    let e : KnownDestination = get_or t.entries index empty_entry in
    let seen : KnownDestination = record e { last_seen = next_recency t } in
    (record t { entries = set t.entries index seen }, some e.public_key)

unfoldable pub recall : KnownDestinations → List ℕ → KnownDestinations × Option (List ℕ)
recall t destination_hash = touch_at t (position_known destination_hash 0 (live t))

-- `enumerate().min_by_key(|(_, e)| e.last_seen)`: the first of the least, from index `i` and the best
-- so far, which stands at `best` and was seen at `seen`.
unfoldable pub oldest_from : ℕ → ℕ → ℕ → List KnownDestination → ℕ
oldest_from i best seen [] = best
oldest_from i best seen (e ∷ es) =
    if ltb e.last_seen seen
    then oldest_from (i + 1) i e.last_seen es
    else oldest_from (i + 1) best seen es

unfoldable pub oldest : List KnownDestination → ℕ
oldest [] = 0
oldest (e ∷ es) = oldest_from 1 0 e.last_seen es

-- The slot of a new entry: behind the last one, or the oldest in a full table.
unfoldable pub place : KnownDestinations → KnownDestination → KnownDestinations
place t e =
    if ltb t.len (length t.entries)
    then record { entries = set t.entries t.len e; len = t.len + 1 }
    else record t { entries = set t.entries (oldest (live t)) e }

abbrev pub delivery_name : List ℕ
delivery_name = 108 ∷ 120 ∷ 109 ∷ 102 ∷ 46 ∷ 100 ∷ 101 ∷ 108 ∷ 105 ∷ 118 ∷ 101 ∷ 114 ∷ 121 ∷ []

-- The hasher of the sha2 crate is a parameter.
module _ (sha256 : List ℕ → List ℕ) where
  unfoldable pub identity_hash : List ℕ → List ℕ
  identity_hash public_key = truncated_hash sha256 public_key

  unfoldable pub name_hash : List ℕ → List ℕ
  name_hash name = take 10 (sha256 name)

  unfoldable pub destination_hash_from_parts : List ℕ → Option (List ℕ) → List ℕ
  destination_hash_from_parts name_hash none = truncated_hash sha256 name_hash
  destination_hash_from_parts name_hash (some identity) =
      truncated_hash sha256 (name_hash ++ identity)

  unfoldable pub destination_hash_from_name : List ℕ → Option (List ℕ) → List ℕ
  destination_hash_from_name name identity = destination_hash_from_parts (name_hash name) identity

  unfoldable pub delivery_destination_hash : List ℕ → List ℕ
  delivery_destination_hash public_key =
      destination_hash_from_name delivery_name (some (identity_hash public_key))

  abbrev pub learn_known :
      KnownDestinations
      → List ℕ
      → KnownDestination
      → KnownDestinations × Result KnownDestinationError Bool
  learn_known t public_key e =
      if bytes_eq e.public_key public_key then (t, ok false) else (t, err key_conflict)

  abbrev pub learn_new :
      KnownDestinations
      → List ℕ
      → List ℕ
      → ℕ
      → KnownDestinations × Result KnownDestinationError Bool
  learn_new t destination_hash public_key now =
      let e : KnownDestination = record {
        destination_hash = destination_hash;
        public_key = public_key;
        last_seen = max now (next_recency t);
      } in
      if bytes_eq (delivery_destination_hash public_key) destination_hash
      then (place t e, ok true)
      else (t, err destination_hash_mismatch)

  abbrev pub learn_found :
      KnownDestinations
      → List ℕ
      → List ℕ
      → ℕ
      → Option KnownDestination
      → KnownDestinations × Result KnownDestinationError Bool
  learn_found t destination_hash public_key now none = learn_new t destination_hash public_key now
  learn_found t destination_hash public_key now (some e) = learn_known t public_key e

  unfoldable pub learn :
      KnownDestinations
      → List ℕ
      → List ℕ
      → ℕ
      → KnownDestinations × Result KnownDestinationError Bool
  learn t destination_hash public_key now =
      if length t.entries == 0
      then (t, err empty_capacity)
      else learn_found t destination_hash public_key now (find_known destination_hash (live t))
