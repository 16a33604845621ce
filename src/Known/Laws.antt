-- ===== src/Known/Laws.antt =====
-- What `learn` of src/known_destinations.rs stores and refuses.
use rs_reticulum_lite.Prelude.{ℕ, ◌≤◌, ◌≡◌, List, none, some, Bool, true, false, length}
use rs_reticulum_lite.Prelude.Result.{Result, ok, err}
use rs_reticulum_lite.Known.{
  KnownDestinationError, KnownDestinations, peek, delivery_destination_hash,
}

-- The live entries lie in the array.
pub record IsValid (t : KnownDestinations) : Type 0 where
  pub fits : t.len ≤ length t.entries

-- `learn` by its answer: a new key is stored under the destination that it hashes to; a known one
-- changes nothing; nothing changes on an error.
abbrev pub Learned :
    (List ℕ → List ℕ)
    → KnownDestinations
    → List ℕ
    → List ℕ
    → KnownDestinations × Result KnownDestinationError Bool
    → Type 0
Learned sha256 t destination key (u, ok true) =
    IsValid u
    × (peek t destination ≡ none)
    × (peek u destination ≡ some key)
    × (delivery_destination_hash sha256 key ≡ destination)
Learned sha256 t destination key (u, ok false) = (u ≡ t) × (peek t destination ≡ some key)
Learned sha256 t destination key (u, err e) = u ≡ t
