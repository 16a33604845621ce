-- ===== src/Tests/Keys.antt =====
-- Known destinations of src/known_destinations.rs.
use rs_reticulum_lite.Prelude.{ℕ, List, [], ◌∷◌, replicate}
use rs_reticulum_lite.Known
use rs_reticulum_lite.Known.{KnownDestinations}
use rs_reticulum_lite.Known.Blob.{import_blob}
use rs_reticulum_lite.Known.Blob.Laws.{Imported, import_blob-Imported}

-- A stand-in for SHA-256.
abbrev constant_hash : List ℕ → List ℕ
constant_hash bytes = replicate 32 3

abbrev no_keys : KnownDestinations
no_keys = Known.new 2

import_blob-Imported_example :
    Imported constant_hash no_keys
      (import_blob constant_hash no_keys (82 ∷ 75 ∷ 68 ∷ 49 ∷ 1 ∷ 0 ∷ 0 ∷ []) 10)
import_blob-Imported_example =
    import_blob-Imported constant_hash no_keys (82 ∷ 75 ∷ 68 ∷ 49 ∷ 1 ∷ 0 ∷ 0 ∷ []) 10
