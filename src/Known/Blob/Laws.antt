-- ===== src/Known/Blob/Laws.antt =====
-- What a table holds after `import` of src/known_destinations.rs.
use rs_reticulum_lite.Prelude.{
  ℕ, zero, suc, ◌+◌, ◌-◌, ◌≤◌, ◌≡◌, refl, ap, List, [], ◌∷◌, false, not, arith, All, length, take,
  replicate, length-append, length-replicate, take-append, Bool-cases, inl, inr, ltb, ◌==◌, ◌*◌,
  ◌||◌, get_or,
}
use rs_reticulum_lite.Prelude.Bytes.{from_be_bytes, bytes_eq, eq_of_bytes_eq}
use rs_reticulum_lite.Prelude.Result.{Result, ok, err}
use rs_reticulum_lite.Known.{
  KnownDestination, KnownDestinations, KnownDestinationError, live, empty_entry,
  delivery_destination_hash,
}
use rs_reticulum_lite.Known.Blob.{
  blob_magic, decode_entry, is_duplicate, decode_all, validate, read_count, import_validated,
  import_counted, import_blob,
}
use rs_reticulum_lite.Known.Laws.{IsValid}

-- The key of an entry hashes to its destination.
abbrev pub IsBound : (List ℕ → List ℕ) → KnownDestination → Type 0
IsBound sha256 e = delivery_destination_hash sha256 e.public_key ≡ e.destination_hash

validate-IsBound :
    (sha256 : List ℕ → List ℕ) (blob : List ℕ) (now index n : ℕ)
    → validate sha256 blob now index n ≡ ok tt
    → All (IsBound sha256) (decode_all blob now index n)
unfolding validate decode_all
validate-IsBound sha256 blob now index zero h = tt
validate-IsBound sha256 blob now index (suc n) h =
    let e : KnownDestination = decode_entry blob index now in
    elim (Bool-cases
      (bytes_eq (delivery_destination_hash sha256 e.public_key) e.destination_hash)) [
        | inr f ↦ cc (rw f at h)
        | inl t ↦ elim (Bool-cases (is_duplicate blob now e.destination_hash index)) [
          | inl d ↦ cc (rw (t, d) at h)
          | inr d ↦ (
            eq_of_bytes_eq _ _ t,
            validate-IsBound sha256 blob now (index + 1) n (rw (t, d) at h),
          )
        ]
      ]

length-decode_all : (blob : List ℕ) (now index n : ℕ) → length (decode_all blob now index n) ≡ n
unfolding decode_all
length-decode_all blob now index zero = refl
length-decode_all blob now index (suc n) = ap suc (length-decode_all blob now (index + 1) n)

not-ltb : (a b : ℕ) → ltb a b ≡ false → b ≤ a
not-ltb a b h = ground arith

read_count-le :
    (t : KnownDestinations) (blob : List ℕ) (n : ℕ)
    → read_count t blob ≡ ok n
    → n ≤ length t.entries
unfolding read_count
read_count-le t blob n h =
    let count : ℕ = from_be_bytes (get_or blob 5 0 ∷ get_or blob 6 0 ∷ []) in
    elim (Bool-cases (ltb (length blob) 7 || not (bytes_eq (take 4 blob) blob_magic))) [
      | inl y ↦ cc (rw y at h)
      | inr a ↦ elim (Bool-cases (not (get_or blob 4 0 == 1))) [
        | inl y ↦ cc (rw (a, y) at h)
        | inr b ↦ elim (Bool-cases (ltb (length t.entries) count)) [
          | inl y ↦ cc (rw (a, b, y) at h)
          | inr c ↦ elim (Bool-cases (not (length blob == 7 + count * 88))) [
            | inl y ↦ cc (rw (a, b, c, y) at h)
            | inr d ↦
                let found : ok count ≡ ok n = rw (a, b, c, d) at h in
                let fits : count ≤ length t.entries = not-ltb (length t.entries) count c in
                let same : count ≡ n = cc in omega arith
          ]
        ]
      ]
    ]

-- What `import` leaves: nothing changed on an error, or a table of the same capacity whose live
-- entries lie in its array and are all bound to their destinations.
abbrev pub Imported :
    (List ℕ → List ℕ)
    → KnownDestinations
    → KnownDestinations × Result KnownDestinationError (Unit {0})
    → Type 0
Imported sha256 t (u, err e) = u ≡ t
Imported sha256 t (u, ok _) =
    IsValid u × (length u.entries ≡ length t.entries) × All (IsBound sha256) (live u)

import_validated-Imported :
    (sha256 : List ℕ → List ℕ) (t : KnownDestinations) (blob : List ℕ) (now n : ℕ)
    (r : Result KnownDestinationError (Unit {0}))
    → n ≤ length t.entries
    → validate sha256 blob now 0 n ≡ r
    → Imported sha256 t (import_validated t blob now n r)
import_validated-Imported sha256 t blob now n (err e) fits h = refl
import_validated-Imported sha256 t blob now n (ok u) fits h =
    let size = length-decode_all blob now 0 n in
    let rest : List KnownDestination = replicate (length t.entries - n) empty_entry in
    let spare = length-replicate (length t.entries - n) empty_entry in
    let whole = length-append (decode_all blob now 0 n) rest in
    (
      record { fits = omega (arith, size, whole) },
      omega (arith, size, whole, spare),
      rw (take-append n (decode_all blob now 0 n) rest size)
          (validate-IsBound sha256 blob now 0 n h),
    )

import_counted-Imported :
    (sha256 : List ℕ → List ℕ) (t : KnownDestinations) (blob : List ℕ) (now : ℕ)
    (r : Result KnownDestinationError ℕ)
    → read_count t blob ≡ r
    → Imported sha256 t (import_counted sha256 t blob now r)
import_counted-Imported sha256 t blob now (err e) h = refl
import_counted-Imported sha256 t blob now (ok n) h =
    import_validated-Imported sha256 t blob now n _ (read_count-le t blob n h) refl

-- For every hash function, `import` of any bytes changes nothing where it fails, and where it
-- succeeds it leaves a table of the same capacity whose live entries lie in its array and are all
-- bound: each key hashes to its destination.
pub import_blob-Imported :
    (sha256 : List ℕ → List ℕ) (t : KnownDestinations) (blob : List ℕ) (now : ℕ)
    → Imported sha256 t (import_blob sha256 t blob now)
unfolding import_blob
import_blob-Imported sha256 t blob now =
    import_counted-Imported sha256 t blob now (read_count t blob) refl
