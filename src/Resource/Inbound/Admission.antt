-- ===== src/Resource/Inbound/Admission.antt =====
-- What the admission of an advertisement of src/resource.rs ensures.
use rs_reticulum_lite.Prelude.{
  ℕ, zero, suc, ◌+◌, ◌-◌, ◌*◌, ◌≤◌, ◌<◌, ◌≡◌, refl, ap, sym, ◌∙◌, [], ◌++◌, none, some, take, drop,
  get_or, get_or-append_front, Option, List, Bool, true, false, not, ◌||◌, ◌==◌, ltb, length,
  replicate, arith, inl, inr,
}
use rs_reticulum_lite.Prelude.Bytes.{bytes_eq, bytes_eq_refl, eq_of_bytes_eq}
use rs_reticulum_lite.Prelude.Words.{div_ceil}
use rs_reticulum_lite.Prelude.Result.{
  Result, ok, err, Result-cases, first_error, AllClear, first_error-AllClear, AllClear-first_error,
}
use rs_reticulum_lite.Crypto.{token_overhead}
use rs_reticulum_lite.Resource.{
  ResourceError, maphash_len, random_hash_size, sdu, max_parts, transfer_max, data_max, token_len,
}
use rs_reticulum_lite.Resource.Adv.{ResourceAdv}
use rs_reticulum_lite.Resource.Inbound.{
  InboundResource, read_hashes, purpose_valid, admission_checks, validate_adv, fresh,
}
use rs_reticulum_lite.Resource.Inbound.Step.{AreParts}
use rs_reticulum_lite.Resource.Inbound.Receive.{IsValid}

pub length-read_hashes : (hm : List ℕ) (i n : ℕ) → length (read_hashes hm i n) ≡ n
unfolding read_hashes
length-read_hashes hm i zero = refl
length-read_hashes hm i (suc n) = ap suc (length-read_hashes hm (i + 1) n)

pub get_or-read_hashes :
    (hm : List ℕ) (i n k j : ℕ)
    → k < n
    → i + k ≡ j
    → get_or (read_hashes hm i n) k [] ≡ take 4 (drop (j * 4) hm)
unfolding read_hashes
get_or-read_hashes hm i zero k j h e = absurd (omega arith)
get_or-read_hashes hm i (suc n) zero j h e =
    let same : i ≡ j = omega (arith, e) in
    let four : (i + 1) * 4 - i * 4 ≡ 4 = omega arith in
    rw four (ap (λ m. take 4 (drop (m * 4) hm)) same)
get_or-read_hashes hm i (suc n) (suc k) j h e =
    get_or-read_hashes hm (i + 1) n k j (omega arith) (omega (arith, e))

-- The purpose expected: an ordinary transfer, or the response to a request.
abbrev pub IsPurpose : ResourceAdv → Option (List ℕ) → Type 0
IsPurpose adv none =
    (adv.flags.is_request ≡ false) × (adv.flags.is_response ≡ false) × (adv.request_id_len ≡ 0)
IsPurpose adv (some id) =
    (adv.flags.is_request ≡ false)
    × (adv.flags.is_response ≡ true)
    × (adv.request_id_len ≡ 16)
    × (take 16 adv.request_id ≡ id)

-- An advertisement that the endpoint supports, of one segment, for the purpose expected, and of
-- consistent sizes: one token in `n` parts.
pub record IsSupported (adv : ResourceAdv) (expected : Option (List ℕ)) (n : ℕ) : Type 0 where
  pub plain : adv.flags.compressed ≡ false
  pub bare : adv.flags.has_metadata ≡ false
  pub whole : adv.flags.split ≡ false
  pub segments : adv.total_segments ≡ 1
  pub segment : adv.segment_index ≡ 1
  pub encrypted : adv.flags.encrypted ≡ true
  pub purpose : IsPurpose adv expected
  pub bounded : adv.transfer_size ≤ transfer_max
  pub small : adv.data_size ≤ data_max
  pub least : token_overhead + 16 ≤ adv.transfer_size
  pub token : token_len (random_hash_size + adv.data_size) ≡ adv.transfer_size
  pub num_parts : adv.num_parts ≡ n
  pub parts : AreParts adv.transfer_size n
  pub hashmap : adv.hashmap_len ≡ n * maphash_len

purpose_valid-IsPurpose :
    (adv : ResourceAdv) (expected : Option (List ℕ))
    → purpose_valid adv expected ≡ true
    → IsPurpose adv expected
unfolding purpose_valid
purpose_valid-IsPurpose adv none h = ground arith
purpose_valid-IsPurpose adv (some id) h = ground (arith, eq_of_bytes_eq (take 16 adv.request_id) id)

valid_of_IsPurpose :
    (adv : ResourceAdv) (expected : Option (List ℕ))
    → IsPurpose adv expected
    → purpose_valid adv expected ≡ true
unfolding purpose_valid
valid_of_IsPurpose adv none (a, b, c) = ground arith
valid_of_IsPurpose adv (some id) (a, b, c, d) =
    let same : bytes_eq (take 16 adv.request_id) id ≡ true = rw d (bytes_eq_refl id) in ground arith

not-true : (b : Bool) → not b ≡ false → b ≡ true
not-true true h = refl
not-true false h = cc

equal : (a b : ℕ) → not (a == b) ≡ false → a ≡ b
equal a b h = ground arith

unequal : (a b : ℕ) → a ≡ b → not (a == b) ≡ false
unequal a b h = ground arith

parts_of : (t : ℕ) → AreParts t (div_ceil t sdu)
parts_of t = (omega arith, omega arith)

pub supported :
    (adv : ResourceAdv) (expected : Option (List ℕ))
    → AllClear (admission_checks adv expected)
    → IsSupported adv expected (div_ceil adv.transfer_size sdu)
supported adv expected
      (
        plain,
        (bare, (single, (purpose, (encrypted, (sizes, (least, (token, (count, (hashes, _))))))))),
      ) =
    let (whole, segments, segment) =
      one_segment adv.flags.split adv.total_segments adv.segment_index single in
    let (bounded, small) = in_bounds adv.transfer_size adv.data_size sizes in
    record {
      plain = plain;
      bare = bare;
      whole = whole;
      segments = segments;
      segment = segment;
      encrypted = not-true adv.flags.encrypted encrypted;
      purpose =
          purpose_valid-IsPurpose adv expected (not-true (purpose_valid adv expected) purpose);
      bounded = bounded;
      small = small;
      least = ground arith;
      token = equal _ _ token;
      num_parts = equal _ _ count;
      parts = parts_of adv.transfer_size;
      hashmap = equal _ _ hashes;
    }
  where
    one_segment :
        (split : Bool) (a b : ℕ)
        → (split || (not (a == 1) || not (b == 1))) ≡ false
        → (split ≡ false) × (a ≡ 1) × (b ≡ 1)
    one_segment split a b h = ground arith

    in_bounds :
        (a b : ℕ)
        → (ltb transfer_max a || ltb data_max b) ≡ false
        → (a ≤ transfer_max) × (b ≤ data_max)
    in_bounds a b h = ground arith

unsupported :
    (adv : ResourceAdv) (expected : Option (List ℕ)) (n : ℕ)
    → IsSupported adv expected n
    → AllClear (admission_checks adv expected)
unsupported adv expected n s =
    let count : div_ceil adv.transfer_size sdu ≡ n = omega (arith, s.parts) in
    let valid = valid_of_IsPurpose adv expected s.purpose in
    let hashes = unequal _ _ (s.hashmap ∙ ap (λ k. k * maphash_len) (sym count)) in
    let counted = unequal _ _ (s.num_parts ∙ sym count) in
    (
      s.plain,
      (
        s.bare,
        (
          ground (arith, s.whole, s.segments, s.segment),
          (
            ap not valid,
            (
              ap not s.encrypted,
              (
                ground (arith, s.bounded, s.small),
                (ground (arith, s.least), (unequal _ _ s.token, (counted, (hashes, tt)))),
              ),
            ),
          ),
        ),
      ),
    )

-- A new receiver of a supported advertisement is valid.
pub fresh-IsValid :
    (adv : ResourceAdv) (expected : Option (List ℕ)) (buf : List ℕ) (hashes : List (List ℕ)) (n : ℕ)
    → IsSupported adv expected n
    → length buf ≡ transfer_max
    → IsValid (fresh adv buf hashes n)
fresh-IsValid adv expected buf hashes n s h = record {
  size = h;
  slots = refl;
  few = omega (arith, s.parts, s.bounded);
  parts = s.parts;
  inside = omega arith;
  prefix = λ j l. absurd (omega arith);
  stopped = inr refl;
}

-- The map hashes taken from an advertisement: the bytes of each part from its hashmap.
abbrev pub AreHashes : ResourceAdv → List (List ℕ) → ℕ → Type 0
AreHashes adv hashes n =
    (i : ℕ) → i < n → get_or hashes i [] ≡ take maphash_len (drop (i * maphash_len) adv.hashmap)

-- A validated advertisement is supported and has given its hashes; a refused one is not supported.
abbrev pub Supported :
    ResourceAdv → Option (List ℕ) → Result ResourceError (List (List ℕ) × ℕ) → Type 0
Supported adv expected (err e) = ¬ (IsSupported adv expected adv.num_parts)
Supported adv expected (ok (hashes, n)) = IsSupported adv expected n × AreHashes adv hashes n

read_hashes-AreHashes :
    (adv : ResourceAdv) (n : ℕ) (rest : List (List ℕ))
    → AreHashes adv (read_hashes adv.hashmap 0 n ++ rest) n
read_hashes-AreHashes adv n rest i h =
    get_or-append_front (read_hashes adv.hashmap 0 n) rest i []
      (omega (arith, length-read_hashes adv.hashmap 0 n))
    ∙ get_or-read_hashes adv.hashmap 0 n i i h (omega arith)

pub validate_adv-Supported :
    (adv : ResourceAdv) (expected : Option (List ℕ))
    → Supported adv expected (validate_adv adv expected)
unfolding validate_adv
validate_adv-Supported adv expected =
    let checks = admission_checks adv expected in
    elim (Result-cases (first_error checks)) [
      | inr (e, h) ↦ rw h (λ s.
          let clear = AllClear-first_error checks (unsupported adv expected adv.num_parts s) in
          ok_ne_err tt e (sym clear ∙ h))
      | inl (tt, h) ↦ rw h (
        supported adv expected (first_error-AllClear checks h),
        read_hashes-AreHashes adv (div_ceil adv.transfer_size sdu) _,
      )
    ]
  where
    ok_ne_err :
        (u : Unit {0}) (e : ResourceError)
        → ◌≡◌ {A = Result ResourceError (Unit {0})} (ok u) (err e)
        → ⊥
    ok_ne_err u e h = cc

-- The receiver `s` that an accepted advertisement leaves in place of `r`: empty and valid, with the
-- sizes, hashes and identity of the advertisement.
pub record IsReceiver (r s : InboundResource) (adv : ResourceAdv) (expected : Option (List ℕ))
    : Type 0 where
  pub valid : IsValid s
  pub supported_adv : IsSupported adv expected s.num_parts
  pub hashes : AreHashes adv s.map_hashes s.num_parts
  pub transfer : s.transfer_size ≡ adv.transfer_size
  pub size : s.data_size ≡ adv.data_size
  pub identity : s.resource_hash ≡ adv.resource_hash
  pub salt : s.random_hash ≡ adv.random_hash
  pub empty : s.received ≡ replicate max_parts false

-- What `accept_into` leaves: nothing changed on an error, which only an unsupported advertisement
-- has, or the receiver of a supported one.
abbrev pub Accepted :
    InboundResource
    → ResourceAdv
    → Option (List ℕ)
    → InboundResource × Result ResourceError (Unit {0})
    → Type 0
Accepted r adv expected (s, err e) = (s ≡ r) × ¬ (IsSupported adv expected adv.num_parts)
Accepted r adv expected (s, ok _) = IsReceiver r s adv expected
