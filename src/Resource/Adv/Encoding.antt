-- ===== src/Resource/Adv/Encoding.antt =====
-- The bytes of an advertisement of src/resource.rs, described apart from the writer.
use rs_reticulum_lite.Prelude.{
  ℕ, ◌-◌, ◌%◌, ◌≤◌, ◌<◌, ◌≡◌, List, [], ◌∷◌, ◌++◌, arith, if◌then◌else◌, ◌==◌, ltb, length, take,
  replicate, length-take, false, ◌||◌, Bool-cases, inl, inr,
}
use rs_reticulum_lite.Prelude.Words.{u32_max}
use rs_reticulum_lite.Prelude.Result.{Result, ok, err, ◌>>=◌}
use rs_reticulum_lite.Resource.{ResourceError, output_too_small}
use rs_reticulum_lite.Resource.Flags.{to_byte}
use rs_reticulum_lite.Resource.Codec.{
  MpWriter, uint_bytes, put, put_key, put_uint, put_bin, put_nil,
}
use rs_reticulum_lite.Resource.Codec.Laws.{
  IsValid, Written, put-Written, Written->>=, bin_bytes, put_bin-Written,
}
use rs_reticulum_lite.Resource.Adv.{
  ResourceAdv, put_uint_at, put_bin_at, put_id_at, put_fields, pack,
}

-- What an advertisement holds: words of 32 bits, hashes of their lengths, whole map hashes, and
-- zeros behind the parts of its two arrays that count.
pub record IsCanonical (adv : ResourceAdv) : Type 0 where
  pub transfer_size : adv.transfer_size ≤ u32_max
  pub data_size : adv.data_size ≤ u32_max
  pub num_parts : adv.num_parts ≤ u32_max
  pub segment_index : adv.segment_index ≤ u32_max
  pub total_segments : adv.total_segments ≤ u32_max
  pub resource_hash : length adv.resource_hash ≡ 32
  pub random_hash : length adv.random_hash ≡ 4
  pub original_hash : length adv.original_hash ≡ 32
  pub request_id_len : adv.request_id_len ≤ 32
  pub length_request_id : length adv.request_id ≡ 32
  pub request_id :
      adv.request_id
      ≡ take adv.request_id_len adv.request_id ++ replicate (32 - adv.request_id_len) 0
  pub hashmap_len : adv.hashmap_len ≤ 32
  pub whole_hashes : adv.hashmap_len % 4 ≡ 0
  pub length_hashmap : length adv.hashmap ≡ 32
  pub hashmap : adv.hashmap ≡ take adv.hashmap_len adv.hashmap ++ replicate (32 - adv.hashmap_len) 0

abbrev pub uint_entry : ℕ → ℕ → List ℕ
uint_entry k v = 0xa1 ∷ k ∷ uint_bytes v

abbrev pub bin_entry : ℕ → List ℕ → List ℕ
bin_entry k s = 0xa1 ∷ k ∷ bin_bytes s

abbrev pub id_bytes : ℕ → List ℕ → List ℕ
id_bytes n id = if n == 0 then 0xc0 ∷ [] else bin_bytes (take n id)

abbrev pub id_entry : ℕ → List ℕ → List ℕ
id_entry n id = 0xa1 ∷ 113 ∷ id_bytes n id

abbrev pub encoding : ResourceAdv → List ℕ
encoding adv =
    (0x8b ∷ [])
    ++ uint_entry 116 adv.transfer_size
    ++ uint_entry 100 adv.data_size
    ++ uint_entry 110 adv.num_parts
    ++ bin_entry 104 adv.resource_hash
    ++ bin_entry 114 adv.random_hash
    ++ bin_entry 111 adv.original_hash
    ++ uint_entry 105 adv.segment_index
    ++ uint_entry 108 adv.total_segments
    ++ id_entry adv.request_id_len adv.request_id
    ++ uint_entry 102 (to_byte adv.flags)
    ++ bin_entry 109 (take adv.hashmap_len adv.hashmap)

put_uint_at-Written :
    (k v : ℕ) (w : MpWriter) → IsValid w → Written w (uint_entry k v) (put_uint_at k v w)
unfolding put_key put_uint
put_uint_at-Written k v w val =
    Written->>= w (0xa1 ∷ k ∷ []) (uint_bytes v) _ (λ u. put_uint u v) (put-Written w _ val)
      (λ u valid. put-Written u (uint_bytes v) valid)

put_bin_at-Written :
    (k : ℕ) (s : List ℕ) (w : MpWriter)
    → length s ≤ 0xffff
    → IsValid w
    → Written w (bin_entry k s) (put_bin_at k s w)
unfolding put_key
put_bin_at-Written k s w h val =
    Written->>= w (0xa1 ∷ k ∷ []) (bin_bytes s) _ (λ u. put_bin u s) (put-Written w _ val)
      (λ u valid. put_bin-Written u s h valid)

id_value-Written :
    (n : ℕ) (id : List ℕ) (w : MpWriter)
    → n ≤ 32
    → IsValid w
    → Written w (id_bytes n id) (if n == 0 then put_nil w else put_bin w (take n id))
unfolding put_nil
id_value-Written n id w h val = elim (Bool-cases (n == 0)) [
  | inl t ↦ rw t (put-Written w (0xc0 ∷ []) val)
  | inr f ↦ rw f (put_bin-Written w (take n id) (omega (arith, length-take n id)) val)
]

put_id_at-Written :
    (n : ℕ) (id : List ℕ) (w : MpWriter)
    → n ≤ 32
    → IsValid w
    → Written w (id_entry n id) (put_id_at 113 n id w)
unfolding put_key
put_id_at-Written n id w h val =
    Written->>= w (0xa1 ∷ 113 ∷ []) (id_bytes n id) _
      (λ u. if n == 0 then put_nil u else put_bin u (take n id)) (put-Written w _ val)
      (λ u valid. id_value-Written n id u h valid)

pub put_fields-Written :
    (adv : ResourceAdv) (w : MpWriter)
    → IsCanonical adv
    → IsValid w
    → Written w (encoding adv) (put_fields adv w)
put_fields-Written adv w c val =
    let x0 : List ℕ = 0x8b ∷ [] in
    let r0 = put w x0 in
    let s0 = put-Written w x0 val in
    let x1 : List ℕ = x0 ++ uint_entry 116 adv.transfer_size in
    let r1 = r0 >>= put_uint_at 116 adv.transfer_size in
    let s1 : Written w x1 r1 =
      Written->>= w x0 (uint_entry 116 adv.transfer_size) r0 (put_uint_at 116 adv.transfer_size) s0
        (put_uint_at-Written 116 adv.transfer_size) in
    let x2 : List ℕ = x1 ++ uint_entry 100 adv.data_size in
    let r2 = r1 >>= put_uint_at 100 adv.data_size in
    let s2 : Written w x2 r2 =
      Written->>= w x1 (uint_entry 100 adv.data_size) r1 (put_uint_at 100 adv.data_size) s1
        (put_uint_at-Written 100 adv.data_size) in
    let x3 : List ℕ = x2 ++ uint_entry 110 adv.num_parts in
    let r3 = r2 >>= put_uint_at 110 adv.num_parts in
    let s3 : Written w x3 r3 =
      Written->>= w x2 (uint_entry 110 adv.num_parts) r2 (put_uint_at 110 adv.num_parts) s2
        (put_uint_at-Written 110 adv.num_parts) in
    let x4 : List ℕ = x3 ++ bin_entry 104 adv.resource_hash in
    let r4 = r3 >>= put_bin_at 104 adv.resource_hash in
    let s4 : Written w x4 r4 =
      Written->>= w x3 (bin_entry 104 adv.resource_hash) r3 (put_bin_at 104 adv.resource_hash) s3
        (λ u. put_bin_at-Written 104 adv.resource_hash u (omega (arith, c.resource_hash))) in
    let x5 : List ℕ = x4 ++ bin_entry 114 adv.random_hash in
    let r5 = r4 >>= put_bin_at 114 adv.random_hash in
    let s5 : Written w x5 r5 =
      Written->>= w x4 (bin_entry 114 adv.random_hash) r4 (put_bin_at 114 adv.random_hash) s4
        (λ u. put_bin_at-Written 114 adv.random_hash u (omega (arith, c.random_hash))) in
    let x6 : List ℕ = x5 ++ bin_entry 111 adv.original_hash in
    let r6 = r5 >>= put_bin_at 111 adv.original_hash in
    let s6 : Written w x6 r6 =
      Written->>= w x5 (bin_entry 111 adv.original_hash) r5 (put_bin_at 111 adv.original_hash) s5
        (λ u. put_bin_at-Written 111 adv.original_hash u (omega (arith, c.original_hash))) in
    let x7 : List ℕ = x6 ++ uint_entry 105 adv.segment_index in
    let r7 = r6 >>= put_uint_at 105 adv.segment_index in
    let s7 : Written w x7 r7 =
      Written->>= w x6 (uint_entry 105 adv.segment_index) r6 (put_uint_at 105 adv.segment_index) s6
        (put_uint_at-Written 105 adv.segment_index) in
    let x8 : List ℕ = x7 ++ uint_entry 108 adv.total_segments in
    let r8 = r7 >>= put_uint_at 108 adv.total_segments in
    let s8 : Written w x8 r8 =
      Written->>= w x7 (uint_entry 108 adv.total_segments) r7 (put_uint_at 108 adv.total_segments)
        s7 (put_uint_at-Written 108 adv.total_segments) in
    let x9 : List ℕ = x8 ++ id_entry adv.request_id_len adv.request_id in
    let r9 = r8 >>= put_id_at 113 adv.request_id_len adv.request_id in
    let s9 : Written w x9 r9 =
      Written->>= w x8 (id_entry adv.request_id_len adv.request_id) r8
        (put_id_at 113 adv.request_id_len adv.request_id) s8
        (λ u. put_id_at-Written adv.request_id_len adv.request_id u c.request_id_len) in
    let x10 : List ℕ = x9 ++ uint_entry 102 (to_byte adv.flags) in
    let r10 = r9 >>= put_uint_at 102 (to_byte adv.flags) in
    let s10 : Written w x10 r10 =
      Written->>= w x9 (uint_entry 102 (to_byte adv.flags)) r9 (put_uint_at 102 (to_byte adv.flags))
        s9 (put_uint_at-Written 102 (to_byte adv.flags)) in
    let hashes : List ℕ = take adv.hashmap_len adv.hashmap in
    Written->>= w x10 (bin_entry 109 hashes) r10 (put_bin_at 109 hashes) s10 (λ u.
      put_bin_at-Written 109 hashes u
        (omega (arith, length-take adv.hashmap_len adv.hashmap, c.hashmap_len)))

-- What `pack` leaves: the encoding at the front of the output and its length, or the error where
-- it does not fit.
abbrev pub Packed : ResourceAdv → List ℕ → Result ResourceError (List ℕ × ℕ) → Type 0
Packed adv out (ok (o, n)) =
    (n ≡ length (encoding adv)) × (length o ≡ length out) × (take n o ≡ encoding adv)
Packed adv out (err e) = (e ≡ output_too_small) × (length out < length (encoding adv))

-- The encoding of a canonical advertisement is packed where the output has room for it.
pub pack-Packed :
    (adv : ResourceAdv) (out : List ℕ) → IsCanonical adv → Packed adv out (pack adv out)
unfolding pack
pack-Packed adv out c =
    let w : MpWriter = record { out = out; pos = 0 } in
    let ordered : (ltb (length adv.hashmap) adv.hashmap_len
          || ltb (length adv.request_id) adv.request_id_len)
        ≡ false =
      rw (c.length_hashmap, c.length_request_id)
        (sizes adv.hashmap_len adv.request_id_len c.hashmap_len c.request_id_len) in
    rw ordered
      (packed (put_fields adv w) (put_fields-Written adv w c record { fits = omega arith }))
  where
    sizes : (a b : ℕ) → a ≤ 32 → b ≤ 32 → (ltb 32 a || ltb 32 b) ≡ false
    sizes a b h k = ground arith

    packed :
        (r : Result ResourceError MpWriter)
        → Written (record { out = out; pos = 0 }) (encoding adv) r
        → Packed adv out (r >>= λ w. ok (w.out, w.pos))
    packed (err e) (too_small, short) = (too_small, omega (arith, short))
    packed (ok v) (valid, moved, size, bytes) = (omega (arith, moved), size, bytes)
