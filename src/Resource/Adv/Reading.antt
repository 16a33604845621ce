-- ===== src/Resource/Adv/Reading.antt =====
-- How `parse` of src/resource.rs reads each entry of the encoding.
use rs_reticulum_lite.Prelude.{
  ℕ, suc, ◌+◌, ◌-◌, ◌%◌, ◌≤◌, ◌<◌, ◌≡◌, refl, sym, ap, ◌∙◌, List, ◌∷◌, ◌++◌, zero, ap₂, le→leb,
  ==_iff, arith, ◌==◌, ltb, leb, length, take, drop, replicate, length-take, true, false,
  Bool-cases, inl, inr,
}
use Prim.Native.Nat.{bit_or}
use rs_reticulum_lite.Prelude.Words.{u32_max}
use rs_reticulum_lite.Prelude.Result.{ok}
use rs_reticulum_lite.PacketBuffer.{copy_from_slice}
use rs_reticulum_lite.Resource.Flags.{ResourceFlags, to_byte, to_byte-lt, from_byte-to_byte}
use rs_reticulum_lite.Resource.Codec.{uint_bytes, byte, peek, bin}
use rs_reticulum_lite.Resource.Codec.Laws.{bin_bytes, uint-uint_bytes, bin-bin_bytes}
use rs_reticulum_lite.Resource.Adv.{ResourceAdv, default, fresh_bit, read_value, read_entries}
use rs_reticulum_lite.Resource.Adv.Encoding.{IsCanonical, uint_entry, bin_entry, id_bytes, id_entry}

-- One round of the loop.
read_entry :
    (n : ℕ) (a b : ResourceAdv) (k bit seen : ℕ) (value rest : List ℕ)
    → fresh_bit k seen ≡ ok bit
    → read_value a k (value ++ rest) ≡ ok (b, rest)
    → read_entries (suc n) a seen (0xa1 ∷ k ∷ (value ++ rest))
      ≡ read_entries n b (bit_or seen bit) rest
unfolding read_entries byte
read_entry n a b k bit seen value rest new stored = rw (new, stored) refl

read_transfer_size :
    (a : ResourceAdv) (v : ℕ) (rest : List ℕ)
    → v ≤ u32_max
    → read_value a 116 (uint_bytes v ++ rest) ≡ ok (record a { transfer_size = v }, rest)
unfolding read_value
read_transfer_size a v rest h = rw (uint-uint_bytes v rest h) refl

read_data_size :
    (a : ResourceAdv) (v : ℕ) (rest : List ℕ)
    → v ≤ u32_max
    → read_value a 100 (uint_bytes v ++ rest) ≡ ok (record a { data_size = v }, rest)
unfolding read_value
read_data_size a v rest h = rw (uint-uint_bytes v rest h) refl

read_num_parts :
    (a : ResourceAdv) (v : ℕ) (rest : List ℕ)
    → v ≤ u32_max
    → read_value a 110 (uint_bytes v ++ rest) ≡ ok (record a { num_parts = v }, rest)
unfolding read_value
read_num_parts a v rest h = rw (uint-uint_bytes v rest h) refl

read_resource_hash :
    (a : ResourceAdv) (s rest : List ℕ)
    → length s ≡ 32
    → read_value a 104 (bin_bytes s ++ rest) ≡ ok (record a { resource_hash = s }, rest)
unfolding read_value
read_resource_hash a s rest h = rw (bin-bin_bytes s rest (omega (arith, h)), h) refl

read_random_hash :
    (a : ResourceAdv) (s rest : List ℕ)
    → length s ≡ 4
    → read_value a 114 (bin_bytes s ++ rest) ≡ ok (record a { random_hash = s }, rest)
unfolding read_value
read_random_hash a s rest h = rw (bin-bin_bytes s rest (omega (arith, h)), h) refl

read_original_hash :
    (a : ResourceAdv) (s rest : List ℕ)
    → length s ≡ 32
    → read_value a 111 (bin_bytes s ++ rest) ≡ ok (record a { original_hash = s }, rest)
unfolding read_value
read_original_hash a s rest h = rw (bin-bin_bytes s rest (omega (arith, h)), h) refl

read_segment_index :
    (a : ResourceAdv) (v : ℕ) (rest : List ℕ)
    → v ≤ u32_max
    → read_value a 105 (uint_bytes v ++ rest) ≡ ok (record a { segment_index = v }, rest)
unfolding read_value
read_segment_index a v rest h = rw (uint-uint_bytes v rest h) refl

read_total_segments :
    (a : ResourceAdv) (v : ℕ) (rest : List ℕ)
    → v ≤ u32_max
    → read_value a 108 (uint_bytes v ++ rest) ≡ ok (record a { total_segments = v }, rest)
unfolding read_value
read_total_segments a v rest h = rw (uint-uint_bytes v rest h) refl

read_flags_byte :
    (a : ResourceAdv) (f : ResourceFlags) (rest : List ℕ)
    → read_value a 102 (uint_bytes (to_byte f) ++ rest) ≡ ok (record a { flags = f }, rest)
unfolding read_value
read_flags_byte a f rest =
    let small : to_byte f < 64 = to_byte-lt f in
    let byte_sized : ltb 0xff (to_byte f) ≡ false = ground arith in
    rw (uint-uint_bytes (to_byte f) rest (omega (arith, small)), byte_sized, from_byte-to_byte f)
      refl

-- A copy to the front of an array of zeros.
copied :
    (xs : List ℕ) (n : ℕ)
    → n ≤ 32
    → length xs ≡ 32
    → xs ≡ take n xs ++ replicate (32 - n) 0
    → copy_from_slice (replicate 32 0) 0 (take n xs) ≡ xs
copied xs n h size e =
    let front : length (take n xs) ≡ n = omega (arith, length-take n xs) in
    let start : 0 + n ≡ n = omega arith in
    rw (front, start) (ap (take n xs ++◌) (zeros n 32 h) ∙ sym e)
  where
    zeros : (n m : ℕ) → n ≤ m → drop n (replicate {A = ℕ} m 0) ≡ replicate (m - n) 0
    zeros zero m h = ap (λ k. replicate k 0) (omega arith)
    zeros (suc n) zero h = absurd (omega arith)
    zeros (suc n) (suc m) h = zeros n m (omega arith) ∙ ap (λ k. replicate k 0) (omega arith)

short : (s : List ℕ) → length s ≤ 32 → bin_bytes s ≡ 0xc4 ∷ length s ∷ s
short s h = rw (le→leb (length s) 0xff (omega arith)) refl

read_request_id :
    (a adv : ResourceAdv) (rest : List ℕ)
    → IsCanonical adv
    → a.request_id ≡ replicate 32 0
    → a.request_id_len ≡ 0
    → read_value a 113 (id_bytes adv.request_id_len adv.request_id ++ rest)
      ≡ ok (record a { request_id = adv.request_id; request_id_len = adv.request_id_len }, rest)
unfolding read_value peek byte
read_request_id a adv rest c zeros none =
    let n : ℕ = adv.request_id_len in
    let id : List ℕ = take n adv.request_id in
    let size : length id ≡ n =
      omega (arith, length-take n adv.request_id, c.request_id_len, c.length_request_id) in
    let store : List ℕ → ℕ → ResourceAdv = λ r m. record a { request_id = r; request_id_len = m } in
    elim (Bool-cases (n == 0)) [
      | inl t ↦
          let empty : n ≡ 0 = ground arith in
          let blank : adv.request_id ≡ replicate 32 0 =
            c.request_id ∙ ap (λ k. take k adv.request_id ++ replicate (32 - k) 0) empty in
          rw t (ap (λ z. ok (z, rest)) (ap₂ store (zeros ∙ sym blank) (none ∙ sym empty)))
      | inr f ↦
          let kept : copy_from_slice a.request_id 0 id ≡ adv.request_id =
            ap (λ z. copy_from_slice z 0 id) zeros
            ∙ copied adv.request_id n c.request_id_len c.length_request_id c.request_id in
          let fits : ltb 32 (length id) ≡ false = rw size (ltb-le n c.request_id_len) in
          let head = short id (omega (arith, size, c.request_id_len)) in
          let read : bin (0xc4 ∷ length id ∷ (id ++ rest)) ≡ ok (id, rest) =
            ap (λ z. bin (z ++ rest)) (sym head)
            ∙ bin-bin_bytes id rest (omega (arith, size, c.request_id_len)) in
          rw (f, head, read, fits) (ap (λ z. ok (z, rest)) (ap₂ store kept size))
    ]
  where
    ltb-le : (n : ℕ) → n ≤ 32 → ltb 32 n ≡ false
    ltb-le n h = ground arith

read_hashes :
    (a adv : ResourceAdv) (rest : List ℕ)
    → IsCanonical adv
    → a.hashmap ≡ replicate 32 0
    → read_value a 109 (bin_bytes (take adv.hashmap_len adv.hashmap) ++ rest)
      ≡ ok (record a { hashmap_len = adv.hashmap_len; hashmap = adv.hashmap }, rest)
unfolding read_value
read_hashes a adv rest c zeros =
    let n : ℕ = adv.hashmap_len in
    let s : List ℕ = take n adv.hashmap in
    let size : length s ≡ n =
      omega (arith, length-take n adv.hashmap, c.hashmap_len, c.length_hashmap) in
    let kept : copy_from_slice a.hashmap 0 s ≡ adv.hashmap =
      ap (λ z. copy_from_slice z 0 s) zeros
      ∙ copied adv.hashmap n c.hashmap_len c.length_hashmap c.hashmap in
    let whole : (length s % 4 == 0) ≡ true =
      (==_iff _ _).1 (ap (λ k. k % 4) size ∙ c.whole_hashes) in
    let fits : leb (length s) 32 ≡ true =
      le→leb (length s) 32 (omega (arith, size, c.hashmap_len)) in
    let store : ℕ → List ℕ → ResourceAdv = λ m h. record a { hashmap_len = m; hashmap = h } in
    rw (bin-bin_bytes s rest (omega (arith, size, c.hashmap_len)), whole, fits)
      (ap (λ z. ok (z, rest)) (ap₂ store size kept))

unfoldable pub entries : ResourceAdv → List ℕ → List ℕ
entries adv rest =
    uint_entry 116 adv.transfer_size
    ++ (uint_entry 100 adv.data_size
        ++ (uint_entry 110 adv.num_parts
            ++ (bin_entry 104 adv.resource_hash
                ++ (bin_entry 114 adv.random_hash
                    ++ (bin_entry 111 adv.original_hash
                        ++ (uint_entry 105 adv.segment_index
                            ++ (uint_entry 108 adv.total_segments
                                ++ (id_entry adv.request_id_len adv.request_id
                                    ++ (uint_entry 102 (to_byte adv.flags)
                                        ++ (bin_entry 109 (take adv.hashmap_len adv.hashmap)
                                            ++ rest))))))))))

pub read_entries-entries :
    (adv : ResourceAdv) (rest : List ℕ)
    → IsCanonical adv
    → read_entries 11 default 0 (entries adv rest) ≡ ok adv
unfolding read_entries entries
read_entries-entries adv rest c =
    let a1 : ResourceAdv = record default { transfer_size = adv.transfer_size } in
    let a2 : ResourceAdv = record a1 { data_size = adv.data_size } in
    let a3 : ResourceAdv = record a2 { num_parts = adv.num_parts } in
    let a4 : ResourceAdv = record a3 { resource_hash = adv.resource_hash } in
    let a5 : ResourceAdv = record a4 { random_hash = adv.random_hash } in
    let a6 : ResourceAdv = record a5 { original_hash = adv.original_hash } in
    let a7 : ResourceAdv = record a6 { segment_index = adv.segment_index } in
    let a8 : ResourceAdv = record a7 { total_segments = adv.total_segments } in
    let a9 : ResourceAdv = record a8 {
      request_id = adv.request_id;
      request_id_len = adv.request_id_len;
    } in
    let a10 : ResourceAdv = record a9 { flags = adv.flags } in
    let a11 : ResourceAdv = record a10 { hashmap_len = adv.hashmap_len; hashmap = adv.hashmap } in
    let t11 : List ℕ = rest in
    let t10 : List ℕ = bin_entry 109 (take adv.hashmap_len adv.hashmap) ++ t11 in
    let t9 : List ℕ = uint_entry 102 (to_byte adv.flags) ++ t10 in
    let t8 : List ℕ = id_entry adv.request_id_len adv.request_id ++ t9 in
    let t7 : List ℕ = uint_entry 108 adv.total_segments ++ t8 in
    let t6 : List ℕ = uint_entry 105 adv.segment_index ++ t7 in
    let t5 : List ℕ = bin_entry 111 adv.original_hash ++ t6 in
    let t4 : List ℕ = bin_entry 114 adv.random_hash ++ t5 in
    let t3 : List ℕ = bin_entry 104 adv.resource_hash ++ t4 in
    let t2 : List ℕ = uint_entry 110 adv.num_parts ++ t3 in
    let t1 : List ℕ = uint_entry 100 adv.data_size ++ t2 in
    read_entry 10 default a1 116 1 0 (uint_bytes adv.transfer_size) t1 refl
      (read_transfer_size default adv.transfer_size t1 c.transfer_size)
    ∙ read_entry 9 a1 a2 100 2 1 (uint_bytes adv.data_size) t2 refl
        (read_data_size a1 adv.data_size t2 c.data_size)
    ∙ read_entry 8 a2 a3 110 4 3 (uint_bytes adv.num_parts) t3 refl
        (read_num_parts a2 adv.num_parts t3 c.num_parts)
    ∙ read_entry 7 a3 a4 104 8 7 (bin_bytes adv.resource_hash) t4 refl
        (read_resource_hash a3 adv.resource_hash t4 c.resource_hash)
    ∙ read_entry 6 a4 a5 114 16 15 (bin_bytes adv.random_hash) t5 refl
        (read_random_hash a4 adv.random_hash t5 c.random_hash)
    ∙ read_entry 5 a5 a6 111 32 31 (bin_bytes adv.original_hash) t6 refl
        (read_original_hash a5 adv.original_hash t6 c.original_hash)
    ∙ read_entry 4 a6 a7 105 64 63 (uint_bytes adv.segment_index) t7 refl
        (read_segment_index a6 adv.segment_index t7 c.segment_index)
    ∙ read_entry 3 a7 a8 108 128 127 (uint_bytes adv.total_segments) t8 refl
        (read_total_segments a7 adv.total_segments t8 c.total_segments)
    ∙ read_entry 2 a8 a9 113 256 255 (id_bytes adv.request_id_len adv.request_id) t9 refl
        (read_request_id a8 adv t9 c refl refl)
    ∙ read_entry 1 a9 a10 102 512 511 (uint_bytes (to_byte adv.flags)) t10 refl
        (read_flags_byte a9 adv.flags t10)
    ∙ read_entry 0 a10 a11 109 1024 1023 (bin_bytes (take adv.hashmap_len adv.hashmap)) t11 refl
        (read_hashes a10 adv t11 c refl)
