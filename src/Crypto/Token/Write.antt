-- ===== src/Crypto/Token/Write.antt =====
-- The encryptions of src/crypto.rs write the Token, in place and by copy.
use rs_reticulum_lite.Prelude.{
  ℕ, ◌+◌, ◌-◌, ◌≤◌, ◌≡◌, refl, sym, ap, ap₂, ◌∙◌, List, [], ◌++◌, append_assoc, arith, length, take,
  drop, replicate, length-append, length-take, length-drop, length-replicate, take-append,
  drop-append, take-append-drop, drop-drop, false, ◌||◌, ltb,
}
use rs_reticulum_lite.Prelude.Words.{u64_max}
use rs_reticulum_lite.Prelude.Result.{ok}
use rs_reticulum_lite.PacketBuffer.{copy_from_slice}
use rs_reticulum_lite.PacketBuffer.Laws.{copy_from_slice-append}
use rs_reticulum_lite.Crypto.{Primitives, token_overhead}
use rs_reticulum_lite.Crypto.Token.{
  pad_of, pkcs7_pad, write_token, token_encrypt_in_place, token_encrypt, seal, seal_filled,
}
use rs_reticulum_lite.Crypto.Token.Form.{
  IsCipher, padding, ciphertext_of, tag_of, token_of, token_len, length_padded, whole_blocks,
  length-ciphertext_of,
}

-- What `seal_filled` makes of the IV, the padded plaintext and 32 bytes of room.
seal_filled_parts :
    (p : Primitives) (key iv pt c d : List ℕ)
    → IsCipher p
    → length iv ≡ 16
    → length c ≡ 32
    → seal_filled p key iv (length pt + pad_of (length pt)) (iv ++ ((pt ++ padding pt) ++ (c ++ d)))
      ≡ (iv ++ ciphertext_of p key iv pt) ++ (tag_of p key iv pt ++ d)
seal_filled_parts p key iv pt c d v hi hc =
    let m : ℕ = length pt + pad_of (length pt) in
    let padded : List ℕ = pt ++ padding pt in
    let ct : List ℕ = ciphertext_of p key iv pt in
    let tag : List ℕ = tag_of p key iv pt in
    let inside =
      ap (take m) (drop-append 16 iv (padded ++ (c ++ d)) hi)
      ∙ take-append m padded (c ++ d) (length_padded pt) in
    let third =
      copy_from_slice-append 16 iv padded ct (c ++ d) hi
        (v.length-aes_encrypt (drop 32 key) iv padded (whole_blocks pt))
      ∙ sym (append_assoc iv ct (c ++ d)) in
    let sealed : length (iv ++ ct) ≡ 16 + m =
      omega (arith, length-append iv ct, length-ciphertext_of p key iv pt v) in
    let signed = take-append (16 + m) (iv ++ ct) (c ++ d) sealed in
    rw (inside, third)
      (ap (copy_from_slice ((iv ++ ct) ++ (c ++ d)) (16 + m)) (ap (p.hmac (take 32 key)) signed)
        ∙ copy_from_slice-append (16 + m) (iv ++ ct) c tag d sealed
            (v.length-hmac (take 32 key) (iv ++ ct) ∙ sym hc))

-- The writes of `write_token`, over a buffer cut into the parts they fill.
write_token_parts :
    (p : Primitives) (key iv a pt b c d : List ℕ)
    → IsCipher p
    → length iv ≡ 16
    → length a ≡ 16
    → length b ≡ pad_of (length pt)
    → length c ≡ 32
    → write_token p key iv
        (a ++ (pt ++ (b ++ (c ++ d))))
        (length pt)
        (length pt + pad_of (length pt))
      ≡ (iv ++ ciphertext_of p key iv pt) ++ (tag_of p key iv pt ++ d)
unfolding write_token
write_token_parts p key iv a pt b c d v hi ha hb hc =
    let n : ℕ = length pt in
    let pad : List ℕ = padding pt in
    let first = copy_from_slice-append 0 [] a iv (pt ++ (b ++ (c ++ d))) refl (omega arith) in
    let second =
      copy_from_slice-append (16 + n) (iv ++ pt) b pad (c ++ d) (omega (arith, length-append iv pt))
        (omega (arith, length-replicate (pad_of n) (pad_of n)))
      ∙ append_assoc iv pt (pad ++ (c ++ d))
      ∙ ap (iv ++◌) (sym (append_assoc pt pad (c ++ d))) in
    rw (first, sym (append_assoc iv pt (b ++ (c ++ d))), second)
      (seal_filled_parts p key iv pt c d v hi hc)

write_token_at :
    (p : Primitives) (key iv a pt b c d : List ℕ) (n : ℕ)
    → IsCipher p
    → length iv ≡ 16
    → length a ≡ 16
    → length pt ≡ n
    → length b ≡ pad_of n
    → length c ≡ 32
    → write_token p key iv (a ++ (pt ++ (b ++ (c ++ d)))) n (n + pad_of n)
      ≡ (iv ++ ciphertext_of p key iv pt) ++ (tag_of p key iv pt ++ d)
write_token_at p key iv a pt b c d n v hi ha hn hb hc =
    rw (sym hn) (write_token_parts p key iv a pt b c d v hi ha (hb ∙ ap pad_of (sym hn)) hc)

token_fields :
    (p : Primitives) (key iv pt d : List ℕ)
    → (iv ++ ciphertext_of p key iv pt) ++ (tag_of p key iv pt ++ d) ≡ token_of p key iv pt ++ d
token_fields p key iv pt d =
    let ct : List ℕ = ciphertext_of p key iv pt in
    let tag : List ℕ = tag_of p key iv pt in
    append_assoc iv ct (tag ++ d)
    ∙ ap (iv ++◌) (sym (append_assoc ct tag d))
    ∙ sym (append_assoc iv (ct ++ tag) d)

-- With room for it, `write_token` leaves the token of the bytes at 16 in front of the rest.
pub write_token_lem :
    (p : Primitives) (key iv buf : List ℕ) (n : ℕ)
    → IsCipher p
    → length iv ≡ 16
    → n + pad_of n + token_overhead ≤ length buf
    → write_token p key iv buf n (n + pad_of n)
      ≡ token_of p key iv (take n (drop 16 buf)) ++ drop (n + pad_of n + token_overhead) buf
write_token_lem p key iv buf n v hi fits =
    let a : List ℕ = take 16 buf in
    let pt : List ℕ = take n (drop 16 buf) in
    let behind : List ℕ = drop n (drop 16 buf) in
    let b : List ℕ = take (pad_of n) behind in
    let last : List ℕ = drop (pad_of n) behind in
    let c : List ℕ = take 32 last in
    let d : List ℕ = drop 32 last in
    let dropped : d ≡ drop (n + pad_of n + token_overhead) buf =
      drop-drop (pad_of n) 32 (pad_of n + 32) behind refl
      ∙ drop-drop n (pad_of n + 32) (n + pad_of n + 32) (drop 16 buf) (omega arith)
      ∙ drop-drop 16 (n + pad_of n + 32) (n + pad_of n + token_overhead) buf (omega arith) in
    let size_behind : length behind ≡ length buf - 16 - n =
      omega (arith, length-drop 16 buf, length-drop n (drop 16 buf)) in
    let cut : buf ≡ a ++ (pt ++ (b ++ (c ++ d))) =
      sym (take-append-drop 16 buf)
      ∙ ap (a ++◌) (sym (take-append-drop n (drop 16 buf)))
      ∙ ap (λ z. a ++ (pt ++ z)) (sym (take-append-drop (pad_of n) behind))
      ∙ ap (λ z. a ++ (pt ++ (b ++ z))) (sym (take-append-drop 32 last)) in
    ap (λ z. write_token p key iv z n (n + pad_of n)) cut
    ∙ write_token_at p key iv a pt b c d n v hi (omega (arith, length-take 16 buf))
        (omega (arith, length-take n (drop 16 buf), length-drop 16 buf))
        (omega (arith, length-take (pad_of n) behind, size_behind))
        (omega (arith, length-take 32 last, length-drop (pad_of n) behind, size_behind))
    ∙ token_fields p key iv pt d
    ∙ ap (token_of p key iv pt ++◌) dropped

-- With room for it, encryption in place leaves the token of the bytes at 16 in front of the rest.
pub token_encrypt_in_place_lem :
    (p : Primitives) (key iv buf : List ℕ) (n : ℕ)
    → IsCipher p
    → length iv ≡ 16
    → n + pad_of n + token_overhead ≤ length buf
    → length buf ≤ u64_max
    → token_encrypt_in_place p key iv buf n ≡ (
      token_of p key iv (take n (drop 16 buf)) ++ drop (n + pad_of n + token_overhead) buf,
      ok (n + pad_of n + token_overhead),
    )
unfolding token_encrypt_in_place
token_encrypt_in_place_lem p key iv buf n v hi fits most =
    let m : ℕ = n + pad_of n in
    let narrow : (ltb u64_max m || ltb u64_max (m + token_overhead)) ≡ false = ground arith in
    let room : ltb (length buf) (m + token_overhead) ≡ false = ground arith in
    rw (narrow, room, write_token_lem p key iv buf n v hi fits) refl

-- The stack array holds the padded plaintext.
pkcs7_pad_lem :
    (pt out : List ℕ)
    → length pt + pad_of (length pt) ≤ length out
    → (take (length pt + pad_of (length pt)) (pkcs7_pad pt out).0 ≡ pt ++ padding pt)
      × ((pkcs7_pad pt out).1 ≡ ok (length pt + pad_of (length pt)))
unfolding pkcs7_pad
pkcs7_pad_lem pt out fits =
    let n : ℕ = length pt in
    let m : ℕ = n + pad_of n in
    let room : ltb (length out) m ≡ false = ground arith in
    let a : List ℕ = take n out in
    let b : List ℕ = take (pad_of n) (drop n out) in
    let c : List ℕ = drop (pad_of n) (drop n out) in
    let cut : out ≡ a ++ (b ++ c) =
      sym (take-append-drop n out) ∙ ap (a ++◌) (sym (take-append-drop (pad_of n) (drop n out))) in
    let first = copy_from_slice-append 0 [] a pt (b ++ c) refl (omega (arith, length-take n out)) in
    let second = copy_from_slice-append n pt b (padding pt) c refl (
      omega (
        arith,
        length-take (pad_of n) (drop n out),
        length-drop n out,
        length-replicate (pad_of n) (pad_of n),
      )) in
    let both : copy_from_slice (copy_from_slice out 0 pt) n (padding pt) ≡ (pt ++ padding pt) ++ c =
      ap (λ z. copy_from_slice (copy_from_slice z 0 pt) n (padding pt)) cut
      ∙ ap (λ z. copy_from_slice z n (padding pt)) first
      ∙ second
      ∙ sym (append_assoc pt (padding pt) c) in
    rw room (ap (take m) both ∙ take-append m (pt ++ padding pt) c (length_padded pt), refl)

seal_parts :
    (p : Primitives) (key iv pt a b c d : List ℕ)
    → IsCipher p
    → length iv ≡ 16
    → length a ≡ 16
    → length b ≡ length pt + pad_of (length pt)
    → length c ≡ 32
    → seal_filled p key iv
        (length pt + pad_of (length pt))
        (copy_from_slice (copy_from_slice (a ++ (b ++ (c ++ d))) 0 iv) 16 (pt ++ padding pt))
      ≡ token_of p key iv pt ++ d
seal_parts p key iv pt a b c d v hi ha hb hc =
    ap
      (λ z.
        seal_filled p key iv (length pt + pad_of (length pt))
          (copy_from_slice z 16 (pt ++ padding pt)))
      (copy_from_slice-append 0 [] a iv (b ++ (c ++ d)) refl (omega arith))
    ∙ ap (seal_filled p key iv (length pt + pad_of (length pt)))
        (copy_from_slice-append 16 iv b (pt ++ padding pt) (c ++ d) hi (length_padded pt ∙ sym hb))
    ∙ seal_filled_parts p key iv pt c d v hi hc
    ∙ token_fields p key iv pt d

seal_lem :
    (p : Primitives) (key iv out pt padded : List ℕ)
    → IsCipher p
    → length iv ≡ 16
    → token_len pt ≤ length out
    → take (length pt + pad_of (length pt)) padded ≡ pt ++ padding pt
    → seal p key iv out (padded, ok (length pt + pad_of (length pt)))
      ≡ (token_of p key iv pt ++ drop (token_len pt) out, ok (token_len pt))
seal_lem p key iv out pt padded v hi fits e =
    let m : ℕ = length pt + pad_of (length pt) in
    let room : ltb (length out) (16 + m + 32) ≡ false = ground arith in
    let a : List ℕ = take 16 out in
    let behind : List ℕ = drop 16 out in
    let b : List ℕ = take m behind in
    let last : List ℕ = drop m behind in
    let c : List ℕ = take 32 last in
    let d : List ℕ = drop 32 last in
    let size_behind = length-drop 16 out in
    let cut : out ≡ a ++ (b ++ (c ++ d)) =
      sym (take-append-drop 16 out)
      ∙ ap (a ++◌) (sym (take-append-drop m behind))
      ∙ ap (λ z. a ++ (b ++ z)) (sym (take-append-drop 32 last)) in
    let dropped : d ≡ drop (token_len pt) out =
      drop-drop m 32 (m + 32) behind refl
      ∙ drop-drop 16 (m + 32) (m + token_overhead) out (omega arith) in
    let total : 16 + m + 32 ≡ token_len pt = omega arith in
    let written =
      ap
        (λ z.
          seal_filled p key iv m (copy_from_slice (copy_from_slice z 0 iv) 16 (pt ++ padding pt)))
        cut
      ∙ seal_parts p key iv pt a b c d v hi (omega (arith, length-take 16 out))
          (omega (arith, length-take m behind, size_behind))
          (omega (arith, length-take 32 last, length-drop m behind, size_behind))
      ∙ ap (token_of p key iv pt ++◌) dropped in
    rw room (rw e (ap₂ (λ x y. (x, y)) written (ap ok total)))

-- With room for it, encryption by copy leaves the token in front of the rest of the output.
pub token_encrypt_lem :
    (p : Primitives) (pad_max : ℕ) (key iv out pt : List ℕ)
    → IsCipher p
    → length iv ≡ 16
    → length pt + pad_of (length pt) ≤ pad_max
    → token_len pt ≤ length out
    → token_encrypt p pad_max pt key iv out
      ≡ (token_of p key iv pt ++ drop (token_len pt) out, ok (token_len pt))
unfolding token_encrypt
token_encrypt_lem p pad_max key iv out pt v hi hp fits =
    let r = pkcs7_pad pt (replicate pad_max 0) in
    let (bytes, count) =
      pkcs7_pad_lem pt (replicate pad_max 0) (omega (arith, length-replicate {A = ℕ} pad_max 0)) in
    ap (λ c. seal p key iv out (r.0, c)) count ∙ seal_lem p key iv out pt r.0 v hi fits bytes
