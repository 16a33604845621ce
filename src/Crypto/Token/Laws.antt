-- ===== src/Crypto/Token/Laws.antt =====
-- Laws of the Token of src/crypto.rs.
use rs_reticulum_lite.Prelude.{
  ℕ, ◌+◌, ◌-◌, ◌%◌, ◌≤◌, ◌≡◌, refl, ap, ◌∙◌, sym, List, ◌++◌, arith, length, take, drop,
  take-append, drop-append, length-take, length-drop, true, not, ◌||◌, ltb, ◌==◌, Bool-cases, inl,
  inr, append_assoc,
}
use rs_reticulum_lite.Prelude.Words.{u64_max}
use rs_reticulum_lite.Prelude.Bytes.{eq_of_bytes_eq}
use rs_reticulum_lite.Prelude.Result.{Result, ok, err}
use rs_reticulum_lite.Crypto.{Primitives, CryptoError, token_overhead}
use rs_reticulum_lite.Crypto.Token.{
  pad_of, pkcs7_unpad, token_encrypt_in_place, is_authentic, token_decrypt_in_place, token_encrypt,
  token_decrypt, strip_into,
}
use rs_reticulum_lite.Crypto.Token.Form.{
  IsCipher, padding, tag_of, token_of, token_len, length-token_of,
}
use rs_reticulum_lite.Crypto.Token.Write.{token_encrypt_in_place_lem, token_encrypt_lem}
use rs_reticulum_lite.Crypto.Token.Read.{
  IsPadded, Unpadded, pkcs7_unpad-Unpadded, token_decrypt_in_place-token_of,
}

-- That `n` bytes of plaintext stand at 16 in a buffer, next to the result that reports them.
abbrev pub Opened : List ℕ → List ℕ × Result CryptoError ℕ → Type 0
Opened pt (buf, r) = (r ≡ ok (length pt)) × (take (length pt) (drop 16 buf) ≡ pt)

-- A cipher that undoes itself given, a token encrypted in place with an IV of 16 bytes, where the
-- buffer has room for it, is decrypted in place to the same bytes, at the same offset.
pub token_decrypt_in_place-token_encrypt_in_place :
    (p : Primitives) (key iv buf : List ℕ) (n : ℕ)
    → IsCipher p
    → length iv ≡ 16
    → n + pad_of n + token_overhead ≤ length buf
    → length buf ≤ u64_max
    → Opened (take n (drop 16 buf)) (
        token_decrypt_in_place p key
          (take (n + pad_of n + token_overhead) (token_encrypt_in_place p key iv buf n).0))
token_decrypt_in_place-token_encrypt_in_place p key iv buf n v hi fits most =
    let pt : List ℕ = take n (drop 16 buf) in
    let size : length pt ≡ n = omega (arith, length-take n (drop 16 buf), length-drop 16 buf) in
    let total : ℕ = n + pad_of n + token_overhead in
    let token : take total (token_encrypt_in_place p key iv buf n).0 ≡ token_of p key iv pt =
      ap (λ r. take total r.0) (token_encrypt_in_place_lem p key iv buf n v hi fits most)
      ∙ take-append total (token_of p key iv pt) (drop total buf)
          (length-token_of p key iv pt v hi ∙ ap (λ k. k + pad_of k + token_overhead) size) in
    let shape = append_assoc pt (padding pt) (tag_of p key iv pt) in
    rw (token, token_decrypt_in_place-token_of p key iv pt v hi)
      (
        refl,
        ap (take (length pt))
              (drop-append 16 iv ((pt ++ padding pt) ++ tag_of p key iv pt) hi ∙ shape)
            ∙ take-append (length pt) pt (padding pt ++ tag_of p key iv pt) refl,
      )

-- A cipher that keeps lengths given, the two encryptions write the same token for the same
-- plaintext, where their outputs, the stack array of the one, and a usize have room for it.
pub token_encrypt-token_encrypt_in_place :
    (p : Primitives) (pad_max : ℕ) (key iv buf out : List ℕ) (n : ℕ)
    → IsCipher p
    → length iv ≡ 16
    → n + pad_of n ≤ pad_max
    → n + pad_of n + token_overhead ≤ length buf
    → length buf ≤ u64_max
    → n + pad_of n + token_overhead ≤ length out
    → (take
          (n + pad_of n + token_overhead)
          (token_encrypt p pad_max (take n (drop 16 buf)) key iv out).0
        ≡ take (n + pad_of n + token_overhead) (token_encrypt_in_place p key iv buf n).0)
      × ((token_encrypt p pad_max (take n (drop 16 buf)) key iv out).1
          ≡ (token_encrypt_in_place p key iv buf n).1)
token_encrypt-token_encrypt_in_place p pad_max key iv buf out n v hi hp fits most room =
    let pt : List ℕ = take n (drop 16 buf) in
    let size : length pt ≡ n = omega (arith, length-take n (drop 16 buf), length-drop 16 buf) in
    let total : ℕ = n + pad_of n + token_overhead in
    let long : token_len pt ≡ total = ap (λ k. k + pad_of k + token_overhead) size in
    let whole = length-token_of p key iv pt v hi ∙ long in
    let copied = token_encrypt_lem p pad_max key iv out pt v hi (rw size hp) (rw size room) in
    let placed = token_encrypt_in_place_lem p key iv buf n v hi fits most in
    (
      ap (λ r. take total r.0) copied
          ∙ take-append total (token_of p key iv pt) (drop (token_len pt) out) whole
          ∙ sym (take-append total (token_of p key iv pt) (drop total buf) whole)
          ∙ sym (ap (λ r. take total r.0) placed),
      ap (λ r. r.1) copied ∙ ap ok long ∙ sym (ap (λ r. r.1) placed),
    )

-- The output `o` of a decryption of `n` bytes: the tag signs what precedes it, the ciphertext is that
-- of a padded plaintext of `n` bytes, and the plaintext stands in front of the rest of `out`.
pub record IsOpened (p : Primitives) (token key out o : List ℕ) (n : ℕ) : Type 0 where
  pub long : 64 ≤ length token
  pub signed :
      p.hmac (take 32 key) (take (length token - 32) token) ≡ drop (length token - 32) token
  pub plaintext : List ℕ
  pub padded :
      IsPadded
        (p.aes_decrypt (drop 32 key) (take 16 token) (drop 16 (take (length token - 32) token)))
        plaintext
  pub count : length plaintext ≡ n
  pub fits : n ≤ length out
  pub written : o ≡ plaintext ++ drop n out

-- What `token_decrypt` leaves: nothing changed on an error, and an opened token on success.
abbrev pub Guarded : Primitives → List ℕ → List ℕ → List ℕ → List ℕ × Result CryptoError ℕ → Type 0
Guarded p token key out (o, err e) = o ≡ out
Guarded p token key out (o, ok n) = IsOpened p token key out o n

strip_into-Guarded :
    (p : Primitives) (token key out : List ℕ) (r : Result CryptoError (List ℕ))
    → is_authentic p key token ≡ true
    → 64 ≤ length token
    → Unpadded
        (p.aes_decrypt (drop 32 key) (take 16 token) (drop 16 (take (length token - 32) token)))
        r
    → Guarded p token key out (strip_into out r)
unfolding is_authentic
strip_into-Guarded p token key out (err e) h enough u = refl
strip_into-Guarded p token key out (ok pt) h enough u =
    let end : 0 + length pt ≡ length pt = omega arith in
    elim (Bool-cases (ltb (length out) (length pt))) [
      | inl t ↦ rw t refl
      | inr f ↦ rw f record {
        long = enough;
        signed = eq_of_bytes_eq _ _ h;
        plaintext = pt;
        padded = u;
        count = refl;
        fits = ground arith;
        written = ap (λ k. pt ++ drop k out) end;
      }
    ]

-- Whatever the cipher, `token_decrypt` changes nothing where it fails, and where it succeeds, the
-- token has at least 64 bytes, its tag is the one of what precedes it, its ciphertext decrypts to a
-- plaintext with 1 to 16 bytes of padding that each tell their number, and the output holds that
-- plaintext, of the length reported, with its other bytes unchanged behind it.
pub token_decrypt-Guarded :
    (p : Primitives) (pad_max : ℕ) (token key out : List ℕ)
    → Guarded p token key out (token_decrypt p pad_max token key out)
unfolding token_decrypt
token_decrypt-Guarded p pad_max token key out =
    let ciphertext : List ℕ = drop 16 (take (length token - 32) token) in
    elim (Bool-cases (ltb (length token) 64)) [
      | inl t ↦ rw t refl
      | inr a ↦ elim (Bool-cases (is_authentic p key token)) [
        | inr f ↦ rw (a, f) refl
        | inl b ↦
            elim (Bool-cases (
              length ciphertext == 0
              || (not (length ciphertext % 16 == 0) || ltb pad_max (length ciphertext)))) [
                | inl t ↦ rw (a, b, t) refl
                | inr c ↦
                    let plain : List ℕ = p.aes_decrypt (drop 32 key) (take 16 token) ciphertext in
                    rw (a, b, c)
                      (strip_into-Guarded p token key out (pkcs7_unpad plain) b (ground arith)
                        (pkcs7_unpad-Unpadded plain))
              ]
      ]
    ]
