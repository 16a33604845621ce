-- ===== src/Link/Laws.antt =====
-- Laws of the link handshake of src/link.rs.
use rs_reticulum_lite.Prelude.{
  ℕ, ◌+◌, ◌≤◌, ◌≡◌, refl, ap, ap₂, subst, sym, ◌∙◌, inl, inr, List, [], ◌∷◌, ◌++◌, true, false, not,
  ◌&&◌, if◌then◌else◌, ◌==◌, ltb, leb, length, none, some, take, drop, arith, Bool-cases,
  take-append, drop-append, length-append, append_assoc,
}
use rs_reticulum_lite.Prelude.Bytes.{to_be_bytes}
use rs_reticulum_lite.Prelude.Result.{Result, ok, err, ◌>>=◌}
use rs_reticulum_lite.PacketBuffer.{copy_from_slice}
use rs_reticulum_lite.PacketBuffer.Laws.{take-copy_from_slice}
use rs_reticulum_lite.Crypto.{Primitives}
use rs_reticulum_lite.Link.{
  Signatures, LocalIdentity, LinkError, invalid_mtu, mtu_bytemask, signalling_new, SignallingData,
  LinkProofView, default_mtu, mode_aes256_cbc, try_new, effective_mtu, fixed_endpoint,
  default_signalling, parse_link_proof, pack_signalling, unpack_signalling, signalling_of,
  proof_signed, validate_link_proof, build_link_proof, build_proof_signalled,
}

-- What the endpoint's check lets through: its own signalling.
abbrev pub IsDefault : Result LinkError SignallingData → Type 0
IsDefault (err e) = Unit
IsDefault (ok s) = s ≡ default_signalling

abbrev based : Result LinkError SignallingData → Result LinkError SignallingData
based r = r >>= λ checked. if not (checked.mtu == default_mtu) then err invalid_mtu else ok checked

based-IsDefault : (mode mtu : ℕ) → mode ≡ 1 → IsDefault (based (try_new mode mtu))
unfolding try_new effective_mtu default_signalling signalling_new
based-IsDefault mode mtu m =
    let low : ltb 7 mode ≡ false = ground arith in
    elim (Bool-cases (mtu == 0)) [
      | inl z ↦ rw (low, z) (ap (λ n. record { mode = n; mtu = 500 }) m)
      | inr z ↦ elim (Bool-cases (leb 500 mtu && leb mtu mtu_bytemask)) [
        | inr f ↦ rw (low, z, f) tt
        | inl t ↦ elim (Bool-cases (mtu == 500)) [
          | inr f ↦ rw (low, z, t, f) tt
          | inl e ↦
              let full : mtu ≡ 500 = ground arith in
              rw (low, z, t, e) (ap₂ (λ a b. record { mode = a; mtu = b }) m full)
        ]
      ]
    ]

-- Whatever `fixed_endpoint` lets through has become the endpoint's own signalling.
fixed_endpoint-IsDefault : (s : SignallingData) → IsDefault (fixed_endpoint s)
unfolding fixed_endpoint
fixed_endpoint-IsDefault s = elim (Bool-cases (s.mode == mode_aes256_cbc)) [
  | inr f ↦ rw f tt
  | inl t ↦ let mode : s.mode ≡ 1 = ground arith in rw t (based-IsDefault s.mode s.mtu mode)
]

-- What the code relies on: a signature has 64 bytes and the public key verifies it.
pub record IsSigner (g : Signatures) (identity : LocalIdentity) : Type 0 where
  pub length-sign : (bytes : List ℕ) → length (g.sign identity.seed bytes) ≡ 64
  pub verify-sign :
      (bytes : List ℕ)
      → g.verify (drop 32 identity.public_key) bytes (g.sign identity.seed bytes) ≡ true

packed : pack_signalling default_signalling ≡ 0x20 ∷ (0x01 ∷ (0xf4 ∷ []))
unfolding pack_signalling default_signalling signalling_new to_be_bytes
packed = refl

unpacked : unpack_signalling (0x20 ∷ (0x01 ∷ (0xf4 ∷ []))) ≡ some default_signalling
unfolding unpack_signalling default_signalling signalling_new
unpacked = refl

reread : signalling_of true (pack_signalling default_signalling) ≡ default_signalling
reread =
    ap (λ o. elim o as (λ x. SignallingData) [ none ↦ default_signalling | some s ↦ s ])
      (ap unpack_signalling packed ∙ unpacked)

fixed_default : fixed_endpoint default_signalling ≡ ok default_signalling
unfolding fixed_endpoint try_new effective_mtu default_signalling signalling_new
fixed_default = refl

length-signed :
    (signature x25519_pub : List ℕ)
    → length signature ≡ 64
    → length x25519_pub ≡ 32
    → length (signature ++ (x25519_pub ++ pack_signalling default_signalling)) ≡ 99
length-signed signature x25519_pub hs hx =
    let trailer : List ℕ = pack_signalling default_signalling in
    let three : length trailer ≡ 3 = ap length packed in
    omega (
      arith,
      hs,
      hx,
      three,
      length-append signature (x25519_pub ++ trailer),
      length-append x25519_pub trailer,
    )

parse_link_proof-signed :
    (signature x25519_pub : List ℕ)
    → length signature ≡ 64
    → length x25519_pub ≡ 32
    → parse_link_proof (signature ++ (x25519_pub ++ pack_signalling default_signalling))
      ≡ ok (record {
        signature = signature;
        responder_x25519_pub = x25519_pub;
        signalling = default_signalling;
        signalling_present = true;
      })
unfolding parse_link_proof effective_mtu default_signalling signalling_new
parse_link_proof-signed signature x25519_pub hs hx =
    let trailer : List ℕ = pack_signalling default_signalling in
    let bytes : List ℕ = signature ++ (x25519_pub ++ trailer) in
    let keys : length (signature ++ x25519_pub) ≡ 96 =
      omega (arith, hs, hx, length-append signature x25519_pub) in
    let whole : length bytes ≡ 99 = length-signed signature x25519_pub hs hx in
    let end : drop 96 bytes ≡ trailer =
      ap (drop 96) (sym (append_assoc signature x25519_pub trailer))
      ∙ drop-append 96 (signature ++ x25519_pub) trailer keys in
    let key : take 32 (drop 64 bytes) ≡ x25519_pub =
      ap (take 32) (drop-append 64 signature (x25519_pub ++ trailer) hs)
      ∙ take-append 32 x25519_pub trailer hx in
    rw (whole, end, reread, key, take-append 64 signature (x25519_pub ++ trailer) hs) refl

module _ (g : Signatures) (p : Primitives) (identity : LocalIdentity) (priv link_id : List ℕ) where
  -- What the initiator reads of the responder's proof.
  abbrev pub proof_view : LinkProofView
  proof_view =
      let x25519_pub : List ℕ = p.x25519_public priv in
      record {
        signature = g.sign identity.seed (
            proof_signed link_id x25519_pub (drop 32 identity.public_key)
              (pack_signalling default_signalling));
        responder_x25519_pub = x25519_pub;
        signalling = default_signalling;
        signalling_present = true;
      }

  -- A signing pair given, the proof that a responder writes, for a signalling that the endpoint
  -- admits and with 99 bytes of room, is parsed by the initiator, which finds the responder's key in
  -- it and accepts the proof under the responder's identity and the same link.
  pub validate_link_proof-build_link_proof :
      (s t : SignallingData) (out : List ℕ)
      → IsSigner g identity
      → length (p.x25519_public priv) ≡ 32
      → fixed_endpoint s ≡ ok t
      → 99 ≤ length out
      → ((build_link_proof g p identity priv link_id s out).1 ≡ ok 99)
        × (parse_link_proof (take 99 (build_link_proof g p identity priv link_id s out).0)
            ≡ ok proof_view)
        × (validate_link_proof g proof_view identity.public_key link_id ≡ true)
  unfolding build_link_proof validate_link_proof
  validate_link_proof-build_link_proof s t out v hx h room =
      let t_default : t ≡ default_signalling = subst IsDefault h (fixed_endpoint-IsDefault s) in
      let view : LinkProofView = proof_view in
      let bytes : List ℕ =
        view.signature ++ (view.responder_x25519_pub ++ pack_signalling default_signalling) in
      let read =
        parse_link_proof-signed view.signature (p.x25519_public priv) (v.length-sign _) hx in
      let fits : ltb (length out) 99 ≡ false = ground arith in
      let built : build_proof_signalled g p identity priv link_id out (fixed_endpoint s)
          ≡ (copy_from_slice out 0 bytes, ok 99) =
        ap (build_proof_signalled g p identity priv link_id out) (h ∙ ap ok t_default)
        ∙ rw fits refl in
      let whole = length-signed view.signature (p.x25519_public priv) (v.length-sign _) hx in
      let total : 99 ≡ 0 + length bytes = omega (arith, whole) in
      (
        ap (λ r. r.1) built,
        ap (λ r. parse_link_proof (take 99 r.0)) built
            ∙ ap (λ n. parse_link_proof (take n (copy_from_slice out 0 bytes))) total
            ∙ ap parse_link_proof (take-copy_from_slice out 0 bytes (omega arith))
            ∙ read,
        rw (validate_link_proof, fixed_default) (v.verify-sign _),
      )
