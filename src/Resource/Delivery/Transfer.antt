-- ===== src/Resource/Delivery/Transfer.antt =====
-- Transfers of src/resource.rs from end to end: parts arrive in any order, some of them not, some
-- of them twice.
use rs_reticulum_lite.Prelude.{
  ℕ, zero, suc, ◌+◌, ◌≤◌, ◌<◌, ◌≡◌, refl, sym, ap, subst, ◌∙◌, Option, none, some, List, [], ◌∷◌,
  ◌++◌, true, leb, ==_iff, length, arith, Bool-cases, inl, inr, lt→leb,
}
use rs_reticulum_lite.Prelude.Result.{Result, ok, ok_injective}
use rs_reticulum_lite.Crypto.{Primitives}
use rs_reticulum_lite.Crypto.Token.Form.{IsCipher, token_of}
use rs_reticulum_lite.Resource.{
  ResourceError, compute_resource_hash, compute_expected_proof, hash_pair,
}
use rs_reticulum_lite.Resource.Outbound.{OutboundResource, part, part_of, build, advertisement}
use rs_reticulum_lite.Resource.Outbound.Built.{IsBuilt, Built, build-Built}
use rs_reticulum_lite.Resource.Window
use rs_reticulum_lite.Resource.Inbound.{
  InboundResource, receive_part, is_complete, from_advertisement, assemble, data_of, build_proof,
}
use rs_reticulum_lite.Resource.Inbound.Run.{
  IsGathering, Kept, Kept_refl, Kept_trans, receive_part-Arrived, deliver, deliver_all, in_order,
}
use rs_reticulum_lite.Resource.Delivery.{IsHash}
use rs_reticulum_lite.Resource.Delivery.Start
use rs_reticulum_lite.Resource.Delivery.Finish.{assemble-IsAssembled, Proved, build_proof-Proved}

-- The receiver after the sender's parts with the given indices have arrived; an index beyond the
-- parts sends nothing.
abbrev pub arrive : (List ℕ → List ℕ) → InboundResource → Option (List ℕ) → InboundResource
arrive sha256 s none = s
arrive sha256 s (some x) = (receive_part sha256 s x).0

unfoldable pub transfer :
    (List ℕ → List ℕ) → OutboundResource → InboundResource → List ℕ → InboundResource
transfer sha256 r s [] = s
transfer sha256 r s (j ∷ js) = transfer sha256 r (arrive sha256 s (part r j)) js

-- A sender and a receiver in the same transfer.
record IsMatched (sha256 : List ℕ → List ℕ) (r : OutboundResource) (s : InboundResource)
    (blob : List ℕ) : Type 0 where
  gathering : IsGathering sha256 s blob
  count : s.num_parts ≡ r.num_parts
  same_part : (i : ℕ) → i < r.num_parts → part r i ≡ some (part_of blob (length blob) i)

part-none : (r : OutboundResource) (j : ℕ) → leb r.num_parts j ≡ true → part r j ≡ none
unfolding part
part-none r j h = rw h refl

part-some :
    (r : OutboundResource) (j : ℕ)
    → j < r.num_parts
    → part r j ≡ some (part_of r.buf r.total_size j)
unfolding part
part-some r j h = rw (lt→leb r.num_parts j h) refl

arrive-IsMatched :
    (sha256 : List ℕ → List ℕ) (r : OutboundResource) (s : InboundResource) (blob : List ℕ) (j : ℕ)
    → IsMatched sha256 r s blob
    → IsMatched sha256 r (arrive sha256 s (part r j)) blob × Kept s (arrive sha256 s (part r j))
arrive-IsMatched sha256 r s blob j m = elim (Bool-cases (leb r.num_parts j)) [
  | inl t ↦ rw (part-none r j t) (m, Kept_refl s)
  | inr f ↦
      let h : j < r.num_parts = ground arith in
      let a = receive_part-Arrived sha256 s blob j m.gathering (omega (arith, m.count)) in
      rw (m.same_part j h) (
        record {
          gathering = a.gathering;
          count = a.kept.num_parts ∙ m.count;
          same_part = m.same_part;
        },
        a.kept,
      )
]

transfer-IsMatched :
    (sha256 : List ℕ → List ℕ) (r : OutboundResource) (s : InboundResource) (blob js : List ℕ)
    → IsMatched sha256 r s blob
    → IsMatched sha256 r (transfer sha256 r s js) blob × Kept s (transfer sha256 r s js)
unfolding transfer
transfer-IsMatched sha256 r s blob [] m = (m, Kept_refl s)
transfer-IsMatched sha256 r s blob (j ∷ js) m =
    let t : InboundResource = arrive sha256 s (part r j) in
    let (n, k) = arrive-IsMatched sha256 r s blob j m in
    let (o, l) = transfer-IsMatched sha256 r t blob js n in
    (o, Kept_trans s t (transfer sha256 r t js) k l)

-- In order, the transfer is the delivery of the parts of the ciphertext.
transfer-deliver :
    (sha256 : List ℕ → List ℕ) (r : OutboundResource) (s : InboundResource) (blob : List ℕ)
    (i n : ℕ)
    → ((k : ℕ) → k < r.num_parts → part r k ≡ some (part_of blob (length blob) k))
    → i + n ≤ r.num_parts
    → transfer sha256 r s (in_order i n) ≡ deliver sha256 s blob (in_order i n)
unfolding transfer deliver
transfer-deliver sha256 r s blob i zero same h = refl
transfer-deliver sha256 r s blob i (suc n) same h =
    ap (λ o. transfer sha256 r (arrive sha256 s o) (in_order (i + 1) n)) (same i (omega arith))
    ∙ transfer-deliver sha256 r (receive_part sha256 s (part_of blob (length blob) i)).0 blob
        (i + 1) n same (omega arith)

-- The receiver of the advertisement of what was built is matched with the sender.
record Begun (sha256 : List ℕ → List ℕ) (p : Primitives) (bytes key random_hash iv : List ℕ)
    (r : OutboundResource) (s : InboundResource) : Type 0 where
  matched : IsMatched sha256 r s (token_of p key iv (random_hash ++ bytes))
  tag : s.random_hash ≡ random_hash
  identity : s.resource_hash ≡ r.resource_hash
  window : s.window ≡ Window.new

begun :
    (sha256 : List ℕ → List ℕ) (p : Primitives) (bytes key random_hash iv : List ℕ)
    (r : OutboundResource) (s : InboundResource)
    → IsHash sha256
    → IsCipher p
    → length iv ≡ 16
    → length random_hash ≡ 4
    → IsBuilt sha256 p bytes key random_hash iv r
    → from_advertisement (advertisement r) ≡ ok s
    → Begun sha256 p bytes key random_hash iv r s
unfolding advertisement
begun sha256 p bytes key random_hash iv r s sha c hi hr b e =
    let same : Start.receiver sha256 p bytes key random_hash iv r b hr hi c sha ≡ s =
      ok_injective _ s (
        sym
          (Start.from_advertisement-advertisement sha256 p bytes key random_hash iv r b hr hi c sha)
        ∙ e) in
    subst (λ z. Begun sha256 p bytes key random_hash iv r z) same
      record {
        matched = record {
          gathering = Start.receiver-IsGathering sha256 p bytes key random_hash iv r b hr hi c sha;
          count = sym b.parts;
          same_part = λ i h.
              part-some r i h
              ∙ ap some (Start.part_of-token sha256 p bytes key random_hash iv r b hr hi c sha i h);
        };
        tag = b.tag;
        identity = refl;
        window = refl;
      }

built :
    (sha256 : List ℕ → List ℕ) (p : Primitives) (bytes key random_hash iv : List ℕ)
    (r : OutboundResource)
    → IsCipher p
    → length iv ≡ 16
    → length random_hash ≡ 4
    → build sha256 p bytes key random_hash iv ≡ ok r
    → IsBuilt sha256 p bytes key random_hash iv r
built sha256 p bytes key random_hash iv r c hi hr e =
    subst (Built sha256 p bytes key random_hash iv) e
      (build-Built sha256 p bytes key random_hash iv c hi hr)

-- What the receiver ends with: the payload, its length, and a proof that the sender validates.
abbrev pub IsReceived :
    OutboundResource → List ℕ → List ℕ → InboundResource × Result ResourceError ℕ → Type 0
IsReceived r bytes out (s, reported) =
    (reported ≡ ok (length bytes)) × (data_of s ≡ some bytes) × Proved r (build_proof s out)

-- A hash of 32 bytes, a cipher that undoes itself, a tag of four bytes and an IV of 16 given: what a
-- sender has built and a receiver accepted, is received whole, whatever parts arrive in whatever
-- order and however often, as soon as the receiver counts itself complete. `assemble` then reports
-- the length of the payload, `data` returns it, and the proof written to an output of 64 bytes is
-- the one that the sender validates.
pub assemble-transfer :
    (sha256 : List ℕ → List ℕ) (p : Primitives) (bytes key random_hash iv : List ℕ)
    (r : OutboundResource) (s : InboundResource) (js out : List ℕ)
    → IsHash sha256
    → IsCipher p
    → length iv ≡ 16
    → length random_hash ≡ 4
    → build sha256 p bytes key random_hash iv ≡ ok r
    → from_advertisement (advertisement r) ≡ ok s
    → is_complete (transfer sha256 r s js) ≡ true
    → 64 ≤ length out
    → IsReceived r bytes out (assemble sha256 p (transfer sha256 r s js) key)
unfolding compute_resource_hash compute_expected_proof hash_pair
assemble-transfer sha256 p bytes key random_hash iv r s js out sha c hi hr e accepted done room =
    let b = built sha256 p bytes key random_hash iv r c hi hr e in
    let begin = begun sha256 p bytes key random_hash iv r s sha c hi hr b accepted in
    let t : InboundResource = transfer sha256 r s js in
    let (m, k) =
      transfer-IsMatched sha256 r s (token_of p key iv (random_hash ++ bytes)) js begin.matched in
    let identity : t.resource_hash ≡ r.resource_hash = k.resource_hash ∙ begin.identity in
    let a =
      assemble-IsAssembled sha256 p t bytes key random_hash iv c hi hr m.gathering done
        (k.random_hash ∙ begin.tag) (identity ∙ b.identity) in
    let proof = a.proof ∙ ap (compute_expected_proof sha256 bytes) identity ∙ sym b.proof in
    (
      a.reported,
      a.payload,
      build_proof-Proved sha256 bytes r t (assemble sha256 p t key).0 out sha a.state
          (a.identity ∙ identity) proof
          (ap length b.identity ∙ sha.length-sha256 (bytes ++ random_hash))
          (ap length b.proof ∙ sha.length-sha256 (bytes ++ r.resource_hash)) room,
    )

-- Under the same conditions, a receiver accepts the advertisement of what was built, and the parts
-- sent once each in ascending order complete it.
pub transfer_completes :
    (sha256 : List ℕ → List ℕ) (p : Primitives) (bytes key random_hash iv : List ℕ)
    (r : OutboundResource)
    → IsHash sha256
    → IsCipher p
    → length iv ≡ 16
    → length random_hash ≡ 4
    → build sha256 p bytes key random_hash iv ≡ ok r
    → (s : InboundResource) × (from_advertisement (advertisement r) ≡ ok s)
      × (is_complete (transfer sha256 r s (in_order 0 r.num_parts)) ≡ true)
unfolding is_complete
transfer_completes sha256 p bytes key random_hash iv r sha c hi hr e =
    let b = built sha256 p bytes key random_hash iv r c hi hr e in
    let blob : List ℕ = token_of p key iv (random_hash ++ bytes) in
    let s : InboundResource = Start.receiver sha256 p bytes key random_hash iv r b hr hi c sha in
    let accepted =
      Start.from_advertisement-advertisement sha256 p bytes key random_hash iv r b hr hi c sha in
    let begin = begun sha256 p bytes key random_hash iv r s sha c hi hr b accepted in
    let same =
      transfer-deliver sha256 r s blob 0 r.num_parts begin.matched.same_part (omega arith) in
    let (m, k) = transfer-IsMatched sha256 r s blob (in_order 0 r.num_parts) begin.matched in
    let count = begin.matched.count in
    let wide : 1 ≤ s.window.window = omega (arith, Window.Laws.new-IsValid.some_parts) in
    let full : (transfer sha256 r s (in_order 0 r.num_parts)).consecutive_completed ≡ s.num_parts =
      ap (λ z. z.consecutive_completed) same
      ∙ ap (λ n. (deliver sha256 s blob (in_order 0 n)).consecutive_completed) (sym count)
      ∙ deliver_all sha256 s blob begin.matched.gathering wide in
    (s, accepted, (==_iff _ _).1 (full ∙ sym k.num_parts))
