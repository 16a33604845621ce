-- ===== src/Announce/State/Laws.antt =====
-- The order of the announces of src/announce_state.rs, and its stored form.
use rs_reticulum_lite.Prelude.{
  ℕ, ◌+◌, ◌≤◌, ◌<◌, ◌≡◌, refl, ap, subst, ◌∙◌, List, [], ◌∷◌, ◌++◌, Option, none, some, true, false,
  is_some_and, ltb, leb, inl, inr, arith, Bool-cases, if◌then◌else◌, length, take, drop,
  length-drop, take_all, suc, take-append,
}
use rs_reticulum_lite.Prelude.Words.{u64_max}
use rs_reticulum_lite.Prelude.Bytes.{
  to_be_bytes, from_be_bytes, from_be-to_be_bytes, length-to_be_bytes,
}
use rs_reticulum_lite.Prelude.Result.{Result, ok, err}
use rs_reticulum_lite.Announce.State.{
  AnnounceWireState, AnnounceWireError, exhausted, announce_time_max, prepare_next, candidate,
  next_logical, commit_prepared, commit_value, Committed, serialize_into, deserialize,
}

-- The value is one of 40 bits.
abbrev pub InRange : Option ℕ → Type 0
InRange none = Unit
InRange (some v) = v ≤ announce_time_max

abbrev pub After : Option ℕ → ℕ → Type 0
After none v = Unit
After (some last) v = last < v

-- The next value to announce, by the wall clock where there is one.
abbrev pub wanted : Option ℕ → Option ℕ → ℕ
wanted last (some now) = now
wanted none none = 0
wanted (some l) none = l + 1

-- What `prepare_next` returns: a candidate of the wanted value, which has 40 bits and lies after the
-- last value; no candidate where the wall clock has not advanced; an error where the values end.
abbrev pub Planned :
    Option ℕ → Option ℕ → Result AnnounceWireError (Option AnnounceWireState) → Type 0
Planned last wall (ok (some c)) =
    (c ≡ record { last_value = some (wanted last wall) })
    × (wanted last wall ≤ announce_time_max)
    × After last (wanted last wall)
Planned last wall (ok none) = (now : ℕ) × (l : ℕ) × (wall ≡ some now) × (last ≡ some l) × (now ≤ l)
Planned last wall (err e) = (e ≡ exhausted) × (announce_time_max < wanted last wall)

Planned-wall :
    (last : Option ℕ) (now : ℕ)
    → now ≤ announce_time_max
    → Planned last (some now) (if is_some_and (λ l. leb now l) last then ok none else candidate now)
Planned-wall none now h = (refl, h, tt)
Planned-wall (some l) now h = elim (Bool-cases (leb now l)) [
  | inl t ↦ rw t (now, l, refl, refl, ground arith)
  | inr f ↦ rw f (refl, h, ground arith)
]

Planned-logical : (last : Option ℕ) → InRange last → Planned last none (next_logical last)
Planned-logical none h = (refl, omega arith, tt)
Planned-logical (some l) h =
    let fits : leb (l + 1) u64_max ≡ true = ground arith in
    elim (Bool-cases (leb (l + 1) announce_time_max)) [
      | inl t ↦ rw (fits, t) (refl, ground arith, omega arith)
      | inr f ↦ rw (fits, f) (refl, ground arith)
    ]

-- From a state of 40 bits, `prepare_next` plans the wall value or the next logical one, which lies
-- after the last; it defers a wall value that does not, and fails exactly beyond 40 bits.
pub prepare_next-Planned :
    (s : AnnounceWireState) (wall : Option ℕ)
    → InRange s.last_value
    → Planned s.last_value wall (prepare_next s wall)
unfolding prepare_next
prepare_next-Planned s none h = Planned-logical s.last_value h
prepare_next-Planned s (some now) h = elim (Bool-cases (ltb announce_time_max now)) [
  | inl t ↦ rw t (refl, ground arith)
  | inr f ↦ rw f (Planned-wall s.last_value now (ground arith))
]

commit_value-After :
    (s : AnnounceWireState) (v : ℕ)
    → After s.last_value v
    → commit_value s (some v) ≡ (record { last_value = some v }, ok v)
commit_value-After s v h = rw (advances s.last_value h) refl
  where
    advances : (last : Option ℕ) → After last v → is_some_and (λ l. leb v l) last ≡ false
    advances none h = refl
    advances (some l) h = ground arith

-- One announce: the candidate is planned, stored and committed, and its value goes on the wire.
abbrev pub value_of : Committed → AnnounceWireState × Option ℕ
value_of (after, ok v) = (after, some v)
value_of (after, err e) = (after, none)

abbrev pub emit_planned :
    AnnounceWireState
    → Result AnnounceWireError (Option AnnounceWireState)
    → AnnounceWireState × Option ℕ
emit_planned s (ok (some c)) = value_of (commit_prepared s c)
emit_planned s (ok none) = (s, none)
emit_planned s (err e) = (s, none)

unfoldable pub emit : AnnounceWireState → Option ℕ → AnnounceWireState × Option ℕ
emit s wall = emit_planned s (prepare_next s wall)

abbrev pub Emitted : AnnounceWireState → AnnounceWireState × Option ℕ → Type 0
Emitted s (after, some v) =
    (After s.last_value v) × (v ≤ announce_time_max) × (after ≡ record { last_value = some v })
Emitted s (after, none) = after ≡ s

emit_planned-Emitted :
    (s : AnnounceWireState) (wall : Option ℕ)
    (r : Result AnnounceWireError (Option AnnounceWireState))
    → Planned s.last_value wall r
    → Emitted s (emit_planned s r)
unfolding commit_prepared
emit_planned-Emitted s wall (ok (some c)) (e, small, later) =
    rw (e, commit_value-After s (wanted s.last_value wall) later) (later, small, refl)
emit_planned-Emitted s wall (ok none) h = refl
emit_planned-Emitted s wall (err e) h = refl

emit-Emitted :
    (s : AnnounceWireState) (wall : Option ℕ) → InRange s.last_value → Emitted s (emit s wall)
unfolding emit
emit-Emitted s wall h =
    emit_planned-Emitted s wall (prepare_next s wall) (prepare_next-Planned s wall h)

abbrev pub cons_some : Option ℕ → List ℕ → List ℕ
cons_some none vs = vs
cons_some (some v) vs = v ∷ vs

-- The values that a run of announces puts on the wire.
unfoldable pub emitted : AnnounceWireState → List (Option ℕ) → List ℕ
emitted s [] = []
emitted s (wall ∷ walls) = cons_some (emit s wall).1 (emitted (emit s wall).0 walls)

-- Every value has 40 bits and lies after the one before it.
abbrev pub Increasing : Option ℕ → List ℕ → Type 0
Increasing last [] = Unit
Increasing last (v ∷ vs) = After last v × (v ≤ announce_time_max) × Increasing (some v) vs

Increasing-step :
    (s : AnnounceWireState) (r : AnnounceWireState × Option ℕ) (walls : List (Option ℕ))
    → Emitted s r
    → (InRange r.0.last_value → Increasing r.0.last_value (emitted r.0 walls))
    → InRange s.last_value
    → Increasing s.last_value (cons_some r.1 (emitted r.0 walls))
Increasing-step s (after, none) walls e k h =
    subst (λ t. Increasing t.last_value (emitted after walls)) e (k (rw e h))
Increasing-step s (after, some v) walls (later, small, e) k h =
    (later, small, subst (λ t. Increasing t.last_value (emitted after walls)) e (k (rw e small)))

-- Whatever the wall clock says, backward steps and absence included, the values that announces carry
-- rise strictly from the last one, if that has 40 bits, and stay within 40 bits.
pub emitted-Increasing :
    (s : AnnounceWireState) (walls : List (Option ℕ))
    → InRange s.last_value
    → Increasing s.last_value (emitted s walls)
unfolding emitted
emitted-Increasing s [] h = tt
emitted-Increasing s (wall ∷ walls) h =
    Increasing-step s (emit s wall) walls (emit-Emitted s wall h)
      (λ g. emitted-Increasing (emit s wall).0 walls g) h

be_zeros : (v : ℕ) → v ≤ announce_time_max → 0 ∷ 0 ∷ 0 ∷ drop 3 (to_be_bytes 8 v) ≡ to_be_bytes 8 v
unfolding to_be_bytes
be_zeros v h = ground arith

abbrev pub flag_of : Option ℕ → ℕ
flag_of none = 0
flag_of (some v) = 1

abbrev pub value_or_zero : Option ℕ → ℕ
value_or_zero none = 0
value_or_zero (some v) = v

-- The seven bytes of a state.
unfoldable pub stored : AnnounceWireState → List ℕ
stored s = 1 ∷ flag_of s.last_value ∷ drop 3 (to_be_bytes 8 (value_or_zero s.last_value))

length-value : (v : ℕ) → length (drop 3 (to_be_bytes 8 v)) ≡ 5
length-value v = omega (arith, length-drop 3 (to_be_bytes 8 v), length-to_be_bytes 8 v)

serialize_into-stored :
    (s : AnnounceWireState) (out : List ℕ)
    → 7 ≤ length out
    → InRange s.last_value
    → serialize_into s out ≡ (stored s ++ drop 7 out, ok 7)
unfolding serialize_into stored
serialize_into-stored s [] h r = absurd (omega arith)
serialize_into-stored s (a ∷ []) h r = absurd (omega arith)
serialize_into-stored s (a ∷ b ∷ out) h r =
    let long : ltb (length (a ∷ b ∷ out)) 7 ≡ false = ground arith in by_value s.last_value r long
  where
    by_value :
        (last : Option ℕ)
        → InRange last
        → ltb (length (a ∷ b ∷ out)) 7 ≡ false
        → let s : AnnounceWireState = record { last_value = last } in
          serialize_into s (a ∷ b ∷ out) ≡ (stored s ++ drop 7 (a ∷ b ∷ out), ok 7)
    by_value none r long = rw (long, length-value 0) refl
    by_value (some v) r long =
        let small : ltb announce_time_max v ≡ false = ground arith in
        rw (long, small, length-value v) refl

decoded :
    (v : ℕ)
    → v ≤ announce_time_max
    → from_be_bytes (0 ∷ 0 ∷ 0 ∷ take 5 (drop 3 (to_be_bytes 8 v))) ≡ v
decoded v h =
    ap (λ bs. from_be_bytes (0 ∷ 0 ∷ 0 ∷ bs))
      (take_all 5 (drop 3 (to_be_bytes 8 v)) (omega (arith, length-value v)))
    ∙ ap from_be_bytes (be_zeros v h)
    ∙ from_be-to_be_bytes 8 v (omega arith)

deserialize-stored :
    (last : Option ℕ)
    → InRange last
    → let s : AnnounceWireState = record { last_value = last } in deserialize (stored s) ≡ ok s
unfolding deserialize stored
deserialize-stored none h = rw (length-value 0, decoded 0 (omega arith)) refl
deserialize-stored (some v) h = rw (length-value v, decoded v h) refl

length-stored : (s : AnnounceWireState) → length (stored s) ≡ 7
unfolding stored
length-stored s = ap (λ n. suc (suc n)) (length-value (value_or_zero s.last_value))

-- A state of 40 bits that is stored and read back is the same, in every buffer that holds the seven
-- bytes.
pub deserialize-serialize_into :
    (s : AnnounceWireState) (out : List ℕ)
    → 7 ≤ length out
    → InRange s.last_value
    → ((serialize_into s out).1 ≡ ok 7) × (deserialize (take 7 (serialize_into s out).0) ≡ ok s)
deserialize-serialize_into s out h r =
    let bytes = serialize_into-stored s out h r in
    let front : take 7 (stored s ++ drop 7 out) ≡ stored s =
      take-append 7 (stored s) (drop 7 out) (length-stored s) in
    rw (bytes, front) (refl, deserialize-stored s.last_value r)
