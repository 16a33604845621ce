-- ===== src/Tables/Link/Laws.antt =====
-- Admission, validation and refresh of links.
use rs_reticulum_lite.Prelude.{
  ℕ, ◌≤◌, ◌<◌, ◌≡◌, refl, sym, ◌∙◌, List, Option, none, some, true, false, ◌&&◌, arith, leb, ltb,
  is_some_and, is_some, is_none, get_or, set, inl, inr, Bool-cases, Option-cases,
}
use rs_reticulum_lite.Prelude.Bytes.{bytes_eq, bytes_eq_refl, bytes_eq_iff, eq_of_bytes_eq}
use rs_reticulum_lite.Tables.Slots.{find, count, position, free_or_oldest}
use rs_reticulum_lite.Tables.Slots.Count.{count-clear_if_le}
use rs_reticulum_lite.Tables.Slots.Lookup.{
  position-some, find-clear_failing, find-set_ne, find-clear_if, find-update_first,
  find-update_apart, count-eq-zero, count-at,
}
use rs_reticulum_lite.Tables.Slots.Choice.{is_none_of}
use rs_reticulum_lite.Tables.Slots.Unique.{has, Unique, Unique-set, Placed, slot_of-Placed}
use rs_reticulum_lite.Tables.Link.{
  LinkEntry, LinkTable, names, next_generation, expire, store, slot_for, insert, has_free_slot, get,
  mark_validated,
}

-- No link id is held twice.
pub record IsValid (t : LinkTable) : Type 0 where
  pub unique : Unique (λ e. e.link_id) t.entries

pub expire-IsValid : (t : LinkTable) (now : ℕ) → IsValid t → IsValid (expire t now)
unfolding expire
expire-IsValid t now v = record {
  unique = λ k. omega (
    arith,
    v.unique k,
    count-clear_if_le (has (λ e. e.link_id) k) (λ e. leb e.expires_ms now) t.entries,
  );
}

store-IsValid :
    (t : LinkTable) (e : LinkEntry) (g : ℕ) (o : Option ℕ)
    → IsValid t
    → Placed (λ x. x.link_id) t.entries e o
    → IsValid (store t e g o)
store-IsValid t e g none v p = v
store-IsValid t e g (some idx) v (l, h) = record {
  unique = Unique-set (λ x. x.link_id) t.entries idx e l v.unique h;
}

slot_for_entry :
    (t : LinkTable) (e : LinkEntry)
    → Placed (λ x. x.link_id) t.entries e (slot_for t.entries e.link_id)
unfolding slot_for names
slot_for_entry t e = slot_of-Placed (λ x. x.link_id) (λ x. x.expires_ms) t.entries e

-- Inserting keeps link ids unique, also where the generations are used up.
pub insert-IsValid :
    (t : LinkTable) (e : LinkEntry) (now : ℕ) → IsValid t → IsValid (insert t e now)
unfolding insert
insert-IsValid t e now v = elim (Option-cases (next_generation (expire t now))) [
  | inl n ↦ rw (n, insert) (expire-IsValid t now v)
  | inr (g, n) ↦
      rw (n, insert)
        (store-IsValid (expire t now) e g (slot_for (expire t now).entries e.link_id)
          (expire-IsValid t now v) (slot_for_entry (expire t now) e))
]

get-expire :
    (t : LinkTable) (h : List ℕ) (now : ℕ) → find (names h) (expire t now).entries ≡ get t h now
unfolding get expire
get-expire t h now =
    find-clear_failing (names h) (λ e. leb e.expires_ms now)
      (λ e. names h e && ltb now e.expires_ms) t.entries (λ e. ground arith)

get_after_expire :
    (t : LinkTable) (h : List ℕ) (now later : ℕ)
    → now ≤ later
    → get (expire t now) h later ≡ get t h later
unfolding get expire
get_after_expire t h now later l =
    find-clear_if (λ e. names h e && ltb later e.expires_ms) (λ e. leb e.expires_ms now) t.entries
      (λ e y. ground arith)

-- Two ids that a link may have.
one_id : (a b : List ℕ) (e : LinkEntry) → names a e ≡ true → names b e ≡ true → a ≡ b
unfolding names
one_id a b e x y = sym (eq_of_bytes_eq e.link_id a x) ∙ eq_of_bytes_eq e.link_id b y

names_self : (e : LinkEntry) → names e.link_id e ≡ true
unfolding names
names_self e = bytes_eq_refl e.link_id

absent_slot :
    (t : LinkTable) (id : List ℕ) (now : ℕ)
    → get t id now ≡ none
    → position (is_some_and (names id)) (expire t now).entries ≡ none
absent_slot t id now absent =
    elim (Option-cases (position (is_some_and (names id)) (expire t now).entries)) [
      | inl n ↦ n
      | inr (idx, p) ↦
          let (l, held) = position-some (is_some_and (names id)) (expire t now).entries idx p in
          absurd (none_there (get_or (expire t now).entries idx none) idx refl held)
    ]
  where
    zero_count : count (names id) (expire t now).entries ≡ 0
    zero_count = count-eq-zero (names id) (expire t now).entries (get-expire t id now ∙ absent)

    none_there :
        (o : Option LinkEntry) (idx : ℕ)
        → get_or (expire t now).entries idx none ≡ o
        → is_some_and (names id) o ≡ true
        → ⊥
    none_there none idx e y = cc
    none_there (some x) idx e y =
        omega (arith, zero_count, count-at (names id) (expire t now).entries idx x e y)

-- The slot that an insertion of an unknown link takes, if one is free.
free_slot :
    (es : List (Option LinkEntry)) (id : List ℕ)
    → position (is_some_and (names id)) es ≡ none
    → is_some (position is_none es) ≡ true
    → (j : ℕ) × (slot_for es id ≡ some j) × (get_or es j none ≡ none)
unfolding slot_for free_or_oldest
free_slot es id n f = elim (Option-cases (position is_none es)) [
  | inl m ↦ cc (rw m at f)
  | inr (j, p) ↦
      let (_, z) = position-some is_none es j p in
      (j, rw (n, p, slot_for, free_or_oldest) refl, is_none_of _ z)
]

-- Where `has_free_slot` reports one, the insertion of a link that is not live keeps every live link.
pub insert_into_free_slot :
    (t : LinkTable) (e old : LinkEntry) (key : List ℕ) (now : ℕ)
    → (has_free_slot t now).1 ≡ true
    → get t e.link_id now ≡ none
    → get t key now ≡ some old
    → get (insert t e now) key now ≡ some old
unfolding insert has_free_slot expire get
insert_into_free_slot t e old key now free absent h =
    let u = expire t now in
    let (j, s, z) = free_slot u.entries e.link_id (absent_slot t e.link_id now absent) free in
    let same = get_after_expire t key now now (omega arith) ∙ h in
    elim (Option-cases (next_generation u)) [
      | inl n ↦ rw (n, insert) same
      | inr (g, n) ↦ rw (n, insert, s) (written u j z same)
    ]
  where
    other : names key e ≡ false
    other = elim (Bool-cases (names key e)) [
      | inr n ↦ n
      | inl y ↦
          let k = one_id e.link_id key e (names_self e) y in
          let gone : get t key now ≡ none = rw k at absent in cc (sym gone ∙ h)
    ]

    written :
        (u : LinkTable) (j : ℕ)
        → get_or u.entries j none ≡ none
        → get u key now ≡ some old
        → get (record u { entries = set u.entries j (some e) }) key now ≡ some old
    written u j z same =
        unfold get in
        find-set_ne (λ x. names key x && ltb now x.expires_ms) u.entries j (some e) (rw z refl)
          (rw other refl)
        ∙ same

-- `mark_validated` marks the live link of the id and gives it the new expiry, before which it is
-- found so, and leaves a link of another id as it was, at every time from the call on.
pub mark_validated_lem :
    (t : LinkTable) (id key : List ℕ) (old : LinkEntry) (expires_ms now later : ℕ)
    → get t id now ≡ some old
    → later < expires_ms
    → now ≤ later
    → bytes_eq id key ≡ false
    → let u = mark_validated t id expires_ms now in
      (get u id later ≡ some (record old { validated = true; expires_ms = expires_ms }))
      × (get u key later ≡ get t key later)
unfolding mark_validated
mark_validated_lem t id key old expires_ms now later h l m d = (marked, kept)
  where
    mark : LinkEntry → LinkEntry
    mark e = record e { validated = true; expires_ms = expires_ms }

    names_mark : (k : List ℕ) (x : LinkEntry) → names k (mark x) ≡ names k x
    names_mark k x = unfold names in refl

    marked : get (mark_validated t id expires_ms now) id later ≡ some (mark old)
    marked =
        unfold get in
        find-update_first (names id) (λ e. names id e && ltb later e.expires_ms) mark
          (expire t now).entries old (get-expire t id now ∙ h)
          (λ x y. ground (arith, names_mark id x)) (λ x y. rw y refl)

    kept : get (mark_validated t id expires_ms now) key later ≡ get t key later
    kept =
        let q = λ (e : LinkEntry). names key e && ltb later e.expires_ms in
        let same : get (mark_validated t id expires_ms now) key later
            ≡ get (expire t now) key later =
          unfold get in
          find-update_apart (names id) q mark (expire t now).entries (λ x y. rw (apart x y) refl)
            (λ x y. rw (names_mark key x, apart x y) refl) in
        same ∙ get_after_expire t key now later m
      where
        apart : (x : LinkEntry) → names id x ≡ true → names key x ≡ false
        apart x y = elim (Bool-cases (names key x)) [
          | inr n ↦ n
          | inl z ↦ cc (sym ((bytes_eq_iff id key).1 (one_id id key x y z)) ∙ d)
        ]
