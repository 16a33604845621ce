-- ===== src/Tables/Reverse/Laws.antt =====
-- A reverse entry is found, taken once, and put back unharmed.
use rs_reticulum_lite.Prelude.{
  ℕ, ◌+◌, ◌≤◌, ◌<◌, ◌≡◌, refl, sym, ap, ◌∙◌, List, Option, none, some, true, false, ◌&&◌, arith,
  leb, ltb, is_some_and, is_none, length, get_or, set, inl, inr, Option-cases, length-set, ◌==◌,
}
use rs_reticulum_lite.Prelude.Words.{u64_max}
use rs_reticulum_lite.Tables.Slots.{find, count, position}
use rs_reticulum_lite.Tables.Slots.Count.{
  count-set, count_mono, count-clear_if_le, length-clear_if, count-le-length,
}
use rs_reticulum_lite.Tables.Slots.Lookup.{
  position-some, position-none, position_full, find_unique, find-eq-none, find-clear_failing,
}
use rs_reticulum_lite.Tables.Slots.Choice.{is_none_of}
use rs_reticulum_lite.Tables.Slots.Unique.{
  has, Unique, Unique-set, Unique-set-none, Placed, slot_of-Placed, find_written, find-moved,
}
use rs_reticulum_lite.Tables.Generations
use rs_reticulum_lite.Tables.Reverse.{
  ReverseEntry, ReverseTable, proves, next_generation, expire, store, slot_for, insert, get,
  take_at, take_with_generation, entry_of, remove, restore_consumed,
}

-- No proof hash is held twice.
pub record IsValid (t : ReverseTable) : Type 0 where
  pub unique : Unique (λ e. e.proof_hash) t.entries

pub expire-IsValid : (t : ReverseTable) (now : ℕ) → IsValid t → IsValid (expire t now)
unfolding expire
expire-IsValid t now v = record {
  unique = λ k. omega (
    arith,
    v.unique k,
    count-clear_if_le (has (λ e. e.proof_hash) k) (λ e. leb e.expires_ms now) t.entries,
  );
}

store-IsValid :
    (t : ReverseTable) (e : ReverseEntry) (g : ℕ) (o : Option ℕ)
    → IsValid t
    → Placed (λ x. x.proof_hash) t.entries e o
    → IsValid (store t e g o)
store-IsValid t e g none v p = v
store-IsValid t e g (some idx) v (l, h) = record {
  unique = Unique-set (λ x. x.proof_hash) t.entries idx e l v.unique h;
}

stored_get :
    (t : ReverseTable) (e : ReverseEntry) (g later : ℕ) (o : Option ℕ)
    → IsValid t
    → Placed (λ x. x.proof_hash) t.entries e o
    → 0 < length t.entries
    → later < e.expires_ms
    → get (store t e g o) e.proof_hash later ≡ some e
unfolding get proves
stored_get t e g later none v p pos h = absurd (omega arith)
stored_get t e g later (some idx) v (l, p) pos h =
    find_written (λ x. x.proof_hash) t.entries idx e (λ x. ltb later x.expires_ms) l
      (Unique-set (λ x. x.proof_hash) t.entries idx e l v.unique p) (ground arith)

length-expire : (t : ReverseTable) (now : ℕ) → length (expire t now).entries ≡ length t.entries
unfolding expire
length-expire t now = length-clear_if (λ e. leb e.expires_ms now) t.entries

minted :
    (t : ReverseTable) (now : ℕ)
    → 0 < length t.entries
    → t.last_generation < u64_max
    → next_generation (expire t now) ≡ some (t.last_generation + 1)
unfolding next_generation Generations.next_generation
minted t now pos room =
    let f : (length (expire t now).entries == 0) ≡ false = ground (arith, length-expire t now) in
    let l : leb (t.last_generation + 1) u64_max ≡ true = ground arith in
    unfold expire in rw (f, l) refl

slot_for_entry :
    (t : ReverseTable) (e : ReverseEntry)
    → Placed (λ x. x.proof_hash) t.entries e (slot_for t.entries e.proof_hash)
unfolding slot_for proves
slot_for_entry t e = slot_of-Placed (λ x. x.proof_hash) (λ x. x.expires_ms) t.entries e

-- Inserting into a valid table that has a slot and a generation left keeps proof hashes unique, and
-- the new entry is found until it expires.
pub insert-get :
    (t : ReverseTable) (e : ReverseEntry) (now later : ℕ)
    → IsValid t
    → 0 < length t.entries
    → t.last_generation < u64_max
    → later < e.expires_ms
    → IsValid (insert t e now) × (get (insert t e now) e.proof_hash later ≡ some e)
unfolding insert
insert-get t e now later v pos room h =
    let u = expire t now in
    let w = expire-IsValid t now v in
    let size = length-expire t now in
    let n = minted t now pos room in
    let p = slot_for_entry u e in
    rw (n, insert)
      (
        store-IsValid u e (t.last_generation + 1) (slot_for u.entries e.proof_hash) w p,
        stored_get u e (t.last_generation + 1) later (slot_for u.entries e.proof_hash) w p
            (omega arith) h,
      )

-- A live entry is what is left of its hash once the table has been purged.
get-expire :
    (t : ReverseTable) (h : List ℕ) (now : ℕ) → find (proves h) (expire t now).entries ≡ get t h now
unfolding get expire
get-expire t h now =
    find-clear_failing (proves h) (λ e. leb e.expires_ms now)
      (λ e. proves h e && ltb now e.expires_ms) t.entries (λ e. ground arith)

count_live_le :
    (es : List (Option ReverseEntry)) (h : List ℕ) (later : ℕ)
    → count (λ e. proves h e && ltb later e.expires_ms) es ≤ count (proves h) es
count_live_le es h later = count_mono _ (proves h) es (λ e y. ground arith)

not_found :
    (t : ReverseTable) (h : List ℕ) (later : ℕ)
    → count (proves h) t.entries ≡ 0
    → get t h later ≡ none
unfolding get
not_found t h later z = find-eq-none _ t.entries (omega (arith, count_live_le t.entries h later))

unique_proves : (t : ReverseTable) (h : List ℕ) → IsValid t → count (proves h) t.entries ≤ 1
unfolding proves
unique_proves t h v = v.unique h

-- What taking the slot of a hash returns and leaves.
pub record Taken (t : ReverseTable) (h : List ℕ) (r : ReverseTable × Option (ReverseEntry × ℕ))
    : Type 0 where
  pub valid : IsValid r.0
  pub answer : entry_of r.1 ≡ find (proves h) t.entries
  pub gone : count (proves h) r.0.entries ≡ 0

take_at-Taken :
    (t : ReverseTable) (h : List ℕ)
    → IsValid t
    → Taken t h (take_at t (position (is_some_and (proves h)) t.entries))
take_at-Taken t h v = elim (Option-cases (position (is_some_and (proves h)) t.entries)) [
  | inl n ↦
      let z = position-none (proves h) t.entries n in
      rw n (record { valid = v; answer = sym (find-eq-none (proves h) t.entries z); gone = z })
  | inr (idx, p) ↦
      let (l, held) = position-some (is_some_and (proves h)) t.entries idx p in
      rw p (elim (Option-cases (get_or t.entries idx none)) [
        | inl o ↦ cc (rw o at held)
        | inr (e, o) ↦
            let y : proves h e ≡ true = rw o at held in
            rw o (record {
              valid = record {
                unique = Unique-set-none (λ x. x.proof_hash) t.entries idx l v.unique;
              };
              answer = sym (find_unique (proves h) t.entries idx e (unique_proves t h v) o y);
              gone = taken_count idx e l o y;
            })
      ])
]
  where
    taken_count :
        (idx : ℕ) (e : ReverseEntry)
        → idx < length t.entries
        → get_or t.entries idx none ≡ some e
        → proves h e ≡ true
        → count (proves h) (set t.entries idx none) ≡ 0
    taken_count idx e l o y =
        let c = count-set (proves h) t.entries idx none l in
        let c' = rw (o, y) at c in omega (arith, c', unique_proves t h v)

-- `remove` from a valid table answers what `get` answers, and takes that entry: the hash is not
-- found again.
pub remove_lem :
    (t : ReverseTable) (h : List ℕ) (now later : ℕ)
    → IsValid t
    → let (u, out) = remove t h now in IsValid u × (out ≡ get t h now) × (get u h later ≡ none)
unfolding remove take_with_generation
remove_lem t h now later v =
    let k = take_at-Taken (expire t now) h (expire-IsValid t now v) in
    (k.valid, k.answer ∙ get-expire t h now, not_found _ h later k.gone)

-- After a slot is emptied there is a free one.
pub free_slot :
    (es : List (Option ReverseEntry)) (e : ReverseEntry) (idx : ℕ)
    → idx < length es
    → get_or es idx none ≡ some e
    → (j : ℕ) × (position is_none (set es idx none) ≡ some j)
      × (j < length es)
      × (get_or (set es idx none) j none ≡ none)
free_slot es e idx l o =
    let size = length-set es idx none in
    elim (Option-cases (position is_none (set es idx none))) [
      | inr (j, f) ↦
          let (lj, z) = position-some is_none (set es idx none) j f in
          (j, f, omega arith, is_none_of _ z)
      | inl n ↦
          let c = count-set (λ (_ : ReverseEntry). true) es idx none l in
          let c' = rw o at c in
          absurd (
            omega (
              arith,
              c',
              position_full (set es idx none) n,
              count-le-length (λ (_ : ReverseEntry). true) es,
            ))
    ]

-- The entry goes to the free slot, and is found there.
pub restored_get :
    (t : ReverseTable) (e : ReverseEntry) (p : List ℕ) (idx g later : ℕ)
    → IsValid t
    → idx < length t.entries
    → get_or t.entries idx none ≡ some e
    → get (restore_consumed (record t { entries = set t.entries idx none }) e g) p later
      ≡ get t p later
unfolding restore_consumed get
restored_get t e p idx g later v l o =
    let q = λ (x : ReverseEntry). proves p x && ltb later x.expires_ms in
    let few : count q t.entries ≤ 1 =
      omega (arith, count_live_le t.entries p later, unique_proves t p v) in
    let (j, f, lj, z) = free_slot t.entries e idx l o in
    rw (f, restore_consumed) (find-moved q t.entries idx j e few l lj o z)

-- The slot that a take has emptied, and what it leaves.
pub record Emptied (x u : ReverseTable) (e : ReverseEntry) (g : ℕ) : Type 0 where
  pub idx : ℕ
  pub inside : idx < length x.entries
  pub held : get_or x.entries idx none ≡ some e
  pub owner : get_or x.generations idx 0 ≡ g
  pub rest : record x { entries = set x.entries idx none } ≡ u

pub take-Emptied :
    (t u : ReverseTable) (e : ReverseEntry) (h : List ℕ) (g now : ℕ)
    → take_with_generation t h now ≡ (u, some (e, g))
    → Emptied (expire t now) u e g
unfolding take_with_generation
take-Emptied t u e h g now taken =
    let x = expire t now in
    elim (Option-cases (position (is_some_and (proves h)) x.entries)) [
      | inl n ↦ cc (rw n at taken)
      | inr (idx, f) ↦ elim (Option-cases (get_or x.entries idx none)) [
        | inl o ↦ cc (rw (f, o) at taken)
        | inr (y, o) ↦
            let s = rw (f, o) at taken in
            let ye : y ≡ e = cc s in
            let yg : get_or x.generations idx 0 ≡ g = cc s in
            let eu : record x { entries = set x.entries idx none } ≡ u = cc s in
            record {
              idx = idx;
              inside = (position-some (is_some_and (proves h)) x.entries idx f).0;
              held = o ∙ ap some ye;
              owner = yg;
              rest = eu;
            }
      ]
    ]
