-- ===== src/Tables/Schedule/Laws.antt =====
-- The release of scheduled announces of src/tables.rs.
use Prim.Native.Nat.{bit_and}
use rs_reticulum_lite.Prelude.{
  suc, [], ◌∷◌, ◌∙◌, Bool, ℕ, ◌+◌, ◌-◌, ◌^◌, ◌<◌, ◌≡◌, refl, List, Option, none, some, true, false,
  ◌&&◌, arith, ◌==◌, ltb, leb, lt→ltb, is_some_and, get_or, set, inl, inr, Bool-cases,
}
use rs_reticulum_lite.Prelude.Bytes.{every, every-holds}
use rs_reticulum_lite.Tables.Slots.{count, best_index, clear_if}
use rs_reticulum_lite.Tables.Slots.Lookup.{get_or-clear_if}
use rs_reticulum_lite.Tables.Slots.Count.{count-set}
use rs_reticulum_lite.Tables.Slots.Victim.{
  best_index-some, best_index-none, best_index_best, IsWeakOrder,
}
use rs_reticulum_lite.Announce.Gate.{release_precedes}
use rs_reticulum_lite.Tables.Schedule.{
  clear_target, settle_all, ScheduledAnnounce, AnnounceSchedule, expire, pending_only, precedes,
  owes, settle, left_over, release_at, release_pending,
}

settled_table :
    every 8 (λ s. every 256 (λ p. bit_and (bit_and p (255 - 2 ^ s)) (2 ^ s) == 0)) ≡ true
unfolding every
settled_table = refl

precedes-IsWeakOrder : IsWeakOrder precedes
unfolding release_precedes
precedes-IsWeakOrder = record {
  asym = λ a b h. ground arith;
  negatively_trans = λ a b c h k. ground arith;
}

-- The target masks are bytes.
pub record IsValid (t : AnnounceSchedule) : Type 0 where
  pub masks :
      (i : ℕ) (e : ScheduledAnnounce) → get_or t.entries i none ≡ some e → e.pending_targets < 256

-- What a release for the target of `bit` does to the entries: the entry that leaves was owed, no owed
-- entry precedes it, and one entry fewer is owed; nothing leaves only where nothing is owed.
abbrev pub Released :
    ℕ → List (Option ScheduledAnnounce) → AnnounceSchedule × Option ScheduledAnnounce → Type 0
Released bit es (u, none) = (u.entries ≡ es) × (count (owes bit) es ≡ 0)
Released bit es (u, some e) =
    (idx : ℕ) × (old : ScheduledAnnounce) × (get_or es idx none ≡ some old)
    × (owes bit old ≡ true)
    × (count (λ x. owes bit x && precedes x old) es ≡ 0)
    × (e ≡ settle bit old)
    × (u.entries ≡ set es idx (left_over e))
    × (count (owes bit) u.entries + 1 ≡ count (owes bit) es)

expire-IsValid : (t : AnnounceSchedule) (now : ℕ) → IsValid t → IsValid (expire t now)
unfolding expire
expire-IsValid t now v = record { masks = kept }
  where
    kept :
        (i : ℕ) (e : ScheduledAnnounce)
        → get_or (clear_if (λ e. leb e.expires_ms now) t.entries) i none ≡ some e
        → e.pending_targets < 256
    kept i e g =
        elim (Bool-cases (is_some_and (λ e. leb e.expires_ms now) (get_or t.entries i none))) [
          | inl y ↦ cc (rw (get_or-clear_if (λ e. leb e.expires_ms now) t.entries i, y) at g)
          | inr n ↦
              v.masks i e (rw (get_or-clear_if (λ e. leb e.expires_ms now) t.entries i, n) at g)
        ]

settled :
    (slot : ℕ) (e : ScheduledAnnounce)
    → slot < 8
    → e.pending_targets < 256
    → owes (2 ^ slot) (settle (2 ^ slot) e) ≡ false
settled slot e h k =
    let cleared : (bit_and (bit_and e.pending_targets (255 - 2 ^ slot)) (2 ^ slot) == 0) ≡ true =
      every-holds 256 (λ p. bit_and (bit_and p (255 - 2 ^ slot)) (2 ^ slot) == 0) e.pending_targets
        (every-holds 8 (λ s. every 256 (λ p. bit_and (bit_and p (255 - 2 ^ s)) (2 ^ s) == 0)) slot
          settled_table h)
        k in
    rw cleared refl

left_over-owes :
    (bit : ℕ) (e : ScheduledAnnounce)
    → owes bit e ≡ false
    → is_some_and (owes bit) (left_over e) ≡ false
left_over-owes bit e h = elim (Bool-cases (e.pending_targets == 0 && pending_only e)) [
  | inl t ↦ rw t refl
  | inr f ↦ rw f h
]

release_at-Released :
    (t : AnnounceSchedule) (slot : ℕ) (o : Option (ℕ × ScheduledAnnounce))
    → IsValid t
    → slot < 8
    → best_index (owes (2 ^ slot)) precedes t.entries ≡ o
    → Released (2 ^ slot) t.entries (release_at t (2 ^ slot) o)
release_at-Released t slot none v h b =
    (refl, best_index-none (owes (2 ^ slot)) precedes t.entries b)
release_at-Released t slot (some (idx, e)) v h b =
    let (l, held, owed) = best_index-some (owes (2 ^ slot)) precedes t.entries idx e b in
    let off =
      left_over-owes (2 ^ slot) (settle (2 ^ slot) e) (settled slot e h (v.masks idx e held)) in
    let moved = count-set (owes (2 ^ slot)) t.entries idx (left_over (settle (2 ^ slot) e)) l in
    let fewer : count (owes (2 ^ slot)) (set t.entries idx (left_over (settle (2 ^ slot) e))) + 1
        ≡ count (owes (2 ^ slot)) t.entries + 0 =
      rw (held, owed, off) at moved in
    (
      idx,
      e,
      held,
      owed,
      best_index_best (owes (2 ^ slot)) precedes precedes-IsWeakOrder t.entries idx e b,
      refl,
      refl,
      omega (arith, fewer),
    )

-- For each of the eight targets of a valid schedule, `release_pending` hands out an owed entry that
-- no other owed entry precedes, and leaves one owed entry fewer; it hands out none only where none
-- is owed.
pub release_pending-Released :
    (t : AnnounceSchedule) (slot now : ℕ)
    → IsValid t
    → slot < 8
    → Released (2 ^ slot) (expire t now).entries (release_pending t slot now)
unfolding release_pending
release_pending-Released t slot now v h =
    let small : ltb slot 8 ≡ true = lt→ltb slot 8 h in
    rw small (release_at-Released (expire t now) slot _ (expire-IsValid t now v) h refl)

count-cons :
    (p : ScheduledAnnounce → Bool) (o : Option ScheduledAnnounce)
    (es : List (Option ScheduledAnnounce))
    → is_some_and p o ≡ false
    → count p (o ∷ es) ≡ count p es
unfolding count
count-cons p none es h = refl
count-cons p (some e) es h = rw h refl

-- After `clear_target` nothing is owed to the target any more, in a schedule whose masks are bytes.
pub clear_target-owes :
    (t : AnnounceSchedule) (slot : ℕ)
    → IsValid t
    → slot < 8
    → count (owes (2 ^ slot)) (clear_target t slot).entries ≡ 0
unfolding clear_target settle_all count
clear_target-owes t slot v h =
    let small : ltb slot 8 ≡ true = lt→ltb slot 8 h in rw small (none_owed t.entries v.masks)
  where
    none_owed :
        (es : List (Option ScheduledAnnounce))
        → ((i : ℕ) (e : ScheduledAnnounce) → get_or es i none ≡ some e → e.pending_targets < 256)
        → count (owes (2 ^ slot)) (settle_all (2 ^ slot) es) ≡ 0
    none_owed [] m = refl
    none_owed (none ∷ es) m = none_owed es (λ i. m (suc i))
    none_owed (some e ∷ es) m =
        count-cons (owes (2 ^ slot)) (left_over (settle (2 ^ slot) e)) (settle_all (2 ^ slot) es)
          (left_over-owes (2 ^ slot) (settle (2 ^ slot) e) (settled slot e h (m 0 e refl)))
        ∙ none_owed es (λ i. m (suc i))
