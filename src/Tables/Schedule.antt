-- ===== src/Tables/Schedule.antt =====
-- `ScheduledAnnounce` and `AnnounceSchedule<N>` of src/tables.rs: the announces still to be sent on.
pub mod Laws
use Prim.Native.Nat.{bit_and}
use rs_reticulum_lite.Prelude.{
  ℕ, ◌-◌, ◌^◌, List, [], ◌∷◌, Option, none, some, Bool, true, false, not, ◌&&◌, if◌then◌else◌, ◌==◌,
  leb, ltb, or_else, is_some_and, is_none, length, get_or, set, replicate,
}
use rs_reticulum_lite.Prelude.Words.{u8_max, u64_max}
use rs_reticulum_lite.Prelude.Bytes.{bytes_eq}
use rs_reticulum_lite.PacketBuffer.{PacketBuffer}
use rs_reticulum_lite.Tables.Slots.{
  position, clear_if, update_first, best_index, index_of, oldest_index,
}
use rs_reticulum_lite.Announce.Gate.{release_precedes}

pub record ScheduledAnnounce : Type 0 where
  pub destination_hash : List ℕ
  pub packet : PacketBuffer
  pub interface_id : ℕ
  pub due_ms : ℕ
  pub expires_ms : ℕ
  pub block_rebroadcast : Bool
  pub hops : ℕ
  pub retries : ℕ
  pub local_rebroadcasts : ℕ
  pub pending_targets : ℕ

unfoldable pub pending_only : ScheduledAnnounce → Bool
pending_only e = e.due_ms == u64_max

pub record AnnounceSchedule : Type 0 where
  pub entries : List (Option ScheduledAnnounce)

unfoldable pub clear : AnnounceSchedule → AnnounceSchedule
clear t = record { entries = replicate (length t.entries) none }

unfoldable pub new : ℕ → AnnounceSchedule
new n = record { entries = replicate n none }

unfoldable pub announces : List ℕ → ScheduledAnnounce → Bool
announces key e = bytes_eq e.destination_hash key

unfoldable pub expire : AnnounceSchedule → ℕ → AnnounceSchedule
expire t now = record { entries = clear_if (λ e. leb e.expires_ms now) t.entries }

-- Entry `a` is released before `b`.
abbrev pub precedes : ScheduledAnnounce → ScheduledAnnounce → Bool
precedes a b = release_precedes a.hops a.expires_ms b.hops b.expires_ms

unfoldable pub last_released_pending : List (Option ScheduledAnnounce) → Option ℕ
last_released_pending es = index_of (best_index pending_only (λ e worst. precedes worst e) es)

unfoldable pub replacement : List (Option ScheduledAnnounce) → Option ℕ
replacement es =
    or_else (position is_none es)
      (or_else (last_released_pending es) (oldest_index (λ e. e.expires_ms) es))

abbrev pub store : AnnounceSchedule → ScheduledAnnounce → Option ℕ → AnnounceSchedule
store t e none = t
store t e (some idx) = record { entries = set t.entries idx (some e) }

unfoldable pub insert : AnnounceSchedule → ScheduledAnnounce → ℕ → AnnounceSchedule
insert t e now =
    let u = expire t now in
    store u e (
      or_else (position (is_some_and (announces e.destination_hash)) u.entries)
        (replacement u.entries))

-- `1u8.checked_shl(slot)`
abbrev pub bit_of : ℕ → Option ℕ
bit_of slot = if ltb slot 8 then some (2 ^ slot) else none

-- `entry.pending_targets & bit != 0`
abbrev pub owes : ℕ → ScheduledAnnounce → Bool
owes bit e = not (bit_and e.pending_targets bit == 0)

-- `pending_targets &= !bit` on a u8.
abbrev pub settle : ℕ → ScheduledAnnounce → ScheduledAnnounce
settle bit e = record e { pending_targets = bit_and e.pending_targets (u8_max - bit) }

-- `(pending_targets != 0 || !pending_only()).then_some(..)`
abbrev pub left_over : ScheduledAnnounce → Option ScheduledAnnounce
left_over e = if e.pending_targets == 0 && pending_only e then none else some e

abbrev pub release_at :
    AnnounceSchedule
    → ℕ
    → Option (ℕ × ScheduledAnnounce)
    → AnnounceSchedule × Option ScheduledAnnounce
release_at t bit none = (t, none)
release_at t bit (some (idx, e)) =
    (record { entries = set t.entries idx (left_over (settle bit e)) }, some (settle bit e))

abbrev pub release_bit : AnnounceSchedule → Option ℕ → AnnounceSchedule × Option ScheduledAnnounce
release_bit t none = (t, none)
release_bit t (some bit) = release_at t bit (best_index (owes bit) precedes t.entries)

unfoldable pub release_pending :
    AnnounceSchedule → ℕ → ℕ → AnnounceSchedule × Option ScheduledAnnounce
release_pending t slot now = release_bit (expire t now) (bit_of slot)

-- The loop of `clear_target`.
unfoldable pub settle_all : ℕ → List (Option ScheduledAnnounce) → List (Option ScheduledAnnounce)
settle_all bit [] = []
settle_all bit (none ∷ es) = none ∷ settle_all bit es
settle_all bit (some e ∷ es) = left_over (settle bit e) ∷ settle_all bit es

abbrev pub clear_bit : AnnounceSchedule → Option ℕ → AnnounceSchedule
clear_bit t none = t
clear_bit t (some bit) = record { entries = settle_all bit t.entries }

unfoldable pub clear_target : AnnounceSchedule → ℕ → AnnounceSchedule
clear_target t slot = clear_bit t (bit_of slot)

abbrev pub take_at : AnnounceSchedule → Option ℕ → AnnounceSchedule × Option ScheduledAnnounce
take_at t none = (t, none)
take_at t (some idx) = (record { entries = set t.entries idx none }, get_or t.entries idx none)

unfoldable pub pop_due : AnnounceSchedule → ℕ → AnnounceSchedule × Option ScheduledAnnounce
pop_due t now =
    let u = expire t now in take_at u (position (is_some_and (λ e. leb e.due_ms now)) u.entries)

-- `if let Some(e) = schedule.get_mut(destination_hash) { *e = f(*e) }`
unfoldable pub get_mut :
    (ScheduledAnnounce → ScheduledAnnounce) → AnnounceSchedule → List ℕ → AnnounceSchedule
get_mut f t destination_hash = record {
  entries = update_first (announces destination_hash) f t.entries;
}

unfoldable pub remove : AnnounceSchedule → List ℕ → AnnounceSchedule
remove t destination_hash = record { entries = clear_if (announces destination_hash) t.entries }

unfoldable pub remove_interface : AnnounceSchedule → ℕ → AnnounceSchedule
remove_interface t interface = record {
  entries = clear_if (λ e. e.interface_id == interface) t.entries;
}
