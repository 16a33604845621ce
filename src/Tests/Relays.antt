-- ===== src/Tests/Relays.antt =====
-- Cached and scheduled announces of src/tables.rs.
use rs_reticulum_lite.Prelude.{
  ℕ, zero, suc, ap, ◌<◌, ◌≡◌, [], ◌∷◌, Option, none, some, false, arith, replicate, get_or,
}
use rs_reticulum_lite.PacketBuffer
use rs_reticulum_lite.Tables.Cache
use rs_reticulum_lite.Tables.Cache.{CachedAnnounce, AnnounceCache}
use rs_reticulum_lite.Tables.Cache.Laws.{get-retain_paths}
use rs_reticulum_lite.Tables.Schedule
use rs_reticulum_lite.Tables.Schedule.{ScheduledAnnounce, AnnounceSchedule}
use rs_reticulum_lite.Tables.Schedule.Laws.{Released, release_pending-Released}

abbrev cached : ℕ → CachedAnnounce
cached k = record {
  destination_hash = replicate 16 k;
  raw = PacketBuffer.new 500;
  hops = 1;
  expires_ms = 100;
  bulk = false;
}

abbrev cache : AnnounceCache
cache = record { entries = some (cached 1) ∷ none ∷ [] }

abbrev scheduled : ℕ → ℕ → ℕ → ScheduledAnnounce
scheduled k hops targets = record {
  destination_hash = replicate 16 k;
  packet = PacketBuffer.new 500;
  interface_id = 1;
  due_ms = 40;
  expires_ms = 100;
  block_rebroadcast = false;
  hops = hops;
  retries = 0;
  local_rebroadcasts = 0;
  pending_targets = targets;
}

abbrev schedule : AnnounceSchedule
schedule = record { entries = some (scheduled 1 3 6) ∷ some (scheduled 2 1 2) ∷ [] }

abbrev mask : Option ScheduledAnnounce → ℕ
mask none = 0
mask (some e) = e.pending_targets

masks_of :
    (i : ℕ) (e : ScheduledAnnounce)
    → get_or schedule.entries i none ≡ some e
    → e.pending_targets < 256
masks_of zero e h = omega (arith, ap mask h)
masks_of (suc zero) e h = omega (arith, ap mask h)
masks_of (suc (suc i)) e h = cc

release_pending-Released_example :
    Released 2 (Schedule.expire schedule 10).entries (Schedule.release_pending schedule 1 10)
release_pending-Released_example =
    release_pending-Released schedule 1 10 (record { masks = masks_of }) (omega arith)
