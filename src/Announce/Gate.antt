-- ===== src/Announce/Gate.antt =====
-- src/announce_cap.rs: the spacing of announces on an interface, and its gate.
pub mod Laws
use rs_reticulum_lite.Prelude.{
  ℕ, ◌+◌, ◌-◌, ◌*◌, Option, none, some, Bool, if◌then◌else◌, ◌==◌, ◌||◌, ◌&&◌, ltb, leb, min,
}
use rs_reticulum_lite.Prelude.Words.{saturating_add, saturating_mul, div_ceil, u32_max}
use rs_reticulum_lite.Lora.Framer.{lora_frame_payload_max}
use rs_reticulum_lite.Lora.Modem.{LoraModemConfig, frame_airtime_ms}

unfoldable pub cap_floor : ℕ → ℕ
cap_floor cap_permille = if cap_permille == 0 then 1 else cap_permille

-- `tx_ms` is a u32, so that the product fits a u64.
unfoldable pub spacing_ms : ℕ → ℕ → ℕ
spacing_ms tx_ms cap_permille = div_ceil (tx_ms * 1000) (cap_floor cap_permille)

unfoldable pub bitrate_spacing_ms : ℕ → ℕ → ℕ → Option ℕ
bitrate_spacing_ms wire_len bitrate_bps cap_permille =
    if bitrate_bps == 0
    then none
    else some (
        div_ceil (saturating_mul wire_len 8000000)
          (saturating_mul bitrate_bps (cap_floor cap_permille)))

-- `saturating_add` on u32.
unfoldable pub lora_tx_ms : ℕ → LoraModemConfig → ℕ
lora_tx_ms wire_len modem =
    if leb wire_len lora_frame_payload_max
    then frame_airtime_ms modem (wire_len + 1)
    else min
        (frame_airtime_ms modem (lora_frame_payload_max + 1)
          + frame_airtime_ms modem ((wire_len - lora_frame_payload_max) + 1))
        u32_max

unfoldable pub lora_spacing_ms : ℕ → LoraModemConfig → ℕ → ℕ
lora_spacing_ms wire_len modem cap_permille = spacing_ms (lora_tx_ms wire_len modem) cap_permille

unfoldable pub release_precedes : ℕ → ℕ → ℕ → ℕ → Bool
release_precedes hops queued_ms other_hops other_queued_ms =
    ltb hops other_hops || (hops == other_hops && ltb queued_ms other_queued_ms)

pub record AnnounceGate : Type 0 where
  pub allowed_at_ms : ℕ

abbrev pub initial : AnnounceGate
initial = record { allowed_at_ms = 0 }

unfoldable pub is_open : AnnounceGate → ℕ → Bool
is_open g now_ms = leb g.allowed_at_ms now_ms

unfoldable pub charge : AnnounceGate → ℕ → ℕ → AnnounceGate
charge g now_ms spacing = record { allowed_at_ms = saturating_add now_ms spacing }
