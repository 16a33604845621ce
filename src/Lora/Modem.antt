-- ===== src/Lora/Modem.antt =====
-- `LoraModemConfig` of src/lora.rs: the estimates of bitrate and airtime.
use rs_reticulum_lite.Prelude.{
  ℕ, ◌+◌, ◌-◌, ◌*◌, ◌/◌, ◌%◌, ◌^◌, min, max, Bool, if◌then◌else◌, ◌==◌, ◌||◌, leb,
}
use rs_reticulum_lite.Prelude.Words.{saturating_add, saturating_mul}

pub record LoraModemConfig : Type 0 where
  pub bandwidth_hz : ℕ
  pub spreading_factor : ℕ
  pub coding_rate_denominator : ℕ
  pub preamble_symbols : ℕ
  pub explicit_header : Bool
  pub crc : Bool
  pub low_data_rate_optimize : Bool

unfoldable pub ceil_div_u64 : ℕ → ℕ → ℕ
ceil_div_u64 numerator denominator =
    if denominator == 0 then 0 else saturating_add numerator (denominator - 1) / denominator

-- `1u64.checked_shl(sf)` is `None` from 64 on.
unfoldable pub nominal_bitrate_bps : LoraModemConfig → ℕ
nominal_bitrate_bps c =
    if (c.bandwidth_hz == 0 || c.spreading_factor == 0) || c.coding_rate_denominator == 0
    then 0
    else if leb 64 c.spreading_factor
    then 0
    else saturating_mul (saturating_mul c.spreading_factor 4) c.bandwidth_hz
      / saturating_mul c.coding_rate_denominator (2 ^ c.spreading_factor)

abbrev pub clamp : ℕ → ℕ → ℕ → ℕ
clamp v low high = min (max v low) high

abbrev pub u64_wrap : ℕ → ℕ
u64_wrap v = v % 2 ^ 64

-- The source computes the denominator and the numerator as i32 and tests them for `<= 0`: here both
-- are differences of ℕ, which are 0 there. The products of u64 wrap.
unfoldable pub frame_airtime_ms : LoraModemConfig → ℕ → ℕ
unfolding ceil_div_u64
frame_airtime_ms c frame_len =
    let ldro : ℕ = if c.low_data_rate_optimize then 1 else 0 in
    let denominator : ℕ = 4 * (c.spreading_factor - 2 * ldro) in
    let symbol_us : ℕ = ceil_div_u64 (2 ^ min c.spreading_factor 31 * 1000000) c.bandwidth_hz in
    let crc_bits : ℕ = if c.crc then 16 else 0 in
    let implicit_header_bits : ℕ = if c.explicit_header then 0 else 20 in
    let numerator : ℕ =
      (8 * frame_len + 28 + crc_bits) - (4 * c.spreading_factor + implicit_header_bits) in
    let coded_payload_symbols : ℕ =
      if numerator == 0
      then 0
      else ceil_div_u64 numerator denominator * clamp c.coding_rate_denominator 5 8 in
    let total_symbols_x100 : ℕ =
      (c.preamble_symbols * 100 + 425) + (8 + coded_payload_symbols) * 100 in
    if c.bandwidth_hz == 0 || c.spreading_factor == 0
    then 0
    else if denominator == 0
    then 0
    else ceil_div_u64 (u64_wrap (total_symbols_x100 * symbol_us)) 100000 % 2 ^ 32
