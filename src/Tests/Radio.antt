-- ===== src/Tests/Radio.antt =====
-- Frames and airtime of src/lora.rs.
use rs_reticulum_lite.Prelude.{
  ℕ, ◌+◌, ◌≡◌, refl, List, [], ◌∷◌, none, true, false, arith, replicate,
}
use rs_reticulum_lite.Prelude.Result.{ok}
use rs_reticulum_lite.Lora.Framer.{
  LoraFramer, LoraFrame, FramePair, blank, encode, set_frame, expire,
}
use rs_reticulum_lite.Lora.Framer.Encode.{IsFrame}
use rs_reticulum_lite.Lora.Framer.RoundTrip.{receive, Delivered, ingest_frame-encode}
use rs_reticulum_lite.Lora.Modem.{LoraModemConfig}
use rs_reticulum_lite.Lora.Airtime.{AirtimeLimiter, refresh, reserve, wait_ms, can_reserve}
use rs_reticulum_lite.Lora.Airtime.Laws.{Reserved, reserve-Reserved, wait_ms_lem}
use rs_reticulum_lite.Announce.Gate.{lora_tx_ms}
use rs_reticulum_lite.Announce.Gate.Laws.{frames_airtime, lora_tx_ms-encode}

abbrev framer : LoraFramer
framer = record { pending = none; split_timeout_ms = 5000 }

abbrev blanks : FramePair
blanks = (blank, blank)

abbrev long_packet : List ℕ
long_packet = replicate 300 4

blank-IsFrame : IsFrame blank
unfolding blank
blank-IsFrame = record { size = refl }

ingest_frame-encode_example :
    (frames : FramePair) × (n : ℕ) × (encode long_packet 9 blanks ≡ ok (frames, n))
    × Delivered long_packet (receive framer frames n 100 200)
unfolding expire
ingest_frame-encode_example =
    ingest_frame-encode framer long_packet 9 100 200 blanks (omega arith) blank-IsFrame
      blank-IsFrame (omega arith) refl (omega arith) (omega arith)

abbrev limiter : AirtimeLimiter
limiter = record {
  window_ms = 1000;
  max_utilization_bps = 1000;
  window_start_ms = 0;
  used_airtime_ms = 80;
}

reserve-Reserved_example : Reserved (refresh limiter 500) 30 (reserve limiter 30 500)
unfolding refresh
reserve-Reserved_example = reserve-Reserved limiter 30 500 (omega arith)

wait_ms_lem_example :
    let waited = wait_ms limiter 30 500 in (can_reserve waited.0 30 (500 + waited.1)).1 ≡ true
wait_ms_lem_example = wait_ms_lem limiter 30 500 (omega arith) (omega arith) (omega arith)

abbrev medium_fast : LoraModemConfig
medium_fast = record {
  bandwidth_hz = 250000;
  spreading_factor = 9;
  coding_rate_denominator = 5;
  preamble_symbols = 18;
  explicit_header = true;
  crc = true;
  low_data_rate_optimize = false;
}

abbrev short_frame : LoraFrame
short_frame = record { bytes = 144 ∷ 1 ∷ 2 ∷ replicate 252 0; len = 3 }

encode_test : encode (1 ∷ 2 ∷ []) 9 blanks ≡ ok ((short_frame, blank), 1)
unfolding encode set_frame blank
encode_test = refl

lora_tx_ms-encode_example :
    lora_tx_ms 2 medium_fast ≡ frames_airtime medium_fast (short_frame, blank) 1
lora_tx_ms-encode_example =
    lora_tx_ms-encode medium_fast (1 ∷ 2 ∷ []) 9 blanks (short_frame, blank) 1 blank-IsFrame
      blank-IsFrame encode_test
