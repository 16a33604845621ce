-- ===== src/Lora/Framer.antt =====
-- `LoraFrame` and `LoraFramer` of src/lora.rs: packets split into frames and joined again.
pub mod Encode
pub mod RoundTrip
use Prim.Native.Nat.{bit_and, bit_or}
use rs_reticulum_lite.Prelude.{
  ℕ, ◌+◌, ◌*◌, ◌/◌, List, [], ◌∷◌, Option, none, some, Bool, if◌then◌else◌, ◌==◌, ltb, leb,
  is_some_and, length, set, take, drop, replicate,
}
use rs_reticulum_lite.Prelude.Words.{saturating_add}
use rs_reticulum_lite.Prelude.Result.{Result, ok, err, ◌>>=◌, map_err}
use rs_reticulum_lite.PacketBuffer
use rs_reticulum_lite.PacketBuffer.{PacketBuffer, BufferError, copy_from_slice}

abbrev pub lora_frame_payload_max : ℕ
lora_frame_payload_max = 254

abbrev pub lora_split_frame_payload_max : ℕ
lora_split_frame_payload_max = 508

abbrev pub lora_frame_max : ℕ
lora_frame_max = 255

abbrev pub split_flag : ℕ
split_flag = 1

pub data LoraError : Type 0 where
  packet_too_large frame_too_large frame_too_short : LoraError
  buffer : BufferError → LoraError

pub record LoraFrame : Type 0 where
  pub bytes : List ℕ
  pub len : ℕ

unfoldable pub blank : LoraFrame
blank = record { bytes = replicate lora_frame_max 0; len = 0 }

unfoldable pub as_slice : LoraFrame → List ℕ
as_slice f = take f.len f.bytes

unfoldable pub set_frame : LoraFrame → ℕ → List ℕ → Result LoraError LoraFrame
set_frame f header payload =
    if ltb lora_frame_payload_max (length payload)
    then err frame_too_large
    else ok (record {
      bytes = copy_from_slice (set f.bytes 0 header) 1 payload;
      len = length payload + 1;
    })

abbrev pub FramePair : Type 0
FramePair = LoraFrame × LoraFrame

abbrev pub encode_two : List ℕ → ℕ → FramePair → Result LoraError (FramePair × ℕ)
encode_two packet sequence out = do
  first ← set_frame out.0 (bit_or sequence split_flag) (take lora_frame_payload_max packet)
  second ← set_frame out.1 (bit_or sequence split_flag) (drop lora_frame_payload_max packet)
  ok ((first, second), 2)

abbrev pub encode_one : List ℕ → ℕ → FramePair → Result LoraError (FramePair × ℕ)
encode_one packet sequence out = do first ← set_frame out.0 sequence packet; ok ((first, out.1), 1)

abbrev pub sequence_of : ℕ → ℕ
sequence_of nibble = bit_and nibble 0x0f * 16

unfoldable pub encode : List ℕ → ℕ → FramePair → Result LoraError (FramePair × ℕ)
encode packet sequence_nibble out =
    if ltb lora_split_frame_payload_max (length packet)
    then err packet_too_large
    else if leb (length packet) lora_frame_payload_max
    then encode_one packet (sequence_of sequence_nibble) out
    else encode_two packet (sequence_of sequence_nibble) out

pub record PendingSplit : Type 0 where
  pub sequence : ℕ
  pub first : PacketBuffer
  pub expires_ms : ℕ

pub record LoraFramer : Type 0 where
  pub pending : Option PendingSplit
  pub split_timeout_ms : ℕ

unfoldable pub new : ℕ → LoraFramer
new split_timeout_ms = record { pending = none; split_timeout_ms = split_timeout_ms }

unfoldable pub expire : LoraFramer → ℕ → LoraFramer
expire f now_ms =
    if is_some_and (λ p. leb p.expires_ms now_ms) f.pending then record f { pending = none } else f

abbrev pub Received : Type 0
Received = LoraFramer × Result LoraError (Option PacketBuffer)

-- `.map(Some).map_err(LoraError::Buffer)`
abbrev pub received : Result BufferError PacketBuffer → Result LoraError (Option PacketBuffer)
received (ok b) = ok (some b)
received (err e) = err (buffer e)

-- The first half is kept; on an error `pending` has been taken already.
abbrev pub keep_first : LoraFramer → ℕ → ℕ → Result BufferError PacketBuffer → Received
keep_first f sequence now_ms (err e) = (record f { pending = none }, err (buffer e))
keep_first f sequence now_ms (ok first) =
    let p : PendingSplit = record {
      sequence = sequence;
      first = first;
      expires_ms = saturating_add now_ms f.split_timeout_ms;
    } in
    (record f { pending = some p }, ok none)

abbrev pub from_slice : List ℕ → Result BufferError PacketBuffer
from_slice payload = PacketBuffer.from_slice lora_split_frame_payload_max payload

-- `self.pending.take()` and what follows it.
abbrev pub ingest_split : LoraFramer → Option PendingSplit → ℕ → List ℕ → ℕ → Received
ingest_split f none sequence payload now_ms = keep_first f sequence now_ms (from_slice payload)
ingest_split f (some p) sequence payload now_ms =
    if p.sequence == sequence
    then (record f { pending = none }, received (PacketBuffer.extend_from_slice p.first payload))
    else keep_first f sequence now_ms (from_slice payload)

abbrev pub ingest_live : LoraFramer → List ℕ → ℕ → Received
ingest_live f [] now_ms = (f, err frame_too_short)
ingest_live f (header ∷ payload) now_ms =
    if bit_and header split_flag == 0
    then (record f { pending = none }, received (from_slice payload))
    else ingest_split f f.pending (header / 16) payload now_ms

unfoldable pub ingest_frame : LoraFramer → List ℕ → ℕ → Received
ingest_frame f frame now_ms = ingest_live (expire f now_ms) frame now_ms
