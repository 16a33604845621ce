-- ===== src/PacketBuffer.antt =====
-- src/packet_buffer.rs: a fixed array of bytes with a visible length. CAP is the length of `bytes`.
pub mod Laws
use rs_reticulum_lite.Prelude.{
  ℕ, ◌+◌, ◌<◌, List, [], ◌∷◌, ◌++◌, Bool, if◌then◌else◌, ◌==◌, ltb, length, set, take, drop,
  replicate,
}
use rs_reticulum_lite.Prelude.Result.{Result, ok, err, ◌>>=◌}

pub data BufferError : Type 0 where
  insufficient_capacity : BufferError

pub record PacketBuffer : Type 0 where
  pub bytes : List ℕ
  pub len : ℕ

abbrev pub capacity : PacketBuffer → ℕ
capacity b = length b.bytes

unfoldable pub new : ℕ → PacketBuffer
new n = record { bytes = replicate n 0; len = 0 }

unfoldable pub clear : PacketBuffer → PacketBuffer
clear b = record b { len = 0 }

unfoldable pub is_empty : PacketBuffer → Bool
is_empty b = b.len == 0

unfoldable pub as_slice : PacketBuffer → List ℕ
as_slice b = take b.len b.bytes

unfoldable pub push : PacketBuffer → ℕ → Result BufferError PacketBuffer
push b byte =
    if b.len == capacity b
    then err insufficient_capacity
    else ok (record b { bytes = set b.bytes b.len byte; len = b.len + 1 })

-- `bytes[at..at + source.len()].copy_from_slice(source)`
abbrev pub copy_from_slice : List ℕ → ℕ → List ℕ → List ℕ
copy_from_slice bytes at source = take at bytes ++ (source ++ drop (at + length source) bytes)

unfoldable pub extend_from_slice : PacketBuffer → List ℕ → Result BufferError PacketBuffer
extend_from_slice b source =
    if ltb (capacity b) (b.len + length source)
    then err insufficient_capacity
    else ok (record { bytes = copy_from_slice b.bytes b.len source; len = b.len + length source })

unfoldable pub from_slice : ℕ → List ℕ → Result BufferError PacketBuffer
from_slice n source = extend_from_slice (new n) source

unfoldable pub set_len : PacketBuffer → ℕ → Result BufferError PacketBuffer
set_len b len =
    if ltb (capacity b) len then err insufficient_capacity else ok (record b { len = len })

unfoldable pub copy_with_hops : PacketBuffer → ℕ → PacketBuffer
copy_with_hops b hops = if ltb 1 b.len then record b { bytes = set b.bytes 1 hops } else b
