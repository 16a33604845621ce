-- ===== src/Wire/Context.antt =====
-- `PacketContext` of src/wire.rs.
use rs_reticulum_lite.Prelude.{ℕ, ◌<◌, ◌≡◌, refl, Bool, true, false, if◌then◌else◌, ◌==◌, ==_iff}
use rs_reticulum_lite.Prelude.Bytes.{every, every-holds}

-- The source's `None` is `no_context`.
pub data PacketContext : Type 0 where
  no_context resource resource_adv resource_req resource_hmu resource_prf : PacketContext
  resource_icl resource_rcl cache_request request response path_response : PacketContext
  command command_status channel keepalive link_identify link_close : PacketContext
  link_proof lrrtt lrproof : PacketContext
  unknown : ℕ → PacketContext

unfoldable pub from_byte : ℕ → PacketContext
from_byte b =
    if b == 0x00
    then no_context
    else if b == 0x01
    then resource
    else if b == 0x02
    then resource_adv
    else if b == 0x03
    then resource_req
    else if b == 0x04
    then resource_hmu
    else if b == 0x05
    then resource_prf
    else if b == 0x06
    then resource_icl
    else if b == 0x07
    then resource_rcl
    else if b == 0x08
    then cache_request
    else if b == 0x09
    then request
    else if b == 0x0a
    then response
    else if b == 0x0b
    then path_response
    else if b == 0x0c
    then command
    else if b == 0x0d
    then command_status
    else if b == 0x0e
    then channel
    else if b == 0xfa
    then keepalive
    else if b == 0xfb
    then link_identify
    else if b == 0xfc
    then link_close
    else if b == 0xfd
    then link_proof
    else if b == 0xfe
    then lrrtt
    else if b == 0xff
    then lrproof
    else unknown b

unfoldable pub to_byte : PacketContext → ℕ
to_byte no_context = 0x00
to_byte resource = 0x01
to_byte resource_adv = 0x02
to_byte resource_req = 0x03
to_byte resource_hmu = 0x04
to_byte resource_prf = 0x05
to_byte resource_icl = 0x06
to_byte resource_rcl = 0x07
to_byte cache_request = 0x08
to_byte request = 0x09
to_byte response = 0x0a
to_byte path_response = 0x0b
to_byte command = 0x0c
to_byte command_status = 0x0d
to_byte channel = 0x0e
to_byte keepalive = 0xfa
to_byte link_identify = 0xfb
to_byte link_close = 0xfc
to_byte link_proof = 0xfd
to_byte lrrtt = 0xfe
to_byte lrproof = 0xff
to_byte (unknown b) = b

unfoldable pub skip_hashlist : PacketContext → Bool
skip_hashlist resource = true
skip_hashlist resource_req = true
skip_hashlist resource_prf = true
skip_hashlist cache_request = true
skip_hashlist channel = true
skip_hashlist keepalive = true
skip_hashlist _ = false

to_byte_table : every 256 (λ b. to_byte (from_byte b) == b) ≡ true
unfolding every to_byte from_byte
to_byte_table = refl

-- A byte read as a context is written back unchanged, also one that no context names.
pub to_byte-from_byte : (b : ℕ) → b < 256 → to_byte (from_byte b) ≡ b
to_byte-from_byte b h = (==_iff _ _).0 (every-holds 256 _ b to_byte_table h)

-- The context is not `unknown` of a byte that has a name.
abbrev pub IsCanonical : PacketContext → Type 0
IsCanonical c = from_byte (to_byte c) ≡ c
