-- ===== src/Resource/Flags.antt =====
-- The flags byte of an advertisement of src/resource.rs.
use Prim.Native.Nat.{bit_and, bit_or}
use rs_reticulum_lite.Prelude.{ℕ, ◌*◌, ◌≡◌, Bool, not, ◌==◌, to_bit, ◌<◌, arith}

pub record ResourceFlags : Type 0 where
  pub encrypted : Bool
  pub compressed : Bool
  pub split : Bool
  pub is_request : Bool
  pub is_response : Bool
  pub has_metadata : Bool

-- `x << k` on a u8 that does not overflow it.
unfoldable pub to_byte : ResourceFlags → ℕ
to_byte f =
    bit_or
      (bit_or
        (bit_or
          (bit_or (bit_or (to_bit f.encrypted) (to_bit f.compressed * 2)) (to_bit f.split * 4))
          (to_bit f.is_request * 8))
        (to_bit f.is_response * 16))
      (to_bit f.has_metadata * 32)

unfoldable pub from_byte : ℕ → ResourceFlags
from_byte b = record {
  encrypted = not (bit_and b 0x01 == 0);
  compressed = not (bit_and b 0x02 == 0);
  split = not (bit_and b 0x04 == 0);
  is_request = not (bit_and b 0x08 == 0);
  is_response = not (bit_and b 0x10 == 0);
  has_metadata = not (bit_and b 0x20 == 0);
}

-- All combinations of the six flags survive the byte.
pub from_byte-to_byte : (f : ResourceFlags) → from_byte (to_byte f) ≡ f
unfolding from_byte to_byte
from_byte-to_byte f = ground arith

pub to_byte-lt : (f : ResourceFlags) → to_byte f < 64
unfolding to_byte
to_byte-lt f = ground arith
