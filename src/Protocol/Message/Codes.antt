-- ===== src/Protocol/Message/Codes.antt =====
-- The bytes of the message types: `from_wire` inverts `as u8`.
use warpfile.Common.{ℕ, ◌<◌, ◌≡◌, refl, arith, true, ok, panic}
use warpfile.Common.{◌≢◌}
use warpfile.Protocol.Message.{MessageType, as_u8, of_byte, from_wire, is_allowed_in_version}
use warpfile.Protocol.Message.{hello}

of_byte-as_u8 : (t : MessageType) → of_byte (as_u8 t) ≡ ok t
unfolding of_byte as_u8
of_byte-as_u8 hello = refl
of_byte-as_u8 _ = refl

as_u8-of_byte : (b : ℕ) (t : MessageType) → of_byte b ≡ ok t → as_u8 t ≡ b
unfolding of_byte as_u8
as_u8-of_byte b t h = ground arith

pub as_u8-lt : (t : MessageType) → as_u8 t < 256
unfolding as_u8
as_u8-lt hello = omega arith
as_u8-lt _ = omega arith

pub of_byte-ne-panic : (b : ℕ) → of_byte b ≢ panic
unfolding of_byte
of_byte-ne-panic b h = ground arith

-- A type that the version allows is read back from its byte.
pub from_wire-as_u8 :
    (version : ℕ) (t : MessageType)
    → is_allowed_in_version t version ≡ true
    → from_wire version (as_u8 t) ≡ ok t
from_wire-as_u8 version t h = unfold from_wire in rw (of_byte-as_u8 t, h)

-- What `from_wire` reads has the byte that was read, and the version allows it.
pub as_u8-from_wire :
    (version b : ℕ) (t : MessageType)
    → from_wire version b ≡ ok t
    → (as_u8 t ≡ b) × (is_allowed_in_version t version ≡ true)
unfolding from_wire
as_u8-from_wire version b t h = ground (arith, as_u8-of_byte b t)

pub from_wire-ne-panic : (version b : ℕ) → from_wire version b ≢ panic
unfolding from_wire
from_wire-ne-panic version b h = ground (arith, of_byte-ne-panic b)
