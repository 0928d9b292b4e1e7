-- ===== src/Protocol/Message.antt =====
-- `MessageType` (src/protocol/message.rs): the byte of each message, and which protocol version
-- allows it.
pub mod Codes
use warpfile.Common.{ℕ, Bool, true, false, not, ◌||◌, ◌==◌, if◌then◌else◌, Result, ok, err, ◌>>=◌}

abbrev pub wfp_version_v02 : ℕ
wfp_version_v02 = 0x02

abbrev pub wfp_version_v03 : ℕ
wfp_version_v03 = 0x03

-- `data_frame` is the source's `Data`.
pub data MessageType : Type 0 where
  hello hello_ack : MessageType
  offer accept reject resume restart chunk_hashes chunk_start : MessageType
  data_frame : MessageType
  complete verified : MessageType
  cancel : MessageType
  discover announce : MessageType
  error : MessageType

-- `message_type as u8`
unfoldable pub as_u8 : MessageType → ℕ
as_u8 hello = 0x01
as_u8 hello_ack = 0x02
as_u8 offer = 0x10
as_u8 accept = 0x11
as_u8 reject = 0x12
as_u8 resume = 0x13
as_u8 restart = 0x14
as_u8 chunk_hashes = 0x15
as_u8 chunk_start = 0x16
as_u8 data_frame = 0x20
as_u8 complete = 0x30
as_u8 verified = 0x31
as_u8 cancel = 0x40
as_u8 discover = 0x50
as_u8 announce = 0x51
as_u8 error = 0xFF

-- `message_type == MessageType::Data`
unfoldable pub is_data : MessageType → Bool
is_data data_frame = true
is_data _ = false

-- `matches!(self, Self::ChunkHashes | Self::ChunkStart)`
is_chunk_message : MessageType → Bool
is_chunk_message chunk_hashes = true
is_chunk_message chunk_start = true
is_chunk_message _ = false

unfoldable pub is_allowed_in_version : MessageType → ℕ → Bool
unfolding is_chunk_message
is_allowed_in_version message_type version =
    if version == wfp_version_v02
    then not (is_chunk_message message_type)
    else version == wfp_version_v03

-- The `match value` of `from_wire`.
unfoldable pub of_byte : ℕ → Result MessageType ℕ
of_byte value =
    if value == 0x01
    then ok hello
    else if value == 0x02
    then ok hello_ack
    else if value == 0x10
    then ok offer
    else if value == 0x11
    then ok accept
    else if value == 0x12
    then ok reject
    else if value == 0x13
    then ok resume
    else if value == 0x14
    then ok restart
    else if value == 0x15
    then ok chunk_hashes
    else if value == 0x16
    then ok chunk_start
    else if value == 0x20
    then ok data_frame
    else if value == 0x30
    then ok complete
    else if value == 0x31
    then ok verified
    else if value == 0x40
    then ok cancel
    else if value == 0x50
    then ok discover
    else if value == 0x51
    then ok announce
    else if value == 0xFF
    then ok error
    else err value

unfoldable pub from_wire : ℕ → ℕ → Result MessageType ℕ
from_wire version value = do
  message_type ← of_byte value
  if is_allowed_in_version message_type version then ok message_type else err value
