-- ===== src/Protocol/Announcement.antt =====
-- `DeviceAnnouncement`, `encode_announcement` and `decode_announcement`
-- (src/protocol/discovery.rs). A device name is the list of its UTF-8 bytes.
pub mod RoundTrip
pub mod Canonical
use warpfile.Common.{ℕ, ◌+◌, ◌-◌, ◌^◌, ◌%◌, ◌≡◌, ◌<◌, List, ◌++◌, Bool, true, not, ltb, leb, ◌==◌}
use warpfile.Common.{length, Result, ok, ◌>>=◌, ◌>>◌, require}
use warpfile.Bytes.BigEndian.{IsBytes, to_be_bytes, from_be_bytes}
use warpfile.Bytes.Slice.{slice}
use warpfile.Bytes.Utf8.{is_utf8}

pub record DeviceAnnouncement : Type 0 where
  pub device_name : List ℕ
  pub tcp_port : ℕ

pub data DiscoveryError : Type 0 where
  device_name_empty : DiscoveryError
  device_name_too_long : ℕ → DiscoveryError
  invalid_utf8 : DiscoveryError
  invalid_payload_length : DiscoveryError
  invalid_tcp_port : DiscoveryError

-- What the Rust types of the fields say.
pub record IsDeviceAnnouncement (a : DeviceAnnouncement) : Type 0 where
  pub device_name : is_utf8 a.device_name ≡ true
  pub device_name_bytes : IsBytes a.device_name
  pub tcp_port : a.tcp_port < 256 ^ 2

unfoldable pub announcement_bytes : DeviceAnnouncement → List ℕ
announcement_bytes a =
    to_be_bytes 2 (length a.device_name % 2 ^ 16) ++ (a.device_name ++ to_be_bytes 2 a.tcp_port)

unfoldable pub encode_announcement : DeviceAnnouncement → Result (List ℕ) DiscoveryError
encode_announcement a = do
  require (ltb 0 (length a.device_name)) device_name_empty
  require (leb (length a.device_name) (2 ^ 16 - 1)) (device_name_too_long (length a.device_name))
  require (not (a.tcp_port == 0)) invalid_tcp_port
  ok (announcement_bytes a)

unfoldable pub decode_announcement : List ℕ → Result DeviceAnnouncement DiscoveryError
decode_announcement payload = do
  require (leb 4 (length payload)) invalid_payload_length
  length_bytes ← slice payload 0 2
  let name_length = from_be_bytes length_bytes
  require (not (name_length == 0)) device_name_empty
  let expected_length = 2 + name_length + 2
  require (length payload == expected_length) invalid_payload_length
  let name_end = 2 + name_length
  device_name ← slice payload 2 name_end
  require (is_utf8 device_name) invalid_utf8
  port_bytes ← slice payload name_end (name_end + 2)
  let tcp_port = from_be_bytes port_bytes
  require (not (tcp_port == 0)) invalid_tcp_port
  ok (record { device_name = device_name; tcp_port = tcp_port })
