-- ===== src/Protocol/Announcement/Canonical.antt =====
-- What `decode_announcement` accepts is the encoding of what it returns; it never panics.
use warpfile.Common.{ℕ, ◌+◌, ◌^◌, ◌%◌, ◌≡◌, ◌≢◌, ◌<◌, sym, arith, List, [], true}
use warpfile.Common.{length, drop, ok, panic, drop-length, ◌↔◌}
use mathlib.Core.List.{append-nil}
use warpfile.Bytes.BigEndian.{IsBytes, from_be_bytes}
use warpfile.Bytes.Parts.{
  part, slice-eq-part, part-append-drop, length-part, part-IsBytes, number-lt, write_back,
}
use warpfile.Bytes.Utf8.{is_utf8}
use warpfile.Protocol.Announcement.{
  DeviceAnnouncement, DiscoveryError, IsDeviceAnnouncement, encode_announcement,
  decode_announcement, announcement_bytes,
}
use warpfile.Protocol.Announcement.RoundTrip.{decode_announcement-encode}

module _ (payload : List ℕ) where
  -- The declared length of the device name.
  abbrev n : ℕ
  n = from_be_bytes (part payload 0 2)

  -- `decode_announcement` never panics, whatever the bytes.
  pub decode_announcement-ne-panic : decode_announcement payload ≢ panic
  unfolding decode_announcement
  decode_announcement-ne-panic h =
      let cut = slice-eq-part payload {E = DiscoveryError} in
      ground (arith, cut 0 2, cut 2 (2 + n), cut (2 + n) (2 + n + 2))

  record Parts (a : DeviceAnnouncement) : Type 0 where
    long : length payload ≡ 4 + n
    device_name : a.device_name ≡ part payload 2 (2 + n)
    utf8 : is_utf8 a.device_name ≡ true
    named : 0 < n
    tcp_port : a.tcp_port ≡ from_be_bytes (part payload (2 + n) (4 + n))
    open_port : 0 < a.tcp_port

  parts : (a : DeviceAnnouncement) → decode_announcement payload ≡ ok a → Parts a
  unfolding decode_announcement
  parts a h =
      let cut = slice-eq-part payload {E = DiscoveryError} in
      ground (arith, cut 0 2, cut 2 (2 + n), cut (2 + n) (4 + n))

  module _ (a : DeviceAnnouncement) (b : IsBytes payload)
      (decoded : decode_announcement payload ≡ ok a) where
    abbrev got : Parts a
    got = parts a decoded

    length-device_name : length a.device_name ≡ n
    length-device_name =
        rw (got.device_name)
          (length-part payload (4 + n) (got.long) 2 (2 + n) n (omega arith) (omega arith))

    decode-IsDeviceAnnouncement : IsDeviceAnnouncement a
    decode-IsDeviceAnnouncement = record {
      device_name = got.utf8;
      device_name_bytes =
          rw (got.device_name) (part-IsBytes payload (4 + n) (got.long) b 2 (2 + n));
      tcp_port =
          rw (got.tcp_port)
            (number-lt payload (4 + n) (got.long) b 2 (2 + n) (4 + n) (omega arith) (omega arith));
    }

    short : n < 256 ^ 2
    short = number-lt payload (4 + n) (got.long) b 2 0 2 (omega arith) (omega arith)

    payload-eq-announcement_bytes : payload ≡ announcement_bytes a
    unfolding announcement_bytes
    payload-eq-announcement_bytes =
        let done : drop (4 + n) payload ≡ [] = rw (← got.long) (drop-length payload) in
        let back = write_back payload (4 + n) (got.long) b in
        cc (
          got.device_name,
          done,
          append-nil (part payload (2 + n) (4 + n)),
          part-append-drop payload 0 2 (omega arith),
          part-append-drop payload 2 (2 + n) (omega arith),
          part-append-drop payload (2 + n) (4 + n) (omega arith),
          back 2 0 2 (length a.device_name % 2 ^ 16) (omega (arith, length-device_name, short))
              (omega arith) (omega arith),
          back 2 (2 + n) (4 + n) a.tcp_port (got.tcp_port) (omega arith) (omega arith),
        )

    encode_announcement-decode : encode_announcement a ≡ ok payload
    unfolding encode_announcement
    encode_announcement-decode = ground (
      arith,
      short,
      length-device_name,
      got.named,
      got.open_port,
      sym payload-eq-announcement_bytes,
    )

-- On a list of bytes, `decode_announcement` returns an announcement exactly when its fields have
-- their types (a UTF-8 name, a `u16` port) and `encode_announcement` gives these bytes.
pub decode_announcement_iff :
    (payload : List ℕ) (a : DeviceAnnouncement)
    → IsBytes payload
    → (decode_announcement payload ≡ ok a)
      ↔ (IsDeviceAnnouncement a × (encode_announcement a ≡ ok payload))
decode_announcement_iff payload a b = (
  (λ h. (decode-IsDeviceAnnouncement payload a b h, encode_announcement-decode payload a b h)),
  (λ h. decode_announcement-encode a h.0 payload h.1),
)
