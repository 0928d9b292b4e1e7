-- ===== src/Protocol/Announcement/RoundTrip.antt =====
-- Decoding an encoded announcement.
use warpfile.Common.{ℕ, ◌+◌, ◌-◌, ◌^◌, ◌%◌, ◌≡◌, ◌≤◌, ◌<◌, refl, sym, ◌∙◌, arith, List, [], ◌++◌}
use warpfile.Common.{length, drop, length-append, ok}
use mathlib.Core.List.{append-nil}
use warpfile.Bytes.BigEndian.{to_be_bytes, length-to_be_bytes, from_be_bytes-to_be_bytes}
use warpfile.Bytes.Slice.{slice, drop-next, slice-of_drop}
use warpfile.Protocol.Announcement.{
  DeviceAnnouncement, DiscoveryError, IsDeviceAnnouncement, encode_announcement,
  decode_announcement, announcement_bytes,
}

module _ (a : DeviceAnnouncement) (valid : IsDeviceAnnouncement a) where
  abbrev n : ℕ
  n = length a.device_name

  abbrev payload : List ℕ
  payload = announcement_bytes a

  abbrev name_length : List ℕ
  name_length = to_be_bytes 2 (n % 2 ^ 16)

  abbrev port : List ℕ
  port = to_be_bytes 2 a.tcp_port

  length-announcement_bytes : length payload ≡ 4 + n
  unfolding announcement_bytes
  length-announcement_bytes = omega (
    arith,
    length-append name_length (a.device_name ++ port),
    length-append a.device_name port,
    length-to_be_bytes 2 (n % 2 ^ 16),
    length-to_be_bytes 2 a.tcp_port,
  )

  at_name : drop 2 payload ≡ a.device_name ++ port
  unfolding announcement_bytes
  at_name = drop-next payload name_length _ 0 2 refl (rw length-to_be_bytes refl)

  at_port : drop (2 + n) payload ≡ port ++ []
  at_port = drop-next payload a.device_name _ 2 (2 + n) at_name refl ∙ sym (append-nil port)

  abbrev Field : ℕ → ℕ → List ℕ → Type 0
  Field lo hi field = slice {E = DiscoveryError} payload lo hi ≡ ok field

  fields : Field 0 2 name_length × Field 2 (2 + n) a.device_name × Field (2 + n) (2 + n + 2) port
  fields =
      let l = length-announcement_bytes in
      (
        (unfold announcement_bytes in
            slice-of_drop payload name_length _ 0 2 refl (rw length-to_be_bytes refl)
              (omega arith)),
        slice-of_drop payload a.device_name _ 2 (2 + n) at_name refl (omega arith),
        slice-of_drop payload port _ (2 + n) (2 + n + 2) at_port (rw length-to_be_bytes refl)
            (omega arith),
      )

  decode-announcement_bytes :
      0 < n → n ≤ 2 ^ 16 - 1 → 0 < a.tcp_port → decode_announcement payload ≡ ok a
  unfolding decode_announcement
  decode-announcement_bytes pos short open_port =
      let (f0, f1, f2) = fields in
      ground (
        arith,
        f0,
        f1,
        f2,
        length-announcement_bytes,
        valid.device_name,
        valid.tcp_port,
        from_be_bytes-to_be_bytes 2 (n % 2 ^ 16),
        from_be_bytes-to_be_bytes 2 a.tcp_port,
      )

  encode_parts :
      (bytes : List ℕ)
      → encode_announcement a ≡ ok bytes
      → (bytes ≡ payload) × (0 < n) × (n ≤ 2 ^ 16 - 1) × (0 < a.tcp_port)
  unfolding encode_announcement
  encode_parts bytes h = ground arith

  pub decode_announcement-encode :
      (bytes : List ℕ) → encode_announcement a ≡ ok bytes → decode_announcement bytes ≡ ok a
  decode_announcement-encode bytes h =
      let (e, pos, short, open_port) = encode_parts bytes h in
      rw e (decode-announcement_bytes pos short open_port)
