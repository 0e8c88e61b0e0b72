-- ===== src/Smb2/Request/ChangeNotify.antt =====
-- internal/smb2/request.go: ChangeNotifyRequest and ChangeNotifyRequestDecoder.
use smb_mem_lib.Prelude.{ℕ, ◌*◌, Bool, true, not, ◌==◌, if◌then◌else◌}
use smb_mem_lib.Wire.{Slice, Decoded, rejected, decoded, uint16, uint32}
use smb_mem_lib.Smb2.Packet.{FileId, file_id_at}

pub record ChangeNotifyRequest : Type 0 where

-- Size
abbrev size : ChangeNotifyRequest → ℕ
size c = 64 * 2

-- IsInvalid
unfoldable pub is_invalid : Slice → Bool
is_invalid r = if not (r.len == 32) then true else not (uint16 0 r == 32)

-- What the decoder reads
pub record ChangeNotifyRequestView : Type 0 where
  pub flags : ℕ
  pub output_buffer_length : ℕ
  pub file_id : FileId
  pub completion_filter : ℕ

-- The fields, read behind IsInvalid
unfoldable pub decode : Slice → Decoded ChangeNotifyRequestView
decode r =
    if is_invalid r
    then rejected
    else (decoded (record {
      flags = uint16 2 r;
      output_buffer_length = uint32 4 r;
      file_id = file_id_at 8 r;
      completion_filter = uint32 24 r;
    }))
