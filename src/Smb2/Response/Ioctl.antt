-- ===== src/Smb2/Response/Ioctl.antt =====
-- internal/smb2/response.go: IoctlResponse and IoctlResponseDecoder.
use smb_mem_lib.Prelude.{
  ℕ, ◌+◌, ◌-◌, ◌%◌, ◌^◌, ◌<◌, ◌≡◌, refl, Bool, true, false, List, ◌++◌, [], ◌∷◌, Bytes, length, ltb,
  not, Option, none, some, ◌==◌, if◌then◌else◌, arith,
}
use smb_mem_lib.Wire.{
  Slice, Write, u16, u32, raw, write_all, Decoded, rejected, decoded, ◌>>=◌, zeroed, from, uint16,
  uint32, slice, bytes_at,
}
use smb_mem_lib.Wire.Words.{word32, word64}
use smb_mem_lib.Wire.Writes.{bytes_at-raw}
use smb_mem_lib.Smb2.Packet.{
  PacketHeader, encode_header, FileId, file_id_writes, file_id_at, IsFileId, given_size,
}
use smb_mem_lib.Smb2.Packet.Headers.{
  len-encode_header, byte-encode_header, fault-write_all-encode_header,
}

pub record IoctlResponse : Type 0 where
  pub ctl_code : ℕ
  pub file_id : FileId
  pub flags2 : ℕ
  pub input : Option Bytes
  pub output : Option Bytes

-- Size
abbrev ioctl_size : Option Bytes → Option Bytes → ℕ
ioctl_size none none = 64 + 48 + 1
ioctl_size (some i) none = 64 + 48 + length i
ioctl_size none (some o) = 64 + 48 + length o
ioctl_size (some i) (some o) = 64 + 48 + length i + length o

-- The writes of Output, which starts at `off`, and of Input and Output
abbrev output_writes : ℕ → Option Bytes → List Write
output_writes off none = []
output_writes off (some o) =
    u32 (64 + 32) (off + 64) ∷ raw (64 + off) o ∷ u32 (64 + 36) (length o) ∷ []

abbrev input_writes : Option Bytes → Option Bytes → List Write
input_writes none output = output_writes 48 output
input_writes (some i) output =
    u32 (64 + 24) (48 + 64)
    ∷ raw (64 + 48) i
    ∷ u32 (64 + 28) (length i)
    ∷ output_writes (48 + length i) output

-- Size
abbrev pub size : IoctlResponse → ℕ
size c = ioctl_size c.input c.output

-- The writes of Encode
abbrev fields : IoctlResponse → List Write
fields c =
    u16 64 49
    ∷ u32 (64 + 4) c.ctl_code
    ∷ (file_id_writes (64 + 8) c.file_id ++ (u32 (64 + 40) c.flags2 ∷ []))

-- Encode
pub encode : PacketHeader → IoctlResponse → Slice → Slice
encode h c pkt =
    write_all (fields c ++ input_writes c.input c.output)
      (encode_header (record h { command = 11 }) pkt)

-- Input: the end is uint32.
input : Slice → Decoded Bytes
unfolding slice
input r =
    if ltb (uint32 24 r) (64 + 48)
    then decoded []
    else slice (uint32 24 r - 64) ((uint32 24 r - 64 + uint32 28 r) % 2 ^ 32) r

-- Output: the end is uint32.
output : Slice → Decoded Bytes
unfolding slice
output r =
    if ltb (uint32 32 r) (64 + 48)
    then decoded []
    else slice (uint32 32 r - 64) ((uint32 32 r - 64 + uint32 36 r) % 2 ^ 32) r

-- IsInvalid
pub is_invalid : Slice → Bool
is_invalid r =
    if ltb r.len 48
    then true
    else if not (uint16 0 r == 49)
    then true
    else if ltb (r.len + 64) ((uint32 24 r + uint32 28 r) % 2 ^ 32)
    then true
    else ltb (r.len + 64) ((uint32 32 r + uint32 36 r) % 2 ^ 32)

-- What the decoder reads
pub record IoctlResponseView : Type 0 where
  pub ctl_code : ℕ
  pub file_id : FileId
  pub flags2 : ℕ
  pub input : Bytes
  pub output : Bytes

-- The fields, read behind IsInvalid
pub decode : Slice → Decoded IoctlResponseView
decode r =
    if is_invalid r
    then rejected
    else (input r >>= λ input_bytes. output r >>= λ output_bytes. decoded (record {
      ctl_code = uint32 4 r;
      file_id = file_id_at 8 r;
      flags2 = uint32 40 r;
      input = input_bytes;
      output = output_bytes;
    }))

-- What fits into the fields
abbrev pub IsWire : IoctlResponse → Type 0
IsWire c =
    (c.ctl_code < 2 ^ 32)
    × IsFileId c.file_id
    × (c.flags2 < 2 ^ 32)
    × (given_size 0 c.output < 2 ^ 31)

module _ (h : PacketHeader) (c : IoctlResponse) (o : Bytes)
    (w : IsWire (record c { input = none; output = some o })) where
  abbrev full : IoctlResponse
  full = record c { input = none; output = some o }

  abbrev pub sent : Slice
  sent = encode h full (zeroed (size full))

  sent_len : sent.len ≡ size full
  unfolding encode
  sent_len = len-encode_header (record h { command = 11 }) (zeroed (size full))

  sent_fault : sent.fault ≡ false
  unfolding encode
  sent_fault =
      fault-write_all-encode_header (record h { command = 11 }) (zeroed (size full)) (size full)
        (fields full ++ input_writes full.input full.output) refl refl (ground arith) (ground arith)

  sent_bytes : bytes_at 48 (length o) (from 64 sent) ≡ o
  unfolding encode
  sent_bytes =
      bytes_at-raw 48 o (fields full ++ (u32 (64 + 32) 112 ∷ [])) (u32 (64 + 36) (length o) ∷ [])
        (encode_header (record h { command = 11 }) (zeroed (size full))) (omega arith)

  sent_offset : uint32 24 (from 64 sent) ≡ 0
  unfolding encode
  sent_offset = ground (
    arith,
    byte-encode_header (record h { command = 11 }) (zeroed (size full)) 88 (omega arith),
    byte-encode_header (record h { command = 11 }) (zeroed (size full)) 89 (omega arith),
    byte-encode_header (record h { command = 11 }) (zeroed (size full)) 90 (omega arith),
    byte-encode_header (record h { command = 11 }) (zeroed (size full)) 91 (omega arith),
  )

  sent_count : uint32 28 (from 64 sent) ≡ 0
  unfolding encode
  sent_count = ground (
    arith,
    byte-encode_header (record h { command = 11 }) (zeroed (size full)) 92 (omega arith),
    byte-encode_header (record h { command = 11 }) (zeroed (size full)) 93 (omega arith),
    byte-encode_header (record h { command = 11 }) (zeroed (size full)) 94 (omega arith),
    byte-encode_header (record h { command = 11 }) (zeroed (size full)) 95 (omega arith),
  )

  sent_valid : is_invalid (from 64 sent) ≡ false
  unfolding encode is_invalid
  sent_valid = ground (arith, w, sent_len, word32 (length o), sent_offset, sent_count)

  sent-input : input (from 64 sent) ≡ decoded []
  unfolding input
  sent-input = rw sent_offset refl

  sent-output : output (from 64 sent) ≡ decoded o
  unfolding encode output slice
  sent-output = ground (arith, w, sent_len, sent_bytes, word32 (length o))

  pub decode-encode :
      (sent.fault ≡ false)
      × (decode (from 64 sent)
          ≡ decoded (record {
            ctl_code = full.ctl_code;
            file_id = full.file_id;
            flags2 = full.flags2;
            input = [];
            output = o;
          }))
  unfolding encode decode
  decode-encode = (
    sent_fault,
    rw (sent_valid, sent-input, sent-output)
        (ground (
          arith,
          word32 full.ctl_code w.0,
          word64 full.file_id.persistent w.1.0,
          word64 full.file_id.volatile w.1.1,
          word32 full.flags2 w.2,
        )),
  )
