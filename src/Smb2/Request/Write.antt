-- ===== src/Smb2/Request/Write.antt =====
-- internal/smb2/request.go: WriteRequest and WriteRequestDecoder.
use smb_mem_lib.Prelude.{
  ℕ, ◌+◌, ◌%◌, ◌^◌, ◌<◌, ◌≡◌, refl, Bool, true, false, ◌&&◌, List, ◌++◌, [], ◌∷◌, Bytes, length,
  ltb, not, ◌==◌, if◌then◌else◌, arith,
}
use smb_mem_lib.Wire.{
  Slice, Write, u16, u32, u64, copied, write_all, Decoded, rejected, decoded, ◌>>=◌, zeroed, from,
  uint16, uint32, uint64, slice, bytes_at, encoders,
}
use smb_mem_lib.Wire.Words.{word32, word64}
use smb_mem_lib.Wire.Writes.{bytes_at-copied}
use smb_mem_lib.Smb2.Packet.{
  PacketHeader, encode_header, FileId, file_id_writes, file_id_at, IsFileId,
}
use smb_mem_lib.Smb2.Packet.Contexts.{encoders_size}
use smb_mem_lib.Smb2.Packet.Headers.{
  len-encode_header, byte-encode_header, fault-write_all-encode_header,
}

pub record WriteRequest : Type 0 where
  pub file_id : FileId
  pub flags : ℕ
  pub channel : ℕ
  pub remaining_bytes : ℕ
  pub offset : ℕ
  pub write_channel_info : List Bytes
  pub payload : Bytes

-- The loop over WriteChannelInfo
abbrev write_channel_writes : List Bytes → List Write
write_channel_writes [] = []
write_channel_writes (e ∷ es) = u16 (64 + 40) (64 + 48) ∷ encoders (64 + 48) (e ∷ es)

-- WriteChannelInfoLength, DataOffset, the data and Length, where the channel infos take `t` bytes
abbrev data_writes : ℕ → Bytes → List Write
data_writes t payload =
    u16 (64 + 42) t
    ∷ u16 (64 + 2) (64 + (48 + t))
    ∷ copied (64 + (48 + t)) payload
    ∷ u32 (64 + 4) (length payload)
    ∷ []

-- Size
abbrev pub size : WriteRequest → ℕ
size c =
    if length c.payload == 0 && length c.write_channel_info == 0
    then 64 + 48 + 1
    else 64 + 48 + encoders_size c.write_channel_info + length c.payload

-- The writes of Encode
abbrev fields : WriteRequest → List Write
fields c =
    u16 64 49
    ∷ u64 (64 + 8) c.offset
    ∷ (file_id_writes (64 + 16) c.file_id
        ++ (u32 (64 + 32) c.channel ∷ u32 (64 + 36) c.remaining_bytes ∷ u32 (64 + 44) c.flags ∷ []))

-- Encode
pub encode : PacketHeader → WriteRequest → Slice → Slice
encode h c pkt =
    write_all
      (fields c
        ++ (write_channel_writes c.write_channel_info
            ++ data_writes (encoders_size c.write_channel_info) c.payload))
      (encode_header (record h { command = 9 }) pkt)

-- Data starts at 48, whatever DataOffset is; the end is uint32.
write_data : Slice → Decoded Bytes
unfolding slice
write_data r = slice 48 ((48 + uint32 4 r) % 2 ^ 32) r

-- IsInvalid
is_invalid : Slice → Bool
is_invalid r =
    if ltb r.len 48
    then true
    else if not (uint16 0 r == 49)
    then true
    else if ltb (r.len + 64) ((uint16 40 r + uint16 42 r) % 2 ^ 16)
    then true
    else ltb (r.len + 64) ((uint16 2 r + uint32 4 r) % 2 ^ 32)

-- What the decoder reads
pub record WriteRequestView : Type 0 where
  pub file_id : FileId
  pub flags : ℕ
  pub channel : ℕ
  pub remaining_bytes : ℕ
  pub offset : ℕ
  pub data_offset : ℕ
  pub write_channel_info_offset : ℕ
  pub write_channel_info_length : ℕ
  pub payload : Bytes

-- The fields, read behind IsInvalid
pub decode : Slice → Decoded WriteRequestView
decode r =
    if is_invalid r
    then rejected
    else (write_data r >>= λ payload. decoded (record {
      file_id = file_id_at 16 r;
      flags = uint32 44 r;
      channel = uint32 32 r;
      remaining_bytes = uint32 36 r;
      offset = uint64 8 r;
      data_offset = uint16 2 r;
      write_channel_info_offset = uint16 40 r;
      write_channel_info_length = uint16 42 r;
      payload = payload;
    }))

-- What fits into the fields
abbrev pub IsWire : WriteRequest → Type 0
IsWire c =
    (c.offset < 2 ^ 64)
    × IsFileId c.file_id
    × (c.channel < 2 ^ 32)
    × (c.remaining_bytes < 2 ^ 32)
    × (c.flags < 2 ^ 32)
    × (length c.payload < 2 ^ 31)

module _ (h : PacketHeader) (c : WriteRequest)
    (w : IsWire (record c { write_channel_info = [] })) where
  abbrev full : WriteRequest
  full = record c { write_channel_info = [] }

  abbrev pub sent : Slice
  sent = encode h full (zeroed (size full))

  sent_len : sent.len ≡ size full
  unfolding encode
  sent_len = len-encode_header (record h { command = 9 }) (zeroed (size full))

  sent_fault : sent.fault ≡ false
  unfolding encode
  sent_fault =
      fault-write_all-encode_header (record h { command = 9 }) (zeroed (size full)) (size full)
        (fields full
          ++ (write_channel_writes full.write_channel_info
              ++ data_writes (encoders_size full.write_channel_info) full.payload))
        refl refl (ground arith) (ground arith)

  sent_bytes : bytes_at 48 (length full.payload) (from 64 sent) ≡ full.payload
  unfolding encode
  sent_bytes =
      bytes_at-copied 48 full.payload (fields full ++ (u16 (64 + 42) 0 ∷ u16 (64 + 2) 112 ∷ []))
        (u32 (64 + 4) (length full.payload) ∷ [])
        (encode_header (record h { command = 9 }) (zeroed (size full))) (omega arith)

  sent_valid : is_invalid (from 64 sent) ≡ false
  unfolding encode is_invalid
  sent_valid = ground (
    arith,
    w,
    sent_len,
    word32 (length full.payload),
    byte-encode_header (record h { command = 9 }) (zeroed (size full)) 104 (omega arith),
    byte-encode_header (record h { command = 9 }) (zeroed (size full)) 105 (omega arith),
  )

  sent-write_data : write_data (from 64 sent) ≡ decoded full.payload
  unfolding encode write_data slice
  sent-write_data = ground (arith, w, sent_len, sent_bytes, word32 (length full.payload))

  pub decode-encode :
      (sent.fault ≡ false)
      × (decode (from 64 sent)
          ≡ decoded (record {
            file_id = full.file_id;
            flags = full.flags;
            channel = full.channel;
            remaining_bytes = full.remaining_bytes;
            offset = full.offset;
            data_offset = 112;
            write_channel_info_offset = 0;
            write_channel_info_length = 0;
            payload = full.payload;
          }))
  unfolding encode decode
  decode-encode = (
    sent_fault,
    rw (sent_valid, sent-write_data)
        (ground (
          arith,
          word64 full.offset w.0,
          word64 full.file_id.persistent w.1.0,
          word64 full.file_id.volatile w.1.1,
          word32 full.channel w.2,
          word32 full.remaining_bytes w.3,
          word32 full.flags w.4,
          byte-encode_header (record h { command = 9 }) (zeroed (size full)) 104 (omega arith),
          byte-encode_header (record h { command = 9 }) (zeroed (size full)) 105 (omega arith),
        )),
  )
