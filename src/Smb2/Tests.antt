-- ===== src/Smb2/Tests.antt =====
-- Packets at concrete inputs.
use smb_mem_lib.Prelude.{◌*◌, ◌^◌, ◌+◌, ◌≡◌, [], ◌∷◌, none, false, arith}
use smb_mem_lib.Wire.{decoded, zeroed}
use smb_mem_lib.Smb2.Packet.{PacketHeader, Stamp, encode_header}
use smb_mem_lib.Smb2.Packet.Codec.{is_invalid, command, header_of}
use smb_mem_lib.Smb2.Packet.RoundTrip.{decode-encode_header}
use smb_mem_lib.Smb2.Request.Create.{CreateRequest}
use smb_mem_lib.Smb2.Response.Close.{CloseResponse}
use smb_mem_lib.Smb2.Request.Messages.{create, decode-encode_request, IsCarried}
use smb_mem_lib.Smb2.Response.Messages.{close, decode-encode_response, IsCarried as IsCarriedBack}

abbrev some_header : PacketHeader
some_header = record {
  credit_charge = 1;
  channel_sequence = 0;
  status = 0xC0000022;
  command = 5;
  credit_request_response = 31;
  flags = 1;
  message_id = 700;
  async_id = 0;
  tree_id = 9;
  session_id = 2 ^ 63 + 5;
}

abbrev open_notes : CreateRequest
open_notes = record {
  security_flags = 0;
  requested_oplock_level = 9;
  impersonation_level = 2;
  smb_create_flags = 0;
  desired_access = 0x12019f;
  file_attributes = 128;
  share_access = 7;
  create_disposition = 3;
  create_options = 64;
  name = 110 ∷ 0x20ac ∷ [];
  contexts = [];
}

abbrev closed : CloseResponse
closed = record {
  close_flags = 1;
  creation_time = none;
  last_access_time = none;
  last_write_time = none;
  change_time = none;
  allocation_size = 4096;
  endof_file = 7;
  file_attributes = 128;
}

abbrev noon : Stamp
noon = record { low = 0x80000000; high = 31000000 }

decode-encode_request_example : IsCarried some_header (create open_notes)
decode-encode_request_example = decode-encode_request some_header (create open_notes) (ground arith)

decode-encode_response_example : IsCarriedBack some_header (close closed noon noon noon noon)
decode-encode_response_example =
    decode-encode_response some_header (close closed noon noon noon noon) (ground arith)

decode-encode_header_example :
    (is_invalid (encode_header some_header (zeroed 120)) ≡ decoded false)
    × (command (encode_header some_header (zeroed 120)) ≡ decoded 5)
    × (header_of (encode_header some_header (zeroed 120))
        ≡ record some_header { channel_sequence = 0x22; async_id = 9 * 2 ^ 32 })
decode-encode_header_example = decode-encode_header some_header 120 (omega arith) (ground arith)
