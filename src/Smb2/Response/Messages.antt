-- ===== src/Smb2/Response/Messages.antt =====
-- internal/smb2/response.go: all messages together.
use smb_mem_lib.Prelude.{Bytes, ℕ, [], ◌∷◌, none, some}
use smb_mem_lib.Wire.{zeroed, Carries}
use smb_mem_lib.Smb2.Packet.{PacketHeader, Stamp}
use smb_mem_lib.Smb2.Response.Logoff
use smb_mem_lib.Smb2.Response.TreeDisconnect
use smb_mem_lib.Smb2.Response.Flush
use smb_mem_lib.Smb2.Response.SetInfo
use smb_mem_lib.Smb2.Response.TreeConnect
use smb_mem_lib.Smb2.Response.Close
use smb_mem_lib.Smb2.Response.Create
use smb_mem_lib.Smb2.Response.Negotiate
use smb_mem_lib.Smb2.Response.SessionSetup
use smb_mem_lib.Smb2.Response.Read
use smb_mem_lib.Smb2.Response.Write
use smb_mem_lib.Smb2.Response.Ioctl
use smb_mem_lib.Smb2.Response.QueryDirectory
use smb_mem_lib.Smb2.Response.QueryInfo

-- A message that carries no channel infos and no contexts, with what its optional part is
pub data Message : Type 0 where
  logoff : Logoff.LogoffResponse → Message
  tree_disconnect : TreeDisconnect.TreeDisconnectResponse → Message
  flush : Flush.FlushResponse → Message
  set_info : SetInfo.SetInfoResponse → Message
  tree_connect : TreeConnect.TreeConnectResponse → Message
  close : Close.CloseResponse → Stamp → Stamp → Stamp → Stamp → Message
  create : Create.CreateResponse → Stamp → Stamp → Stamp → Stamp → Message
  negotiate : Negotiate.NegotiateResponse → Message
  session_setup : SessionSetup.SessionSetupResponse → ℕ → Bytes → Message
  read : Read.ReadResponse → Message
  write : Write.WriteResponse → Message
  ioctl : Ioctl.IoctlResponse → Bytes → Message
  query_directory : QueryDirectory.QueryDirectoryResponse → Bytes → Message
  query_info : QueryInfo.QueryInfoResponse → Bytes → Message

abbrev pub IsFit : Message → Type 0
IsFit (logoff c) = Logoff.IsWire c
IsFit (tree_disconnect c) = TreeDisconnect.IsWire c
IsFit (flush c) = Flush.IsWire c
IsFit (set_info c) = SetInfo.IsWire c
IsFit (tree_connect c) = TreeConnect.IsWire c
IsFit (close c creation_time last_access_time last_write_time change_time) =
    Close.IsWire (record c {
      creation_time = some creation_time;
      last_access_time = some last_access_time;
      last_write_time = some last_write_time;
      change_time = some change_time;
    })
IsFit (create c creation_time last_access_time last_write_time change_time) =
    Create.IsWire (record c {
      creation_time = some creation_time;
      last_access_time = some last_access_time;
      last_write_time = some last_write_time;
      change_time = some change_time;
      contexts = [];
    })
IsFit (negotiate c) = Negotiate.IsWire (record c { contexts = [] })
IsFit (session_setup c x xs) = SessionSetup.IsWire (record c { security_buffer = x ∷ xs })
IsFit (read c) = Read.IsWire c
IsFit (write c) = Write.IsWire c
IsFit (ioctl c o) = Ioctl.IsWire (record c { input = none; output = some o })
IsFit (query_directory c output) = QueryDirectory.IsWire (record c { output = some output })
IsFit (query_info c output) = QueryInfo.IsWire (record c { output = some output })

abbrev pub IsCarried : PacketHeader → Message → Type 0
IsCarried h (logoff c) =
    Carries {B = Logoff.LogoffResponse} (Logoff.encode h c (zeroed (Logoff.size c))) Logoff.decode c
IsCarried h (tree_disconnect c) =
    Carries {B = TreeDisconnect.TreeDisconnectResponse}
      (TreeDisconnect.encode h c (zeroed (TreeDisconnect.size c))) TreeDisconnect.decode c
IsCarried h (flush c) =
    Carries {B = Flush.FlushResponse} (Flush.encode h c (zeroed (Flush.size c))) Flush.decode c
IsCarried h (set_info c) =
    Carries {B = SetInfo.SetInfoResponse} (SetInfo.encode h c (zeroed (SetInfo.size c)))
      SetInfo.decode c
IsCarried h (tree_connect c) =
    Carries {B = TreeConnect.TreeConnectResponse}
      (TreeConnect.encode h c (zeroed (TreeConnect.size c))) TreeConnect.decode c
IsCarried h (close c creation_time last_access_time last_write_time change_time) =
    Carries {B = Close.CloseResponse}
      (Close.encode h
        (record c {
          creation_time = some creation_time;
          last_access_time = some last_access_time;
          last_write_time = some last_write_time;
          change_time = some change_time;
        })
        (zeroed (
          Close.size (record c {
            creation_time = some creation_time;
            last_access_time = some last_access_time;
            last_write_time = some last_write_time;
            change_time = some change_time;
          }))))
      Close.decode
      (record c {
        creation_time = some creation_time;
        last_access_time = some last_access_time;
        last_write_time = some last_write_time;
        change_time = some change_time;
      })
IsCarried h (create c creation_time last_access_time last_write_time change_time) =
    Carries {B = Create.CreateResponseView}
      (Create.encode h
        (record c {
          creation_time = some creation_time;
          last_access_time = some last_access_time;
          last_write_time = some last_write_time;
          change_time = some change_time;
          contexts = [];
        })
        (zeroed (
          Create.size (record c {
            creation_time = some creation_time;
            last_access_time = some last_access_time;
            last_write_time = some last_write_time;
            change_time = some change_time;
            contexts = [];
          }))))
      Create.decode
      (record {
        oplock_level = c.oplock_level;
        rsp_flags = c.rsp_flags;
        create_action = c.create_action;
        creation_time = some creation_time;
        last_access_time = some last_access_time;
        last_write_time = some last_write_time;
        change_time = some change_time;
        allocation_size = c.allocation_size;
        endof_file = c.endof_file;
        file_attributes = c.file_attributes;
        file_id = c.file_id;
        create_contexts = [];
      })
IsCarried h (negotiate c) =
    Carries {B = Negotiate.NegotiateResponseView}
      (Negotiate.encode h (record c { contexts = [] })
        (zeroed (Negotiate.size (record c { contexts = [] }))))
      Negotiate.decode
      (record {
        security_mode = c.security_mode;
        dialect_revision = c.dialect_revision;
        server_guid = c.server_guid;
        capabilities = c.capabilities;
        max_transact_size = c.max_transact_size;
        max_read_size = c.max_read_size;
        max_write_size = c.max_write_size;
        system_time = c.system_time;
        server_start_time = c.server_start_time;
        security_buffer = c.security_buffer;
        negotiate_context_offset = 0;
        negotiate_context_count = 0;
      })
IsCarried h (session_setup c x xs) =
    Carries {B = SessionSetup.SessionSetupResponse}
      (SessionSetup.encode h (record c { security_buffer = x ∷ xs })
        (zeroed (SessionSetup.size (record c { security_buffer = x ∷ xs }))))
      SessionSetup.decode (record c { security_buffer = x ∷ xs })
IsCarried h (read c) =
    Carries {B = Read.ReadResponse} (Read.encode h c (zeroed (Read.size c))) Read.decode c
IsCarried h (write c) =
    Carries {B = Write.WriteResponse} (Write.encode h c (zeroed (Write.size c))) Write.decode c
IsCarried h (ioctl c o) =
    Carries {B = Ioctl.IoctlResponseView}
      (Ioctl.encode h (record c { input = none; output = some o })
        (zeroed (Ioctl.size (record c { input = none; output = some o }))))
      Ioctl.decode
      (record {
        ctl_code = c.ctl_code;
        file_id = c.file_id;
        flags2 = c.flags2;
        input = [];
        output = o;
      })
IsCarried h (query_directory c output) =
    Carries {B = QueryDirectory.QueryDirectoryResponse}
      (QueryDirectory.encode h (record c { output = some output })
        (zeroed (QueryDirectory.size (record c { output = some output }))))
      QueryDirectory.decode (record c { output = some output })
IsCarried h (query_info c output) =
    Carries {B = QueryInfo.QueryInfoResponse}
      (QueryInfo.encode h (record c { output = some output })
        (zeroed (QueryInfo.size (record c { output = some output }))))
      QueryInfo.decode (record c { output = some output })

-- Every response that has a decoder, the error response set apart, that Encode writes into a fresh slice
-- of the size that Size gives, is within the slice, is not rejected by IsInvalid, and its decoder reads
-- the fields back with no panic: if they fit (numbers into their width, buffers below 2 ^ 15 bytes, data
-- below 2 ^ 31 bytes), if there are no contexts, if times, the Output and the buffer of SESSION_SETUP are
-- there, and if IOCTL has no Input.
pub decode-encode_response : (h : PacketHeader) (m : Message) → IsFit m → IsCarried h m
decode-encode_response h (logoff c) w = Logoff.decode-encode h c w
decode-encode_response h (tree_disconnect c) w = TreeDisconnect.decode-encode h c w
decode-encode_response h (flush c) w = Flush.decode-encode h c w
decode-encode_response h (set_info c) w = SetInfo.decode-encode h c w
decode-encode_response h (tree_connect c) w = TreeConnect.decode-encode h c w
decode-encode_response h (close c creation_time last_access_time last_write_time change_time) w =
    Close.decode-encode h c creation_time last_access_time last_write_time change_time w
decode-encode_response h (create c creation_time last_access_time last_write_time change_time) w =
    Create.decode-encode h c creation_time last_access_time last_write_time change_time w
decode-encode_response h (negotiate c) w = Negotiate.decode-encode h c w
decode-encode_response h (session_setup c x xs) w = SessionSetup.decode-encode h c x xs w
decode-encode_response h (read c) w = Read.decode-encode h c w
decode-encode_response h (write c) w = Write.decode-encode h c w
decode-encode_response h (ioctl c o) w = Ioctl.decode-encode h c o w
decode-encode_response h (query_directory c output) w = QueryDirectory.decode-encode h c output w
decode-encode_response h (query_info c output) w = QueryInfo.decode-encode h c output w
