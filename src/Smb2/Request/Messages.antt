-- ===== src/Smb2/Request/Messages.antt =====
-- internal/smb2/request.go: all messages together.
use smb_mem_lib.Prelude.{Bytes, [], length, some}
use smb_mem_lib.Wire.{zeroed, Carries}
use smb_mem_lib.Smb2.Packet.{PacketHeader}
use smb_mem_lib.Smb2.Request.Close
use smb_mem_lib.Smb2.Request.Flush
use smb_mem_lib.Smb2.Request.SessionSetup
use smb_mem_lib.Smb2.Request.TreeConnect
use smb_mem_lib.Smb2.Request.QueryDirectory
use smb_mem_lib.Smb2.Request.Logoff
use smb_mem_lib.Smb2.Request.TreeDisconnect
use smb_mem_lib.Smb2.Request.Cancel
use smb_mem_lib.Smb2.Request.Ioctl
use smb_mem_lib.Smb2.Request.SetInfo
use smb_mem_lib.Smb2.Request.QueryInfo
use smb_mem_lib.Smb2.Request.Read
use smb_mem_lib.Smb2.Request.Write
use smb_mem_lib.Smb2.Request.Create
use smb_mem_lib.Smb2.Request.Negotiate

-- A message that carries no channel infos and no contexts, with what its optional part is
pub data Message : Type 0 where
  close : Close.CloseRequest → Message
  flush : Flush.FlushRequest → Message
  session_setup : SessionSetup.SessionSetupRequest → Message
  tree_connect : TreeConnect.TreeConnectRequest → Message
  query_directory : QueryDirectory.QueryDirectoryRequest → Message
  logoff : Logoff.LogoffRequest → Message
  tree_disconnect : TreeDisconnect.TreeDisconnectRequest → Message
  cancel : Cancel.CancelRequest → Message
  ioctl : Ioctl.IoctlRequest → Bytes → Message
  set_info : SetInfo.SetInfoRequest → Bytes → Message
  query_info : QueryInfo.QueryInfoRequest → Bytes → Message
  read : Read.ReadRequest → Message
  write : Write.WriteRequest → Message
  create : Create.CreateRequest → Message
  negotiate : Negotiate.NegotiateRequest → Message

abbrev pub IsFit : Message → Type 0
IsFit (close c) = Close.IsWire c
IsFit (flush c) = Flush.IsWire c
IsFit (session_setup c) = SessionSetup.IsWire c
IsFit (tree_connect c) = TreeConnect.IsWire c
IsFit (query_directory c) = QueryDirectory.IsWire c
IsFit (logoff c) = Logoff.IsWire c
IsFit (tree_disconnect c) = TreeDisconnect.IsWire c
IsFit (cancel c) = Cancel.IsWire c
IsFit (ioctl c input) = Ioctl.IsWire (record c { input = some input })
IsFit (set_info c input) = SetInfo.IsWire (record c { input = some input })
IsFit (query_info c input) = QueryInfo.IsWire (record c { input = some input })
IsFit (read c) = Read.IsWire (record c { read_channel_info = [] })
IsFit (write c) = Write.IsWire (record c { write_channel_info = [] })
IsFit (create c) = Create.IsWire (record c { contexts = [] })
IsFit (negotiate c) = Negotiate.IsWire (record c { contexts = [] })

abbrev pub IsCarried : PacketHeader → Message → Type 0
IsCarried h (close c) =
    Carries {B = Close.CloseRequest} (Close.encode h c (zeroed (Close.size c))) Close.decode c
IsCarried h (flush c) =
    Carries {B = Flush.FlushRequest} (Flush.encode h c (zeroed (Flush.size c))) Flush.decode c
IsCarried h (session_setup c) =
    Carries {B = SessionSetup.SessionSetupRequest}
      (SessionSetup.encode h c (zeroed (SessionSetup.size c))) SessionSetup.decode c
IsCarried h (tree_connect c) =
    Carries {B = TreeConnect.TreeConnectRequest}
      (TreeConnect.encode h c (zeroed (TreeConnect.size c))) TreeConnect.decode c
IsCarried h (query_directory c) =
    Carries {B = QueryDirectory.QueryDirectoryRequest}
      (QueryDirectory.encode h c (zeroed (QueryDirectory.size c))) QueryDirectory.decode c
IsCarried h (logoff c) =
    Carries {B = Logoff.LogoffRequest} (Logoff.encode h c (zeroed (Logoff.size c))) Logoff.decode c
IsCarried h (tree_disconnect c) =
    Carries {B = TreeDisconnect.TreeDisconnectRequest}
      (TreeDisconnect.encode h c (zeroed (TreeDisconnect.size c))) TreeDisconnect.decode c
IsCarried h (cancel c) =
    Carries {B = Cancel.CancelRequest} (Cancel.encode h c (zeroed (Cancel.size c))) Cancel.decode c
IsCarried h (ioctl c input) =
    Carries {B = Ioctl.IoctlRequest}
      (Ioctl.encode h (record c { input = some input })
        (zeroed (Ioctl.size (record c { input = some input }))))
      Ioctl.decode (record c { input = some input })
IsCarried h (set_info c input) =
    Carries {B = SetInfo.SetInfoRequest}
      (SetInfo.encode h (record c { input = some input })
        (zeroed (SetInfo.size (record c { input = some input }))))
      SetInfo.decode (record c { input = some input })
IsCarried h (query_info c input) =
    Carries {B = QueryInfo.QueryInfoRequestView}
      (QueryInfo.encode h (record c { input = some input })
        (zeroed (QueryInfo.size (record c { input = some input }))))
      QueryInfo.decode
      (record {
        info_type = c.info_type;
        file_info_class = c.file_info_class;
        output_buffer_length = c.output_buffer_length;
        input_buffer_offset = 104;
        input_buffer_length = length input;
        additional_information = c.additional_information;
        flags = c.flags;
        file_id = c.file_id;
      })
IsCarried h (read c) =
    Carries {B = Read.ReadRequestView}
      (Read.encode h (record c { read_channel_info = [] })
        (zeroed (Read.size (record c { read_channel_info = [] }))))
      Read.decode
      (record {
        padding = c.padding;
        flags = c.flags;
        read_length = c.read_length;
        offset = c.offset;
        file_id = c.file_id;
        minimum_count = c.minimum_count;
        channel = c.channel;
        remaining_bytes = c.remaining_bytes;
        read_channel_info_offset = 0;
        read_channel_info_length = 0;
      })
IsCarried h (write c) =
    Carries {B = Write.WriteRequestView}
      (Write.encode h (record c { write_channel_info = [] })
        (zeroed (Write.size (record c { write_channel_info = [] }))))
      Write.decode
      (record {
        file_id = c.file_id;
        flags = c.flags;
        channel = c.channel;
        remaining_bytes = c.remaining_bytes;
        offset = c.offset;
        data_offset = 112;
        write_channel_info_offset = 0;
        write_channel_info_length = 0;
        payload = c.payload;
      })
IsCarried h (create c) =
    Carries {B = Create.CreateRequestView}
      (Create.encode h (record c { contexts = [] })
        (zeroed (Create.size (record c { contexts = [] }))))
      Create.decode
      (record {
        security_flags = c.security_flags;
        requested_oplock_level = c.requested_oplock_level;
        impersonation_level = c.impersonation_level;
        smb_create_flags = c.smb_create_flags;
        desired_access = c.desired_access;
        file_attributes = c.file_attributes;
        share_access = c.share_access;
        create_disposition = c.create_disposition;
        create_options = c.create_options;
        name = c.name;
        create_contexts = [];
      })
IsCarried h (negotiate c) =
    Carries {B = Negotiate.NegotiateRequestView}
      (Negotiate.encode h (record c { contexts = [] })
        (zeroed (Negotiate.size (record c { contexts = [] }))))
      Negotiate.decode
      (record {
        security_mode = c.security_mode;
        capabilities = c.capabilities;
        client_guid = c.client_guid;
        dialects = c.dialects;
        negotiate_context_offset = 0;
        negotiate_context_count = 0;
      })

-- Every request but CHANGE_NOTIFY, which has no Encode, that Encode writes into a fresh slice of the
-- size that Size gives, is within the slice, is not rejected by IsInvalid, and its decoder reads the
-- fields back with no panic: if they fit (numbers into their width, lists and texts below 2 ^ 14 or
-- 2 ^ 15 units, data below 2 ^ 31 bytes, no zero unit at the end of a text), if there are no contexts
-- and no channel infos, and if the Input of IOCTL, QUERY_INFO and SET_INFO is there.
pub decode-encode_request : (h : PacketHeader) (m : Message) → IsFit m → IsCarried h m
decode-encode_request h (close c) w = Close.decode-encode h c w
decode-encode_request h (flush c) w = Flush.decode-encode h c w
decode-encode_request h (session_setup c) w = SessionSetup.decode-encode h c w
decode-encode_request h (tree_connect c) w = TreeConnect.decode-encode h c w
decode-encode_request h (query_directory c) w = QueryDirectory.decode-encode h c w
decode-encode_request h (logoff c) w = Logoff.decode-encode h c w
decode-encode_request h (tree_disconnect c) w = TreeDisconnect.decode-encode h c w
decode-encode_request h (cancel c) w = Cancel.decode-encode h c w
decode-encode_request h (ioctl c input) w = Ioctl.decode-encode h c input w
decode-encode_request h (set_info c input) w = SetInfo.decode-encode h c input w
decode-encode_request h (query_info c input) w = QueryInfo.decode-encode h c input w
decode-encode_request h (read c) w = Read.decode-encode h c w
decode-encode_request h (write c) w = Write.decode-encode h c w
decode-encode_request h (create c) w = Create.decode-encode h c w
decode-encode_request h (negotiate c) w = Negotiate.decode-encode h c w
