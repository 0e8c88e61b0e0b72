-- ===== src/Server/Trees.antt =====
-- server/server.go: treeConnect and treeDisconnect, and the answers of echo and logoff.
use smb_mem_lib.Prelude.{
  ◌-◌, Bool, false, ◌&&◌, ◌||◌, Option, none, some, List, [], ◌∷◌, ◌++◌, Bytes, bytes_eq, length,
  drop, leb, if◌then◌else◌,
}
use smb_mem_lib.Prelude.Assoc.{nat_key, bytes_key, load, store, delete}
use smb_mem_lib.Wire.{Slice, from, uint32, Decoded, rejected, panicked, decoded, decode_to_string}
use smb_mem_lib.SmbPath
use smb_mem_lib.Smb2.Request.TreeConnect
use smb_mem_lib.Smb2.Response.TreeConnect.{TreeConnectResponse}
use smb_mem_lib.Server.{
  Server, TreeKind, ipc_tree, file_tree, Tree, Link, Front, Env, tree_connect_body, logoff_body,
  tree_disconnect_body, echo_body, closed, crashed, Step, stop, send,
}
use smb_mem_lib.Server.Answers.{Entry, entered, left, fell, entry}
use smb_mem_lib.Server.Setup.{response_header}

-- "\IPC$"
abbrev pub ipc_name : Bytes
ipc_name = 92 ∷ 73 ∷ 80 ∷ 67 ∷ 36 ∷ []

-- strings.HasSuffix
abbrev pub has_suffix : Bytes → Bytes → Bool
has_suffix s t = leb (length t) (length s) && bytes_eq (drop (length s - length t) s) t

abbrev contains : Bytes → List Bytes → Bool
contains name [] = false
contains name (s ∷ ss) = bytes_eq name s || contains name ss

-- The two look-ups in the shares of the server, whose names NewServer has put in upper case
abbrev pub is_share : Server → Bytes → Bool
is_share srv name =
    contains (srv.to_upper name) srv.shares || contains (srv.to_upper name ++ (36 ∷ [])) srv.shares

-- ShareType and MaximalAccess of a kind of tree
abbrev pub share_response : TreeKind → TreeConnectResponse
share_response ipc_tree = record {
  share_type = 2;
  share_flags = 0;
  capabilities = 0;
  maximal_access = 0x1F01FB;
}
share_response file_tree = record {
  share_type = 1;
  share_flags = 0;
  capabilities = 0;
  maximal_access = 0x1F00A9;
}

abbrev pub with_tree : Tree → Link → Link
with_tree t l = record l {
  tree_map_by_name = store t.path t l.tree_map_by_name;
  tree_map_by_id = store t.tree_id t l.tree_map_by_id;
}

-- The tree of a name, which is made when the connection has none; its id is in the answer only when it
-- was there already, or when sendPacket puts it in.
abbrev pub connect_with : Option Tree → TreeKind → Bytes → Env → Slice → Front → Step
connect_with (some t) kind name env p f =
    send env (some t.tree_id) (record (response_header p) { tree_id = t.tree_id })
      (tree_connect_body (share_response kind)) f
connect_with none kind name env p f =
    let t : Tree = record {
      kind = kind;
      session = f.link.session;
      tree_id = env.fresh_id;
      path = name;
    } in
    send env (some t.tree_id) (response_header p) (tree_connect_body (share_response kind))
      (record f { link = with_tree t f.link })

unfoldable pub connect : TreeKind → Bytes → Env → Slice → Front → Step
connect kind name env p f = connect_with (load name f.link.tree_map_by_name) kind name env p f

abbrev pub connect_path : Bytes → Server → Env → Slice → Front → Step
connect_path path srv env p f =
    if has_suffix path ipc_name
    then connect ipc_tree ipc_name env p f
    else if is_share srv (SmbPath.split path).1
    then connect file_tree (SmbPath.split path).1 env p f
    else stop closed f

abbrev pub path_of : Decoded Bytes → Server → Env → Slice → Front → Step
path_of (decoded bs) srv env p f = connect_path (decode_to_string bs) srv env p f
path_of rejected srv env p f = stop crashed f
path_of panicked srv env p f = stop crashed f

abbrev pub tree_connect_entered : Entry → Server → Env → Slice → Front → Step
tree_connect_entered left srv env p f = stop closed f
tree_connect_entered fell srv env p f = stop crashed f
tree_connect_entered entered srv env p f =
    if TreeConnect.is_invalid (from 64 p)
    then stop closed f
    else path_of (TreeConnect.path (from 64 p)) srv env p f

-- conn.treeConnect
unfoldable pub tree_connect : Server → Env → Slice → Front → Step
tree_connect srv env p f = tree_connect_entered (entry 3 p) srv env p f

-- conn.treeDisconnect: for an id that is not there, getTree is called on nil.
abbrev pub without_tree : Tree → Link → Link
without_tree t l = record l {
  tree_map_by_name = delete t.path l.tree_map_by_name;
  tree_map_by_id = delete t.tree_id l.tree_map_by_id;
}

abbrev pub disconnect_with : Option Tree → Env → Slice → Front → Step
disconnect_with none env p f = stop crashed f
disconnect_with (some t) env p f =
    send env (some t.tree_id) (response_header p) tree_disconnect_body
      (record f { link = without_tree t f.link })

unfoldable pub tree_disconnect : Env → Slice → Front → Step
tree_disconnect env p f = disconnect_with (load (uint32 36 p) f.link.tree_map_by_id) env p f

-- conn.echo and conn.logoff
unfoldable pub echo : Env → Slice → Front → Step
echo env p f = send env none (response_header p) echo_body f

unfoldable pub logoff : Env → Slice → Front → Step
logoff env p f = send env none (response_header p) logoff_body f
