-- ===== src/Server/Crashes.antt =====
-- server/server.go: requests that end the process.
pub mod Shared
use smb_mem_lib.Prelude.{
  ℕ, ◌≡◌, refl, ◌∙◌, Bool, true, false, ◌||◌, not, Option, none, some, List, Bytes, ◌==◌,
  if◌then◌else◌, arith,
}
use smb_mem_lib.Prelude.Assoc.{nat_key, bytes_key, load, store, load-store, same_refl}
use smb_mem_lib.Wire.{Slice, from, uint32, Decoded, decoded, decode_to_string}
use smb_mem_lib.SmbPath
use smb_mem_lib.Smb2.Packet.Codec.{command, is_smb1}
use smb_mem_lib.Smb2.Request.TreeConnect
use smb_mem_lib.Smb2.Request.Negotiate
use smb_mem_lib.Smb2.Request.Negotiate.{NegotiateRequestView}
use smb_mem_lib.Server.{
  Server, Tree, file_tree, Front, Env, Status, going, crashed, closed, Step, stop,
}
use smb_mem_lib.Server.Answers.{Entry, entered, entry, answer}
use smb_mem_lib.Server.Negotiation.{choose_dialect, reset, negotiate}
use smb_mem_lib.Server.Trees.{ipc_name, has_suffix, is_share, connect, with_tree, tree_connect}
use smb_mem_lib.Server.Run.{Request, is_tree_command, handle, dispatch}
use smb_mem_lib.Server.Dialects.{IsBest, choose_dialect-IsBest}

-- A TREE_CONNECT request for a share, which is read to the name of the share
abbrev pub IsTreeConnect : Server → Slice → Bytes → Bytes → Type 0
IsTreeConnect srv p path_bytes name =
    (command p ≡ decoded 3)
    × (entry 3 p ≡ entered)
    × (TreeConnect.is_invalid (from 64 p) ≡ false)
    × (TreeConnect.path (from 64 p) ≡ decoded path_bytes)
    × (has_suffix (decode_to_string path_bytes) ipc_name ≡ false)
    × ((SmbPath.split (decode_to_string path_bytes)).1 ≡ name)
    × (is_share srv name ≡ true)

handle_tree_connect :
    (srv : Server) (r : Request) (f : Front) (path_bytes name : Bytes)
    → IsTreeConnect srv r.pkt path_bytes name
    → handle srv r f ≡ connect file_tree name r.env r.pkt f
unfolding handle dispatch tree_connect
handle_tree_connect srv r f path_bytes name i = rw (i.0, i.1, i.2, i.3, i.4, i.5, i.6) refl

-- A command of a file tree without a session
file_command_crashes :
    (srv : Server) (r : Request) (f : Front) (c : ℕ) (t : Tree)
    → (command r.pkt ≡ decoded c) × (is_tree_command c ≡ true) × (r.last_status ≡ none)
    → load (uint32 36 r.pkt) f.link.tree_map_by_id ≡ some t
    → (t.kind ≡ file_tree) × (t.session ≡ none)
    → (handle srv r f).status ≡ crashed
unfolding handle dispatch
file_command_crashes srv r f c t i l k = rw (i.0, l, i.2, k.0, k.1) (ground (arith, i.1))

-- A connection without a session and without a tree of that name makes the tree.
connect_anonymously :
    (env : Env) (p : Slice) (f : Front) (name : Bytes)
    → (f.link.session ≡ none) × (load name f.link.tree_map_by_name ≡ none)
    → env.delivers ≡ true
    → let t : Tree = record {
      kind = file_tree;
      session = none;
      tree_id = env.fresh_id;
      path = name;
    } in
      ((connect file_tree name env p f).status ≡ going)
      × ((connect file_tree name env p f).front ≡ record f { link = with_tree t f.link })
unfolding connect
connect_anonymously env p f name l d = rw (l.1, l.0, d) (refl, refl)

-- A client that has not logged in connects to a share: it gets a tree, and its next command on that tree
-- ends the process.
pub anonymous_file_command_crashes :
    (srv : Server) (r1 r2 : Request) (f : Front) (path_bytes name : Bytes) (c : ℕ)
    → IsTreeConnect srv r1.pkt path_bytes name
    → (f.link.session ≡ none) × (load name f.link.tree_map_by_name ≡ none)
    → r1.env.delivers ≡ true
    → (command r2.pkt ≡ decoded c) × (is_tree_command c ≡ true) × (r2.last_status ≡ none)
    → uint32 36 r2.pkt ≡ r1.env.fresh_id
    → ((handle srv r1 f).status ≡ going)
      × ((handle srv r2 (handle srv r1 f).front).status ≡ crashed)
anonymous_file_command_crashes srv r1 r2 f path_bytes name c i l d j same =
    let made = connect_anonymously r1.env r1.pkt f name l d in
    let t : Tree = record {
      kind = file_tree;
      session = none;
      tree_id = r1.env.fresh_id;
      path = name;
    } in
    let found : load (uint32 36 r2.pkt) (store r1.env.fresh_id t f.link.tree_map_by_id) ≡ some t =
      ground (arith, load-store r1.env.fresh_id (uint32 36 r2.pkt) t f.link.tree_map_by_id, same) in
    rw (handle_tree_connect srv r1 f path_bytes name i, made.1)
      (
        made.0,
        file_command_crashes srv r2 (record f { link = with_tree t f.link }) c t j found
            (refl, refl),
      )

abbrev pub is_crashed : Status → Bool
is_crashed crashed = true
is_crashed s = false

-- A NEGOTIATE request that is read, and offers a best dialect `d` above 0x2FF and below 0x311, on a
-- connection that has no session after its reset, ends the process if and only if `d` is neither 0x300
-- nor 0x302.
pub unknown_dialect_crashes :
    (srv : Server) (env : Env) (p : Slice) (f : Front) (r : NegotiateRequestView) (d : ℕ)
    → (is_smb1 p ≡ decoded false)
      × (entry 0 p ≡ entered)
      × (Negotiate.decode (from 64 p) ≡ decoded r)
    → IsBest d r.dialects
    → (d == 0x311) ≡ false
    → (reset f.link).session ≡ none
    → is_crashed (negotiate srv env p f).status ≡ not (d == 0x300 || d == 0x302)
unfolding negotiate answer
unknown_dialect_crashes srv env p f r d i best below fresh =
    rw (i.0, i.1, i.2, choose_dialect-IsBest d r.dialects best, below)
      (ground (arith, best.1, fresh))
