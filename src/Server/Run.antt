-- ===== src/Server/Run.antt =====
-- server/server.go: Run, and the connections of a server with their requests in the order in which they
-- are handled.
use smb_mem_lib.Prelude.{
  ℕ, Bool, true, false, ◌&&◌, ◌||◌, not, Option, none, some, List, [], ◌∷◌, ◌++◌, map, leb, ◌==◌,
  if◌then◌else◌,
}
use smb_mem_lib.Prelude.Assoc.{nat_key, load}
use smb_mem_lib.Wire.{Slice, uint32, Decoded, rejected, panicked, decoded}
use smb_mem_lib.Smb2.Packet.Codec.{command}
use smb_mem_lib.Server.{
  Server, Negotiator, TreeKind, ipc_tree, file_tree, Session, Tree, Link, new_link, Front, Env,
  error_body, Status, going, closed, crashed, is_going, Step, stop, session_header, sign_fails,
}
use smb_mem_lib.Server.Answers.{prepare_response}
use smb_mem_lib.Server.Negotiation.{negotiate}
use smb_mem_lib.Server.Setup.{session_setup}
use smb_mem_lib.Server.Trees.{tree_connect, tree_disconnect, echo, logoff}

-- A request as Run takes it: the packet, and lastStatus of its compound context, if it has one.
pub record Request : Type 0 where
  pub env : Env
  pub pkt : Slice
  pub last_status : Option ℕ

-- The commands of a tree: CREATE to OPLOCK_BREAK without ECHO
abbrev pub is_tree_command : ℕ → Bool
is_tree_command c = leb 5 c && (leb c 18 && not (c == 13))

-- The handlers of an ipcTree that only return an error; all others begin with `t.session.conn`, which
-- panics without a session.
abbrev pub refuses : TreeKind → ℕ → Bool
refuses file_tree c = false
refuses ipc_tree c =
    c == 7 || (c == 10 || (c == 12 || (c == 14 || (c == 15 || (c == 17 || c == 18)))))

abbrev pub serve_with : Option Session → Tree → Request → Front → Step
serve_with none t r f = stop crashed f
serve_with (some s) t r f = record {
  status = r.env.outcome;
  front = f;
  replies = [];
  served = t ∷ [];
}

-- A handler of a tree: what it leads to beyond its session is in `outcome`.
abbrev pub serve : Tree → ℕ → Request → Front → Step
serve t c r f =
    if not (is_tree_command c)
    then stop going f
    else if refuses t.kind c
    then stop closed f
    else serve_with t.session t r f

-- The answer when the request before it in the compound has failed; the error of sendPacket is not
-- looked at.
abbrev pub fail_in_compound : Tree → ℕ → Request → Front → Step
fail_in_compound t status r f = if sign_fails f.link.session then stop crashed f else record {
  status = going;
  front = f;
  replies =
      record {
        header =
            session_header f.link.session f.link.use_session (some t.tree_id)
              (prepare_response r.pkt status);
        body = error_body;
      }
      ∷ [];
  served = [];
}

abbrev pub with_last : Option ℕ → Tree → ℕ → Request → Front → Step
with_last none t c r f = serve t c r f
with_last (some status) t c r f =
    if status == 0 then serve t c r f else fail_in_compound t status r f

abbrev pub tree_request : Option Tree → ℕ → Request → Front → Step
tree_request none c r f = stop closed f
tree_request (some t) c r f = with_last r.last_status t c r f

-- The switch of Run; 0x72 is SMB_COM_NEGOTIATE.
unfoldable pub dispatch : Server → ℕ → Request → Front → Step
dispatch srv c r f =
    if c == 0 || c == 0x72
    then negotiate srv r.env r.pkt f
    else if c == 1
    then session_setup srv r.env r.pkt f
    else if c == 2
    then logoff r.env r.pkt f
    else if c == 3
    then tree_connect srv r.env r.pkt f
    else if c == 4
    then tree_disconnect r.env r.pkt f
    else if c == 13
    then echo r.env r.pkt f
    else tree_request (load (uint32 36 r.pkt) f.link.tree_map_by_id) c r f

abbrev pub dispatch_of : Decoded ℕ → Server → Request → Front → Step
dispatch_of (decoded c) srv r f = dispatch srv c r f
dispatch_of rejected srv r f = stop crashed f
dispatch_of panicked srv r f = stop crashed f

-- One turn of the loop of Run
unfoldable pub handle : Server → Request → Front → Step
handle srv r f = dispatch_of (command r.pkt) srv r f

-- The connections of a server by a number, with whether Run goes on for each of them, whether the
-- process lives, and what has been served so far.
pub record World : Type 0 where
  pub negotiator : Negotiator
  pub links : ℕ → Link
  pub statuses : ℕ → Status
  pub alive : Bool
  pub log : List (ℕ × Tree)

abbrev pub new_world : World
new_world = record {
  negotiator = record { specified_dialect = 0; spnego = none };
  links = λ i. new_link;
  statuses = λ i. going;
  alive = true;
  log = [];
}

-- A request of a connection
pub record Event : Type 0 where
  pub conn : ℕ
  pub request : Request

abbrev is_crash : Status → Bool
is_crash crashed = true
is_crash s = false

abbrev pub after : World → ℕ → Step → World
after w i t = record {
  negotiator = t.front.negotiator;
  links = λ j. if j == i then t.front.link else w.links j;
  statuses = λ j. if j == i then t.status else w.statuses j;
  alive = not (is_crash t.status);
  log = map (λ x. (i, x)) t.served ++ w.log;
}

unfoldable pub world_step : Server → Event → World → World
world_step srv e w =
    if w.alive && is_going (w.statuses e.conn)
    then after w e.conn
        (handle srv e.request (record { negotiator = w.negotiator; link = w.links e.conn }))
    else w

unfoldable pub run : Server → List Event → World → World
run srv [] w = w
run srv (e ∷ es) w = run srv es (world_step srv e w)
