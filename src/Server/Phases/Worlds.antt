-- ===== src/Server/Phases/Worlds.antt =====
-- server/server.go: the requests of a server make only moves of the login machine.
use smb_mem_lib.Prelude.{
  if_case, ℕ, ◌≡◌, refl, sym, Bool, true, false, ◌||◌, ◌&&◌, Bool-cases, inl, inr, Option, none,
  some, List, [], ◌∷◌, ◌==◌, if◌then◌else◌, arith,
}
use smb_mem_lib.Prelude.Assoc.{nat_key, bytes_key, load}
use smb_mem_lib.Wire.{uint32, Decoded, rejected, panicked, decoded}
use smb_mem_lib.Smb2.Packet.Codec.{command}
use smb_mem_lib.Server.{
  Server, ConnState, state_negotiate, state_session_setup, state_session_setup_challenge,
  state_session_active, Session, Link, Front, Status, is_going, Step, logoff_body, echo_body,
}
use smb_mem_lib.Server.Negotiation.{reset, negotiate}
use smb_mem_lib.Server.Setup.{response_header}
use smb_mem_lib.Server.Trees.{echo, logoff}
use smb_mem_lib.Server.Run.{
  Request, dispatch, dispatch_of, handle, World, new_world, Event, after, world_step, run,
}
use smb_mem_lib.Server.Effects.{tree_connect_case, negotiate-Leads}
use smb_mem_lib.Server.Login.{is_login}
use smb_mem_lib.Server.Phases.{
  Phase, fresh, phase_of, phase, Move, stays, gives_up, SoundAt, IsSound, IsGood, IsNext,
  send-IsGood, never, Leads-IsGood,
}
use smb_mem_lib.Server.Phases.Handlers.{
  session_setup-IsGood, connect-IsGood, tree_disconnect-IsGood, tree_request-IsGood,
}

-- What a NEGOTIATE request does with a session first
reset_at-IsNext :
    (b : Bool) (l : Link) (s : ConnState) (o : Option Session) (u : Bool)
    → SoundAt s o u
    → IsNext b (phase_of s o) (reset (record l { server_state = s; session = o; use_session = u }))
reset_at-IsNext b l state_negotiate o u h = (h, stays b fresh)
reset_at-IsNext b l state_session_setup o u h = elim h [ ]
reset_at-IsNext b l state_session_setup_challenge o true h = never (sym h.1)
reset_at-IsNext b l state_session_setup_challenge o false h = (h, stays b _)
reset_at-IsNext b l state_session_active none u h = elim h [ ]
reset_at-IsNext b l state_session_active (some s) false h = never h
reset_at-IsNext b l state_session_active (some s) true h = ((refl, refl), gives_up b s)

negotiate-IsGood :
    (srv : Server) (r : Request) (f : Front) (b : Bool)
    → IsSound f.link
    → IsGood b (phase f.link) (negotiate srv r.env r.pkt f)
negotiate-IsGood srv r f b h =
    Leads-IsGood b (phase f.link) r.env (reset f.link) (negotiate srv r.env r.pkt f)
      (reset_at-IsNext b f.link f.link.server_state f.link.session f.link.use_session h)
      (negotiate-Leads srv r.env r.pkt f)

dispatch-IsGood :
    (srv : Server) (c : ℕ) (r : Request) (f : Front)
    → IsSound f.link
    → IsGood (is_login srv r.env r.pkt) (phase f.link) (dispatch srv c r f)
unfolding dispatch echo logoff
dispatch-IsGood srv c r f h =
    let b = is_login srv r.env r.pkt in
    let a = phase f.link in
    let next : IsNext b a f.link = (h, stays b a) in
    if_case (IsGood b a) (c == 0 || c == 0x72) (negotiate-IsGood srv r f b h) (
      if_case (IsGood b a) (c == 1) (session_setup-IsGood srv r f b h refl) (
        if_case (IsGood b a) (c == 2)
          (send-IsGood b a r.env none (response_header r.pkt) logoff_body f next)
          (if_case (IsGood b a) (c == 3)
            (tree_connect_case (IsGood b a) f never never srv r.env r.pkt
              (λ kind name. connect-IsGood srv r.env b a kind name r.pkt f next))
            (if_case (IsGood b a) (c == 4) (tree_disconnect-IsGood srv r.env b a r.pkt f next) (
              if_case (IsGood b a) (c == 13)
                (send-IsGood b a r.env none (response_header r.pkt) echo_body f next)
                (tree_request-IsGood b a (load (uint32 36 r.pkt) f.link.tree_map_by_id) c r f
                  next))))))

-- A request that a connection survives makes one move of the login machine. The move that logs in is
-- made only for a request with a token that lets a user in.
pub handle_refines :
    (srv : Server) (r : Request) (f : Front)
    → IsSound f.link
    → is_going (handle srv r f).status ≡ true
    → IsSound (handle srv r f).front.link
      × Move (is_login srv r.env r.pkt) (phase f.link) (phase (handle srv r f).front.link)
unfolding handle
handle_refines srv r f h = after_command (command r.pkt)
  where
    after_command :
        (d : Decoded ℕ) → IsGood (is_login srv r.env r.pkt) (phase f.link) (dispatch_of d srv r f)
    after_command rejected = never
    after_command panicked = never
    after_command (decoded c) = dispatch-IsGood srv c r f h

-- Moves, one for each mark, the newest mark first
pub data Follows (a : Phase) : List Bool → Phase → Type 0 where
  at_start : Follows a [] a
  moved :
      (b : Bool) (bs : List Bool) (x y : Phase) → Follows a bs x → Move b x y → Follows a (b ∷ bs) y

-- Which requests of a connection have carried a token that lets a user in, the newest first: one
-- mark for each of its events
abbrev pub mark : Server → Event → (ℕ → List Bool) → ℕ → List Bool
mark srv e ms i = if i == e.conn then is_login srv e.request.env e.request.pkt ∷ ms i else ms i

abbrev pub mark_all : Server → List Event → (ℕ → List Bool) → ℕ → List Bool
mark_all srv [] ms = ms
mark_all srv (e ∷ es) ms = mark_all srv es (mark srv e ms)

-- A connection that goes on is sound, and its phase follows from its marks.
abbrev LawfulAt : List Bool → Status → Link → Type 0
LawfulAt bs s l = is_going s ≡ true → IsSound l × Follows fresh bs (phase l)

abbrev IsLawful : (ℕ → List Bool) → World → Type 0
IsLawful ms w = (i : ℕ) → LawfulAt (ms i) (w.statuses i) (w.links i)

if_then {ℓ κ} :
    {A : Type ℓ} (P : A → Type κ) {x y : A} (c : Bool)
    → (c ≡ true → P x)
    → P y
    → P (if c then x else y)
if_then P true p q = p refl
if_then P false p q = q

-- The connection of a number after a step of the connection of the event
after-IsLawful :
    (srv : Server) (e : Event) (t : Step) (ms : ℕ → List Bool) (w : World)
    → IsLawful ms w
    → LawfulAt (is_login srv e.request.env e.request.pkt ∷ ms e.conn) t.status t.front.link
    → IsLawful (mark srv e ms) (after w e.conn t)
after-IsLawful srv e t ms w law good i = elim (Bool-cases (i == e.conn)) [
  | inl same ↦ let at : i ≡ e.conn = ground (arith, same) in rw (same, at) good
  | inr other ↦ rw other (law i)
]

-- An event that is not handled
kept-IsLawful :
    (srv : Server) (e : Event) (ms : ℕ → List Bool) (w : World)
    → IsLawful ms w
    → IsLawful (mark srv e ms) w
kept-IsLawful srv e ms w law i = elim (Bool-cases (i == e.conn)) [
  | inl same ↦ rw same (λ g. let was = law i g in (was.0, moved _ _ _ _ was.1 (stays _ _)))
  | inr other ↦ rw other (law i)
]

world_step-IsLawful :
    (srv : Server) (e : Event) (ms : ℕ → List Bool) (w : World)
    → IsLawful ms w
    → IsLawful (mark srv e ms) (world_step srv e w)
unfolding world_step
world_step-IsLawful srv e ms w law =
    let f : Front = record { negotiator = w.negotiator; link = w.links e.conn } in
    let alive_lem : (x y : Bool) → (x && y) ≡ true → y ≡ true = λ x y h. ground arith in
    if_then (IsLawful (mark srv e ms)) (w.alive && is_going (w.statuses e.conn))
      (λ c.
        let was = law e.conn (alive_lem w.alive (is_going (w.statuses e.conn)) c) in
        after-IsLawful srv e (handle srv e.request f) ms w law (λ g.
          let now = handle_refines srv e.request f was.0 g in (now.0, moved _ _ _ _ was.1 now.1)))
      (kept-IsLawful srv e ms w law)

run-IsLawful :
    (srv : Server) (es : List Event) (ms : ℕ → List Bool) (w : World)
    → IsLawful ms w
    → IsLawful (mark_all srv es ms) (run srv es w)
unfolding run
run-IsLawful srv [] ms w law = law
run-IsLawful srv (e ∷ es) ms w law =
    run-IsLawful srv es (mark srv e ms) (world_step srv e w) (world_step-IsLawful srv e ms w law)

-- Whatever the connections of a new server send, in any order: a connection that goes on has its session
-- in use exactly when its state is the active one, and its phase comes from the first by moves of the
-- login machine, one for each of its own requests, of which only those for a request with a token that
-- lets a user in can log in.
pub run_refines :
    (srv : Server) (es : List Event) (i : ℕ)
    → is_going ((run srv es new_world).statuses i) ≡ true
    → IsSound ((run srv es new_world).links i)
      × Follows fresh (mark_all srv es (λ j. []) i) (phase ((run srv es new_world).links i))
run_refines srv es i = run-IsLawful srv es (λ j. []) new_world (λ j e. ((refl, refl), at_start)) i
