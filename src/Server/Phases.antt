-- ===== src/Server/Phases.antt =====
-- server/server.go: the login of a connection as a machine of three phases, which the handlers follow.
pub mod Handlers
pub mod Worlds
use smb_mem_lib.Prelude.{
  if_case, ◌≡◌, refl, ◌∙◌, ap, sym, Bool, true, false, ◌&&◌, not, Bool-cases, inl, inr, Option,
  none, some, ℕ, Bytes, if◌then◌else◌,
}
use smb_mem_lib.Smb2.Packet.{PacketHeader}
use smb_mem_lib.Server.{
  ConnState, state_negotiate, state_session_setup, state_session_setup_challenge,
  state_session_active, Session, Link, Front, Env, Body, Status, going, closed, crashed, sign_fails,
  session_header, is_going, Step, stop, send,
}
use smb_mem_lib.Server.Effects.{IsSame, Leads, stops, sends}

-- Without a session, after a challenge, and logged in with a session
pub data Phase : Type 0 where
  fresh : Phase
  pending : Phase
  logged_in : Session → Phase

abbrev pub phase_of : ConnState → Option Session → Phase
phase_of state_negotiate s = fresh
phase_of state_session_setup s = pending
phase_of state_session_setup_challenge s = pending
phase_of state_session_active none = pending
phase_of state_session_active (some s) = logged_in s

abbrev pub phase : Link → Phase
phase l = phase_of l.server_state l.session

-- A move of the machine, for a request that carries a token which lets a user in, or for another
pub data Move : Bool → Phase → Phase → Type 0 where
  stays : (b : Bool) (a : Phase) → Move b a a
  begins : (b : Bool) → Move b fresh pending
  enters : (s : Session) → Move true pending (logged_in s)
  gives_up : (b : Bool) (s : Session) → Move b (logged_in s) fresh
  restarts : (b : Bool) (s : Session) → Move b (logged_in s) pending

-- The session is in use exactly when the connection is active, and the state is one of three.
abbrev pub SoundAt : ConnState → Option Session → Bool → Type 0
SoundAt state_negotiate s used = (s ≡ none) × (used ≡ false)
SoundAt state_session_setup s used = ⊥
SoundAt state_session_setup_challenge s used = (s ≡ none) × (used ≡ false)
SoundAt state_session_active none used = ⊥
SoundAt state_session_active (some s) used = used ≡ true

abbrev pub IsSound : Link → Type 0
IsSound l = SoundAt l.server_state l.session l.use_session

-- A step of a connection that goes on: it is sound again, and has made a move from `a`.
abbrev pub IsGood : Bool → Phase → Step → Type 0
IsGood b a t = is_going t.status ≡ true → IsSound t.front.link × Move b a (phase t.front.link)

-- A sound connection that `a` moves to
abbrev pub IsNext : Bool → Phase → Link → Type 0
IsNext b a l = IsSound l × Move b a (phase l)

pub never {ℓ} : {A : Type ℓ} → false ≡ true → A
never e = let absurd : ⊥ = cc in elim absurd [ ]

pub send-IsGood :
    (b : Bool) (a : Phase) (env : Env) (t : Option ℕ) (h : PacketHeader) (x : Body) (g : Front)
    → IsNext b a g.link
    → IsGood b a (send env t h x g)
send-IsGood b a env t h x g next =
    if_case (IsGood b a) (sign_fails g.link.session) never
      (if_case (IsGood b a) env.delivers (λ e. next) never)

stop-IsGood :
    (b : Bool) (a : Phase) (w : Status) (g : Front) → is_going w ≡ false → IsGood b a (stop w g)
stop-IsGood b a w g h e = never (sym h ∙ e)

IsSame-IsNext : (b : Bool) (a : Phase) (l m : Link) → IsSame l m → IsNext b a l → IsNext b a m
IsSame-IsNext b a l m same next = rw (same.2, same.0, same.1) next

pub Leads-IsGood :
    (b : Bool) (a : Phase) (env : Env) (l : Link) (t : Step)
    → IsNext b a l
    → Leads env l t
    → IsGood b a t
Leads-IsGood b a env l _ next (stops w g h same) = stop-IsGood b a w g h
Leads-IsGood b a env l _ next (sends t h x g same) =
    send-IsGood b a env t h x g (IsSame-IsNext b a l g.link same next)
