-- ===== src/Server/Login/Worlds.antt =====
-- server/server.go: the connections of a server, of which some have not logged in.
use smb_mem_lib.Prelude.{
  if_case, ℕ, ◌≡◌, refl, ◌∙◌, sym, Bool, false, ◌&&◌, none, List, [], ◌∷◌, ◌++◌, map, All, ==_iff,
  Bool-cases, inl, inr, subst, ◌==◌, if◌then◌else◌, arith,
}
use smb_mem_lib.Prelude.Assoc.{load}
use smb_mem_lib.Server.{Server, Tree, Step}
use smb_mem_lib.Server.Run.{handle, World, new_world, Event, after, world_step, run}
use smb_mem_lib.Server.Login.{IsAnonymous, IsQuiet, is_login}
use smb_mem_lib.Server.Login.Requests.{handle-IsQuiet}

-- The trees that have served requests of a connection
abbrev pub served_to : ℕ → List (ℕ × Tree) → List Tree
served_to i [] = []
served_to i ((j, t) ∷ log) = let rest = served_to i log in if j == i then t ∷ rest else rest

-- No request of the connection carries a token that lets a user in.
abbrev pub logs_in : Server → ℕ → Event → Bool
logs_in srv i e = e.conn == i && is_login srv e.request.env e.request.pkt

abbrev pub IsStranger : Server → ℕ → List Event → Type 0
IsStranger srv i es = All (λ e. logs_in srv i e ≡ false) es

served_to-map :
    (i j : ℕ) (ts : List Tree) (log : List (ℕ × Tree))
    → (j ≡ i → ts ≡ [])
    → served_to i (map (λ t. (j, t)) ts ++ log) ≡ served_to i log
served_to-map i j [] log h = refl
served_to-map i j (t ∷ ts) log h = ground (arith, h, served_to-map i j ts log)

-- A step of a connection, quiet when the connection is `i`
after_lem :
    (i j : ℕ) (t : Step) (w : World)
    → IsAnonymous (w.links i)
    → (j ≡ i → IsQuiet t)
    → IsAnonymous ((after w j t).links i) × (served_to i (after w j t).log ≡ served_to i w.log)
after_lem i j t w a q = (
  elim (Bool-cases (i == j)) [
    | inl same ↦
        subst (λ b. IsAnonymous (if b then t.front.link else w.links i)) (sym same)
          (q (sym ((==_iff i j).0 same))).0
    | inr other ↦ subst (λ b. IsAnonymous (if b then t.front.link else w.links i)) (sym other) a
  ],
  served_to-map i j t.served w.log (λ e. (q e).1),
)

world_step_lem :
    (srv : Server) (i : ℕ) (e : Event) (w : World)
    → IsAnonymous (w.links i)
    → logs_in srv i e ≡ false
    → IsAnonymous ((world_step srv e w).links i)
      × (served_to i (world_step srv e w).log ≡ served_to i w.log)
unfolding world_step
world_step_lem srv i e w a h =
    let login_false : e.conn ≡ i → is_login srv e.request.env e.request.pkt ≡ false =
      λ same. ground (arith, h) in
    if_case (λ (v : World). IsAnonymous (v.links i) × (served_to i v.log ≡ served_to i w.log)) _
      (after_lem i e.conn
        (handle srv e.request (record { negotiator = w.negotiator; link = w.links e.conn })) w a
        (λ same.
          handle-IsQuiet srv e.request (record { negotiator = w.negotiator; link = w.links e.conn })
            (login_false same) (subst (λ k. IsAnonymous (w.links k)) (sym same) a)))
      (a, refl)

run_lem :
    (srv : Server) (i : ℕ) (es : List Event) (w : World)
    → IsAnonymous (w.links i)
    → IsStranger srv i es
    → IsAnonymous ((run srv es w).links i) × (served_to i (run srv es w).log ≡ served_to i w.log)
unfolding run
run_lem srv i [] w a h = (a, refl)
run_lem srv i (e ∷ es) w a h =
    let now = world_step_lem srv i e w a h.0 in
    let later = run_lem srv i es (world_step srv e w) now.0 h.1 in (later.0, later.1 ∙ now.1)

-- Whatever the connections of a new server send, in any order: one that never sends a token which lets
-- a user in has no session, and no request of its is served by a tree.
pub stranger_is_not_served :
    (srv : Server) (i : ℕ) (es : List Event)
    → IsStranger srv i es
    → (((run srv es new_world).links i).session ≡ none)
      × (served_to i (run srv es new_world).log ≡ [])
unfolding load
stranger_is_not_served srv i es h =
    let all = run_lem srv i es new_world (refl, λ k t e. cc) h in (all.0.0, all.1)
