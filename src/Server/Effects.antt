-- ===== src/Server/Effects.antt =====
-- server/server.go: what a NEGOTIATE request does to its connection, and the ways of the other handlers.
use smb_mem_lib.Prelude.{
  if_case, ℕ, zero, suc, ◌≡◌, refl, ◌∙◌, drop, length, ltb, ◌+◌, ◌%◌, ◌^◌, Bool, true, false,
  Option, none, some, List, [], Bytes, ◌==◌, if◌then◌else◌, arith,
}
use smb_mem_lib.Prelude.Assoc.{nat_key, bytes_key}
use smb_mem_lib.Wire.{
  Slice, from, uint16, roundup8, slice, decode_to_string, Decoded, rejected, panicked, decoded,
}
use smb_mem_lib.Smb2.Packet.{PacketHeader}
use smb_mem_lib.Smb2.Packet.Codec.{is_smb1}
use smb_mem_lib.Smb2.Request.Negotiate
use smb_mem_lib.Smb2.Request.Negotiate.{NegotiateRequestView, negotiate_context_list}
use smb_mem_lib.Conn.Accept.{of_bytes}
use smb_mem_lib.Smb2.Request.SessionSetup
use smb_mem_lib.SmbPath
use smb_mem_lib.Smb2.Request.SessionSetup
use smb_mem_lib.Smb2.Request.TreeConnect
use smb_mem_lib.Server.Setup.{token_of, with_token}
use smb_mem_lib.Server.Trees.{
  ipc_name, has_suffix, is_share, connect, connect_path, path_of, tree_connect_entered,
  tree_connect,
}
use smb_mem_lib.Server.{
  Server, TreeKind, Link, Front, Env, ipc_tree, file_tree, Body, Status, closed, crashed, is_going,
  Step, stop, send,
}
use smb_mem_lib.Server.Answers.{
  prepare_response, Entry, entered, left, fell, entry, answer, answer_with, contexts_for,
}
use smb_mem_lib.Server.Negotiation.{
  choose_dialect, Handled, handled, erred, died, handle_data, handle_context, and_contexts,
  handle_contexts, handle_list, answer_contexts, settled, negotiate_with, negotiate_entered,
  negotiate_packet, reset, negotiate,
}

-- Two connections with the same session in the same state, and with the same trees
abbrev pub IsSame : Link → Link → Type 0
IsSame l m =
    (m.session ≡ l.session)
    × (m.use_session ≡ l.use_session)
    × (m.server_state ≡ l.server_state)
    × (m.tree_map_by_name ≡ l.tree_map_by_name)
    × (m.tree_map_by_id ≡ l.tree_map_by_id)

-- A step that ends the connection, or that sends an answer, with the session, the state and the trees of
-- `l`
pub data Leads (env : Env) (l : Link) : Step → Type 0 where
  stops : (w : Status) (g : Front) → is_going w ≡ false → IsSame l g.link → Leads env l (stop w g)
  sends :
      (t : Option ℕ) (h : PacketHeader) (b : Body) (g : Front)
      → IsSame l g.link
      → Leads env l (send env t h b g)

-- The link that a NEGOTIATE context leaves
abbrev KeepsHandled : Link → Handled → Type 0
KeepsHandled l (handled m) = IsSame l m
KeepsHandled l erred = Unit
KeepsHandled l died = Unit

IsSame-refl : (l : Link) → IsSame l l
IsSame-refl l = (refl, refl, refl, refl, refl)

IsSame-trans : (l m n : Link) → IsSame l m → IsSame m n → IsSame l n
IsSame-trans l m n h k = (k.0 ∙ h.0, k.1 ∙ h.1, k.2 ∙ h.2, k.3 ∙ h.3, k.4 ∙ h.4)

keeps_trans : (l m : Link) (c : Handled) → IsSame l m → KeepsHandled m c → KeepsHandled l c
keeps_trans l m (handled n) h k = IsSame-trans l m n h k
keeps_trans l m erred h k = tt
keeps_trans l m died h k = tt

module _ (srv : Server) (env : Env) where
  answer-Leads :
      (l : Link) (h : PacketHeader) (token : Bytes) (g : Front)
      → IsSame l g.link
      → Leads env l (answer srv env h token g)
  unfolding answer
  answer-Leads l h token g same =
      answered_with (contexts_for env g.link g.negotiator.specified_dialect)
    where
      answered_with : (cs : Option (List Bytes)) → Leads env l (answer_with cs srv env h token g)
      answered_with none = stops crashed g refl same
      answered_with (some cs) = sends none h _ g same

  handle_data-keeps :
      (kind : ℕ) (d : Decoded Bytes) (l : Link) → KeepsHandled l (handle_data kind d l)
  handle_data-keeps kind rejected l = tt
  handle_data-keeps kind panicked l = tt
  handle_data-keeps kind (decoded bs) l = ground arith

  handle_context-keeps : (ctx : Slice) (l : Link) → KeepsHandled l (handle_context ctx l)
  handle_context-keeps ctx l =
      ground (arith, handle_data-keeps (uint16 0 ctx) (slice 8 ((8 + uint16 2 ctx) % 2 ^ 16) ctx) l)

  and_contexts-keeps :
      (l : Link) (k : Link → Handled) (c : Handled)
      → KeepsHandled l c
      → ((m : Link) → KeepsHandled m (k m))
      → KeepsHandled l (and_contexts c k)
  and_contexts-keeps l k erred h g = tt
  and_contexts-keeps l k died h g = tt
  and_contexts-keeps l k (handled m) h g = keeps_trans l m (k m) h (g m)

  handle_contexts-keeps :
      (n : ℕ) (list : Bytes) (l : Link) → KeepsHandled l (handle_contexts n list l)
  unfolding handle_contexts
  handle_contexts-keeps zero list l = IsSame-refl l
  handle_contexts-keeps (suc n) list l =
      let ctx = of_bytes list in
      let off = roundup8 (8 + uint16 2 ctx) in
      let next = if ltb (length list) off then [] else drop off list in
      and_contexts-keeps l (handle_contexts n next) (handle_context ctx l)
        (handle_context-keeps ctx l) (handle_contexts-keeps n next)

  list-keeps :
      (r : NegotiateRequestView) (p : Slice) (l : Link)
      → KeepsHandled l
          (handle_list r.negotiate_context_count (negotiate_context_list (from 64 p)) l)
  list-keeps r p l = listed (negotiate_context_list (from 64 p))
    where
      listed : (d : Decoded Bytes) → KeepsHandled l (handle_list r.negotiate_context_count d l)
      listed (decoded list) = handle_contexts-keeps r.negotiate_context_count list l
      listed rejected = tt
      listed panicked = tt

  answer_contexts-Leads :
      (l : Link) (c : Handled) (h : PacketHeader) (token : Bytes) (g : Front)
      → IsSame l g.link
      → KeepsHandled g.link c
      → Leads env l (answer_contexts c srv env h token g)
  answer_contexts-Leads l erred h token g same k = stops closed g refl same
  answer_contexts-Leads l died h token g same k = stops crashed g refl same
  answer_contexts-Leads l (handled m) h token g same k =
      answer-Leads l h token (record g { link = m }) (IsSame-trans l g.link m same k)

  negotiate_with-Leads :
      (l : Link) (d : Decoded NegotiateRequestView) (p : Slice) (g : Front)
      → IsSame l g.link
      → Leads env l (negotiate_with d srv env p g)
  negotiate_with-Leads l rejected p g same = stops closed g refl same
  negotiate_with-Leads l panicked p g same = stops crashed g refl same
  negotiate_with-Leads l (decoded r) p g same =
      let now = settled srv r g in
      if_case (Leads env l) (choose_dialect r.dialects == 0x311)
        (answer_contexts-Leads l
          (handle_list r.negotiate_context_count (negotiate_context_list (from 64 p)) now.link)
          (prepare_response p 0) srv.mechanism.init_token now same (list-keeps r p now.link))
        (answer-Leads l (prepare_response p 0) srv.mechanism.init_token now same)

  negotiate_entered-Leads :
      (l : Link) (e : Entry) (p : Slice) (g : Front)
      → IsSame l g.link
      → Leads env l (negotiate_entered e srv env p g)
  negotiate_entered-Leads l left p g same = stops closed g refl same
  negotiate_entered-Leads l fell p g same = stops crashed g refl same
  negotiate_entered-Leads l entered p g same =
      negotiate_with-Leads l (Negotiate.decode (from 64 p)) p g same

  pub negotiate-Leads : (p : Slice) (f : Front) → Leads env (reset f.link) (negotiate srv env p f)
  unfolding negotiate
  negotiate-Leads p f = on_packet (is_smb1 p)
    where
      l : Link
      l = reset f.link

      on_packet :
          (d : Decoded Bool) → Leads env l (negotiate_packet d srv env p (record f { link = l }))
      on_packet rejected = stops crashed _ refl (IsSame-refl l)
      on_packet panicked = stops crashed _ refl (IsSame-refl l)
      on_packet (decoded true) = answer-Leads l _ _ _ (IsSame-refl l)
      on_packet (decoded false) =
          negotiate_entered-Leads l (entry 0 p) p (record f { link = l }) (IsSame-refl l)

-- What holds of a handler's three ways on: it ends, or it goes on with the token.
module _ (P : Step → Type 0) (f : Front) (left_off : P (stop closed f))
    (panics : P (stop crashed f)) where
  pub with_token_case :
      (e : Entry) (p : Slice) (k : Bytes → Step)
      → ((token : Bytes) → SessionSetup.security_buffer (from 64 p) ≡ decoded token → P (k token))
      → P (with_token e p k f)
  with_token_case left p k g = left_off
  with_token_case fell p k g = panics
  with_token_case entered p k g =
      if_case P (SessionSetup.is_invalid (from 64 p)) left_off
        (on_token (SessionSetup.security_buffer (from 64 p)) g)
    where
      on_token :
          (d : Decoded Bytes)
          → ((token : Bytes) → d ≡ decoded token → P (k token))
          → P (token_of d k f)
      on_token (decoded token) g = g token refl
      on_token rejected g = panics
      on_token panicked g = panics

  pub tree_connect_case :
      (srv : Server) (env : Env) (p : Slice)
      → ((kind : TreeKind) (name : Bytes) → P (connect kind name env p f))
      → P (tree_connect srv env p f)
  unfolding tree_connect
  tree_connect_case srv env p k = after (entry 3 p)
    where
      at_path : (path : Bytes) → P (connect_path path srv env p f)
      at_path path = if_case P (has_suffix path ipc_name) (k ipc_tree ipc_name) (
          if_case P (is_share srv (SmbPath.split path).1) (k file_tree (SmbPath.split path).1)
            left_off)

      read : (d : Decoded Bytes) → P (path_of d srv env p f)
      read (decoded bs) = at_path (decode_to_string bs)
      read rejected = panics
      read panicked = panics

      after : (e : Entry) → P (tree_connect_entered e srv env p f)
      after left = left_off
      after fell = panics
      after entered =
          if_case P (TreeConnect.is_invalid (from 64 p)) left_off
            (read (TreeConnect.path (from 64 p)))
