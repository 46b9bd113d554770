-- ===== src/Events/Local.antt =====
-- The events of a handler in base_socket.cpp work on the handler's own object: what the members of one
-- object, and the erasing of its socket, keep of a process, its events keep.
use socket_server.Prelude.{ℕ, refl, false, [], Option, none, some, Keeps, keeps_rules, List}
use socket_server.Cache.{Stdio}
use socket_server.Cp.{Net}
use socket_server.Cp.Frame.{NetKeeps, cp_close_socket-Keeps, cp_recv-Keeps, cp_send-Keeps}
use socket_server.Virus.{Session}
use socket_server.Virus.Frame.{read_loop-Keeps, send_loop-Keeps}
use socket_server.BaseSocket.{
  Class, base_socket, socket_handler, virus_handler, tcp_server, expt_as, Handler, Process,
  lift_net, lift_stdio, load, store, del_channel, close, handle_close, handle_expt, recv, send,
}
use socket_server.BaseSocket.Owned.{IsFrame, lift_net-Keeps, lift_stdio-Keeps}
use socket_server.BaseSocket.Frame.{IsMild}
use socket_server.Events.{keep_session, read_requests, write_replies, handle_expt_event}

-- `P` is kept by what a handler does to its own members, but for its socket, and to its own entry.
pub record IsLocal {W : Type 0} (net : Net W) (this : ℕ) (P : Process W → Type 0) : Type 0 where
  pub frame : IsFrame P
  pub load_keeps : Keeps P (load this)
  pub store_keeps : (f : Handler → Handler) → IsMild f → Keeps P (store this f)
  pub del_channel_keeps : Keeps P (del_channel net this)

module _ {W : Type 0} (net : Net W) (stdio : Stdio W) (fuel this : ℕ) {P : Process W → Type 0}
    (l : IsLocal net this P) where
  keeps : NetKeeps (lift_net net) P
  keeps = lift_net-Keeps l.frame net

  load-Keeps : Keeps P (load this)
  load-Keeps = l.load_keeps

  store-Keeps : (f : Handler → Handler) → IsMild f → Keeps P (store this f)
  store-Keeps = l.store_keeps

  del_channel-Keeps : Keeps P (del_channel net this)
  del_channel-Keeps = l.del_channel_keeps

  same_world : (p : Process W) → P p → P p
  same_world p h = h

  close-Keeps : Keeps P (close net this)
  unfolding close
  close-Keeps =
      let mild : IsMild
          (λ h. record h { connected = false; connecting = false; accepting = false }) =
        λ h. (refl, refl) in
      search (
        keeps_rules,
        store-Keeps,
        mild,
        del_channel-Keeps,
        load-Keeps,
        cp_close_socket-Keeps (lift_net net) keeps,
      )

  expt_as-Keeps : (class : Class) → Keeps P (expt_as net class this)
  unfolding expt_as handle_close
  expt_as-Keeps base_socket = search keeps_rules
  expt_as-Keeps tcp_server = search keeps_rules
  expt_as-Keeps socket_handler = close-Keeps
  expt_as-Keeps virus_handler = close-Keeps

  handle_expt-Keeps : Keeps P (handle_expt net this)
  unfolding handle_expt
  handle_expt-Keeps = search (keeps_rules, load-Keeps, expt_as-Keeps)

  recv-Keeps : (size : ℕ) → Keeps P (recv net this size)
  unfolding recv handle_close
  recv-Keeps size =
      search
        (
          keeps_rules,
          load-Keeps,
          cp_recv-Keeps (lift_net net) keeps,
          close-Keeps,
          handle_expt-Keeps,
        )
        depth 9

  send-Keeps : (buf : List ℕ) → Keeps P (send net this buf)
  unfolding send handle_close
  send-Keeps buf =
      search (keeps_rules, load-Keeps, cp_send-Keeps (lift_net net) keeps, close-Keeps, same_world)
        depth 9

  keep_session-Keeps : (s : Option Session) → Keeps P (keep_session net stdio fuel this s)
  unfolding keep_session
  keep_session-Keeps none = search keeps_rules
  keep_session-Keeps (some s) =
      let mild : IsMild (λ h. record h { session = s }) = λ h. (refl, refl) in
      search (keeps_rules, store-Keeps, mild)

  pub read_requests-Keeps : Keeps P (read_requests net stdio fuel this)
  unfolding read_requests
  read_requests-Keeps =
      search
        (
          keeps_rules,
          recv-Keeps,
          load-Keeps,
          read_loop-Keeps (lift_stdio stdio) (lift_stdio-Keeps l.frame stdio),
          keep_session-Keeps,
        )
        depth 9

  pub write_replies-Keeps : Keeps P (write_replies net stdio fuel this)
  unfolding write_replies
  write_replies-Keeps =
      let mild : IsMild (λ h. record h { session = record (h.session) { resp = [] } }) =
        λ h. (refl, refl) in
      search
        (
          keeps_rules,
          load-Keeps,
          store-Keeps,
          mild,
          send_loop-Keeps (lift_stdio stdio) (lift_stdio-Keeps l.frame stdio) (send net this)
              send-Keeps,
        )
        depth 9

  pub handle_expt_event-Keeps : Keeps P (handle_expt_event net stdio fuel this)
  unfolding handle_expt_event handle_close
  handle_expt_event-Keeps =
      search (keeps_rules, load-Keeps, keeps.getsockopt, close-Keeps, handle_expt-Keeps) depth 9
