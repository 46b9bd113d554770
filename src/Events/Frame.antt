-- ===== src/Events/Frame.antt =====
-- What the events of base_socket.cpp keep: a map that owns its handlers.
use socket_server.Prelude.{ℕ, refl, true, false, [], Option, none, some, Keeps, keeps_rules}
use socket_server.Cache.{Stdio}
use socket_server.Cache.Frame.{HostKeeps}
use socket_server.Cp.{Net}
use socket_server.Cp.Frame.{NetKeeps}
use socket_server.Virus.{Session}
use socket_server.Virus.Frame.{read_loop-Keeps, send_loop-Keeps}
use socket_server.BaseSocket.{
  Class, base_socket, socket_handler, virus_handler, tcp_server, Handler, lift_net, lift_stdio,
  handle_close, handle_error, send,
}
use socket_server.BaseSocket.Owned.{IsOwned, IsOwned-IsFrame, lift_net-Keeps, lift_stdio-Keeps}
use socket_server.BaseSocket.Frame.{
  IsMild, load-Keeps, store-Keeps, close-Keeps, handle_expt-Keeps, recv-Keeps, send-Keeps,
}
use socket_server.Setup.Frame.{accept-Keeps, new_virus_handler-Keeps}
use socket_server.Events.{
  keep_session, read_requests, read_as, handle_read, write_replies, write_as, handle_write,
  handle_connect, handle_connect_event, handle_expt_event, connect_first, handle_write_event,
  accept_client, accept_as, handle_accept, handle_read_event,
}

module _ {W : Type 0} (net : Net W) (stdio : Stdio W) (fuel : ℕ) where
  keeps : NetKeeps (lift_net net) (IsOwned {W = W})
  keeps = lift_net-Keeps (IsOwned-IsFrame W) net

  host_keeps : HostKeeps (lift_stdio stdio) (IsOwned {W = W})
  host_keeps = lift_stdio-Keeps (IsOwned-IsFrame W) stdio

  keep_session-Keeps :
      (this : ℕ) (s : Option Session) → Keeps (IsOwned {W = W}) (keep_session net stdio fuel this s)
  unfolding keep_session
  keep_session-Keeps this none = search keeps_rules
  keep_session-Keeps this (some s) =
      let mild : IsMild (λ h. record h { session = s }) = λ h. (refl, refl) in
      search (keeps_rules, store-Keeps, mild)

  read_requests-Keeps : (this : ℕ) → Keeps (IsOwned {W = W}) (read_requests net stdio fuel this)
  unfolding read_requests
  read_requests-Keeps this =
      search
        (
          keeps_rules,
          recv-Keeps net,
          load-Keeps,
          read_loop-Keeps (lift_stdio stdio) host_keeps,
          keep_session-Keeps,
        )
        depth 9

  read_as-Keeps :
      (class : Class) (this : ℕ) → Keeps (IsOwned {W = W}) (read_as net stdio fuel class this)
  unfolding read_as
  read_as-Keeps base_socket this = search keeps_rules
  read_as-Keeps tcp_server this = search keeps_rules
  read_as-Keeps socket_handler this = search (keeps_rules, recv-Keeps net)
  read_as-Keeps virus_handler this = read_requests-Keeps this

  handle_read-Keeps : (this : ℕ) → Keeps (IsOwned {W = W}) (handle_read net stdio fuel this)
  unfolding handle_read
  handle_read-Keeps this = search (keeps_rules, load-Keeps, read_as-Keeps)

  write_replies-Keeps : (this : ℕ) → Keeps (IsOwned {W = W}) (write_replies net stdio fuel this)
  unfolding write_replies
  write_replies-Keeps this =
      let mild : IsMild (λ h. record h { session = record (h.session) { resp = [] } }) =
        λ h. (refl, refl) in
      search
        (
          keeps_rules,
          load-Keeps,
          store-Keeps,
          mild,
          send_loop-Keeps (lift_stdio stdio) host_keeps (send net this) (send-Keeps net this),
        )
        depth 9

  write_as-Keeps :
      (class : Class) (this : ℕ) → Keeps (IsOwned {W = W}) (write_as net stdio fuel class this)
  unfolding write_as
  write_as-Keeps base_socket this = search keeps_rules
  write_as-Keeps tcp_server this = search keeps_rules
  write_as-Keeps socket_handler this = search keeps_rules
  write_as-Keeps virus_handler this = write_replies-Keeps this

  handle_write-Keeps : (this : ℕ) → Keeps (IsOwned {W = W}) (handle_write net stdio fuel this)
  unfolding handle_write
  handle_write-Keeps this = search (keeps_rules, load-Keeps, write_as-Keeps)

  handle_connect_event-Keeps :
      (this : ℕ) → Keeps (IsOwned {W = W}) (handle_connect_event net stdio fuel this)
  unfolding handle_connect_event handle_error handle_close handle_connect
  handle_connect_event-Keeps this =
      let mild : IsMild (λ h. record h { connected = true; connecting = false }) =
        λ h. (refl, refl) in
      search (keeps_rules, load-Keeps, store-Keeps, mild, keeps.getsockopt, close-Keeps net) depth 9

  pub handle_expt_event-Keeps :
      (this : ℕ) → Keeps (IsOwned {W = W}) (handle_expt_event net stdio fuel this)
  unfolding handle_expt_event handle_close
  handle_expt_event-Keeps this =
      search (keeps_rules, load-Keeps, keeps.getsockopt, close-Keeps net, handle_expt-Keeps net)
        depth 9

  connect_first-Keeps :
      (self : Handler) (this : ℕ) → Keeps (IsOwned {W = W}) (connect_first net stdio fuel self this)
  unfolding connect_first
  connect_first-Keeps self this = search (keeps_rules, handle_connect_event-Keeps)

  pub handle_write_event-Keeps :
      (this : ℕ) → Keeps (IsOwned {W = W}) (handle_write_event net stdio fuel this)
  unfolding handle_write_event
  handle_write_event-Keeps this =
      search (keeps_rules, load-Keeps, connect_first-Keeps, handle_write-Keeps) depth 9

  accept_client-Keeps :
      (session : Session) (this : ℕ)
      → Keeps (IsOwned {W = W}) (accept_client net stdio fuel session this)
  unfolding accept_client
  accept_client-Keeps session this =
      search (keeps_rules, accept-Keeps net, new_virus_handler-Keeps net) depth 9

  accept_as-Keeps :
      (class : Class) (session : Session) (this : ℕ)
      → Keeps (IsOwned {W = W}) (accept_as net stdio fuel class session this)
  unfolding accept_as
  accept_as-Keeps base_socket session this = search keeps_rules
  accept_as-Keeps socket_handler session this = search keeps_rules
  accept_as-Keeps virus_handler session this = search keeps_rules
  accept_as-Keeps tcp_server session this = accept_client-Keeps session this

  pub handle_read_event-Keeps :
      (session : Session) (this : ℕ)
      → Keeps (IsOwned {W = W}) (handle_read_event net stdio fuel session this)
  unfolding handle_read_event handle_accept
  handle_read_event-Keeps session this =
      search (keeps_rules, load-Keeps, accept_as-Keeps, connect_first-Keeps, handle_read-Keeps)
        depth 9
