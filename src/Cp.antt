-- ===== src/Cp.antt =====
-- doc_ferry_server/src/cp_socket.cpp and inc/cp_socket.h, in the Linux build: the wrappers of the
-- socket calls. A host name is the list of its bytes, and `none` is a null pointer.
mod System
pub mod SendAll
pub mod Blocking
pub mod Frame
pub mod Clear
pub mod Windows
pub use System.{
  Net, Errno, Addr, Flags, einval, enotconn, eisconn, ealready, einprogress, eagain, ewouldblock,
  econnaborted, eintr, other_error,
}
use socket_server.Prelude.{
  ℕ, zero, suc, Bool, true, false, ◌&&◌, ◌||◌, not, Option, none, some, List, [], ◌∷◌, take, drop,
  length, ◌==◌, ◌==ℤ◌, ltb_ℤ, if◌then◌else◌, ℤ, pos, negsuc, minus_one, to_ℕ, M, pure, call, run,
  ◌>>=◌, ◌>>◌,
}

-- INVALID_SOCKET and SOCKET_ERROR
abbrev pub invalid_socket : ℤ
invalid_socket = minus_one

abbrev pub socket_error : ℤ
socket_error = minus_one

-- SOCK_STREAM, SOCK_DGRAM, IPPROTO_TCP, IPPROTO_UDP and AF_INET of Linux
abbrev pub sock_stream : ℕ
sock_stream = 1

abbrev pub sock_dgram : ℕ
sock_dgram = 2

abbrev pub ipproto_tcp : ℕ
ipproto_tcp = 6

abbrev pub ipproto_udp : ℕ
ipproto_udp = 17

abbrev pub af_inet : ℕ
af_inet = 2

-- The text 0.0.0.0
abbrev pub any_host : List ℕ
any_host = b'0' ∷ b'.' ∷ b'0' ∷ b'.' ∷ b'0' ∷ b'.' ∷ b'0' ∷ []

-- INADDR_ANY
abbrev pub inaddr_any : ℕ
inaddr_any = 0

-- strcmp(a, b) == 0
unfoldable pub str_eq : List ℕ → List ℕ → Bool
str_eq [] [] = true
str_eq [] (b ∷ bs) = false
str_eq (a ∷ as') [] = false
str_eq (a ∷ as') (b ∷ bs) = (a == b) && str_eq as' bs

unfoldable pub cp_socket_valid : ℤ → Bool
cp_socket_valid sock = not (sock ==ℤ pos 0) && not (sock ==ℤ invalid_socket)

-- FD_ISSET on a set that is the list of its members.
unfoldable pub is_set : ℤ → List ℤ → Bool
is_set sock [] = false
is_set sock (s ∷ rest) = s ==ℤ sock || is_set sock rest

-- The test of the loop of `cp_send_all`.
pub send_rest : {W : Type 0} → (List ℕ → M W (Option ℤ)) → ℕ → List ℕ → M W (Option ℤ)
send_rest next len [] = pure (some (pos len))
send_rest next len (b ∷ bs) = next (b ∷ bs)

-- Its body, after `send` has returned; `next` is the loop, and `left` is what was to be sent.
pub send_turn : {W : Type 0} → (List ℕ → M W (Option ℤ)) → List ℕ → ℕ → ℤ → M W (Option ℤ)
unfolding send_rest
send_turn next left len (pos zero) = pure (some (pos 0))
send_turn next left len (pos (suc n)) = send_rest next len (drop (suc n) left)
send_turn next left len (negsuc n) = pure (some minus_one)

module _ {W : Type 0} (net : Net W) where
  open net use {
    socket, bind, listen, connect, accept, send, recv, get_flags, set_flags, close, getpeername,
    inet_pton, inet_ntop,
  }

  -- The Linux build starts nothing and stops nothing.
  pub cp_socket_init : M W ℤ
  cp_socket_init = pure (pos 0)

  pub cp_socket_uninit : M W (Unit {0})
  cp_socket_uninit = pure tt

  -- The address family is not passed on.
  pub cp_socket : ℕ → ℕ → ℕ → M W ℤ
  cp_socket af type protocol = call (socket af_inet type protocol)

  pub cp_socket_udp : M W ℤ
  unfolding cp_socket
  cp_socket_udp = cp_socket af_inet sock_dgram ipproto_udp

  pub cp_socket_tcp : M W ℤ
  unfolding cp_socket
  cp_socket_tcp = cp_socket af_inet sock_stream ipproto_tcp

  -- `none` is a null pointer; the second argument is the size of `dst`, if that is not null.
  unfoldable pub cp_inet_ntop : Option Addr → Option ℕ → M W (Option (List ℕ))
  cp_inet_ntop none len = pure none
  cp_inet_ntop (some src) none = pure none
  cp_inet_ntop (some src) (some len) = call (inet_ntop src len)

  -- The result of the parse, and the address as it is afterwards.
  unfoldable pub cp_inet_pton : Option (List ℕ) → Addr → M W (ℤ × Addr)
  unfolding str_eq
  cp_inet_pton none addr = pure (pos 1, record addr { host = inaddr_any })
  cp_inet_pton (some p_host) addr =
      if str_eq p_host any_host then pure (pos 1, record addr { host = inaddr_any }) else do
        r ← call (inet_pton p_host)
        pure (r.0, if r.0 ==ℤ pos 1 then record addr { host = r.1 } else addr)

  -- The address is parsed, and only a parsed one is used.
  unfoldable pub with_address : ℕ → Option (List ℕ) → ℕ → ℤ → (Addr → M W ℤ) → M W ℤ
  with_address af host port failed use_it = do
    r ← cp_inet_pton host (record { family = af; port = port; host = 0 })
    if (r.0 ==ℤ pos 0) || (r.0 ==ℤ minus_one) then pure failed else use_it r.1

  unfoldable pub cp_bind : ℤ → ℕ → Option (List ℕ) → ℕ → M W ℤ
  unfolding with_address
  cp_bind sock af p_srv_host srv_port =
      with_address af p_srv_host srv_port (negsuc 1) (λ addr. call (bind sock addr))

  unfoldable pub cp_listen : ℤ → ℕ → M W ℤ
  cp_listen sock maxconn = call (listen sock maxconn)

  unfoldable pub cp_connect : ℤ → ℕ → Option (List ℕ) → ℕ → M W ℤ
  unfolding with_address
  cp_connect sock af none srv_port = pure (negsuc 1)
  cp_connect sock af (some p_srv_host) srv_port =
      if srv_port == 0
      then pure (negsuc 1)
      else with_address af (some p_srv_host) srv_port (negsuc 2) (λ addr. call (connect sock addr))

  unfoldable pub cp_accept : ℤ → M W (ℤ × Addr)
  cp_accept sock = call (accept sock)

  unfoldable pub cp_send : ℤ → List ℕ → ℕ → M W ℤ
  cp_send sock [] flags = pure (pos 0)
  cp_send sock (b ∷ bs) flags = call (send sock (b ∷ bs) flags)

  -- The result, and the bytes that are in the buffer afterwards.
  unfoldable pub cp_recv : ℤ → ℕ → ℕ → M W (ℤ × List ℕ)
  cp_recv sock zero flags = pure (pos 0, [])
  cp_recv sock (suc n) flags = call (recv sock (suc n) flags)

  -- The loop of `cp_send_all`, with what is left; `none` means that the fuel ran out.
  pub send_left : ℕ → ℤ → List ℕ → ℕ → ℕ → M W (Option ℤ)
  unfolding send_turn
  send_left zero sock left len flags = pure none
  send_left (suc fuel) sock left len flags =
      call (send sock left flags)
      >>= send_turn (λ left'. send_left fuel sock left' len flags) left len

  pub cp_send_all : ℕ → ℤ → List ℕ → ℕ → M W (Option ℤ)
  unfolding send_left
  cp_send_all fuel sock [] flags = pure (some (pos 0))
  cp_send_all fuel sock (b ∷ bs) flags = send_left fuel sock (b ∷ bs) (length (b ∷ bs)) flags

  -- `mode & O_NONBLOCK` to make it blocking, `mode | O_NONBLOCK` to make it not.
  pub new_mode : Bool → Flags → Flags
  new_mode true mode = record mode { fixed = 0; rest = 0 }
  new_mode false mode = record mode { nonblock = true }

  unfoldable pub cp_setblocking : ℤ → Bool → M W ℤ
  unfolding new_mode
  cp_setblocking sock is_block = do
    mode ← call (get_flags sock)
    call (set_flags sock (new_mode is_block mode))

  unfoldable pub cp_close_socket : ℤ → M W (Unit {0})
  cp_close_socket sock = run (close sock)

  -- The result of `inet_pton` is not looked at. -1 is an invalid socket.
  pub create_connection : List ℕ → ℕ → M W ℤ
  unfolding cp_socket_tcp cp_close_socket
  create_connection server_ip server_port = do
    sock ← cp_socket_tcp
    if sock ==ℤ invalid_socket then pure minus_one else do
      parsed ← call (inet_pton server_ip)
      connected ←
          call (connect sock (record { family = af_inet; port = server_port; host = parsed.1 }))
      if connected ==ℤ socket_error then cp_close_socket sock >> pure minus_one else pure sock

  unfoldable pub cp_getpeername : ℤ → M W (ℤ × Addr)
  cp_getpeername sock = call (getpeername sock)
