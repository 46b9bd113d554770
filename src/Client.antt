-- ===== src/Client.antt =====
-- client/test_client.cpp in its Linux build: the client that sends a file to the server and reads its
-- answer, and the loop that sends what is typed. The socket calls are those of `Net`; the C++ library's
-- input is a parameter of its own. `new` is taken to give memory.
pub mod Talk
pub mod Shows
pub mod Sends
pub mod Closes
pub mod Conversations
use socket_server.Prelude.{
  ℕ, zero, suc, ◌+◌, ◌*◌, Bool, true, false, ◌||◌, not, Option, none, some, List, [], ◌∷◌, take,
  length, ◌==◌, ◌==ℤ◌, if◌then◌else◌, ℤ, pos, minus_one, M, pure, call, run, ◌>>=◌, ◌>>◌, ltb, to_ℕ,
}
use socket_server.Cp.{
  Net, Addr, invalid_socket, socket_error, str_eq, sock_stream, ipproto_tcp, af_inet,
}
use socket_server.Wire.{
  Header, header_size, htonl, ntohl, bytes_of_header, header_of_bytes, word_of_bytes_list,
}

-- std::ifstream on one file, and std::cin.
pub record Input (W : Type 0) : Type 0 where
  pub open_file : List ℕ → W → Bool × W
  -- `seekg` to the end, `tellg`, and back.
  pub size : W → ℕ × W
  -- `read`: the bytes, and whether the stream is still good.
  pub read : ℕ → W → (List ℕ × Bool) × W
  pub close_file : W → W
  -- `cin >> word`
  pub word : W → List ℕ × W

-- What `printf` shows of an answer, in host order.
pub record Shown : Type 0 where
  pub id : ℕ
  pub length : ℕ
  pub errcode : ℕ

-- 127.0.0.1
abbrev pub srv_host : List ℕ
srv_host = b'1' ∷ b'2' ∷ b'7' ∷ b'.' ∷ b'0' ∷ b'.' ∷ b'0' ∷ b'.' ∷ b'1' ∷ []

abbrev pub srv_port : ℕ
srv_port = 7890

-- The id of every request.
abbrev pub request_id : ℕ
request_id = 123456

-- SOCKET_ERROR or 0
abbrev pub failed : ℤ → Bool
failed n = (n ==ℤ socket_error) || (n ==ℤ pos 0)

-- send_buff.compare(0, 4, "quit") == 0
unfoldable pub is_quit : List ℕ → Bool
unfolding str_eq
is_quit send_buff = str_eq (take 4 send_buff) (b'q' ∷ b'u' ∷ b'i' ∷ b't' ∷ [])

module _ {W : Type 0} (net : Net W) (input : Input W) where
  -- From the label `loop_send_recv_end` on: the result is 0 whatever happened before.
  unfoldable pub finish : ℤ → Option Shown → M W (ℤ × Option Shown)
  finish sclient shown = do run input.close_file; run (net.close sclient); pure (pos 0, shown)

  unfoldable pub recv_errcode : ℤ → Header → M W (ℤ × Option Shown)
  unfolding finish
  recv_errcode sclient header = do
    r ← call (net.recv sclient 4 0)
    if failed r.0 || not (r.0 ==ℤ pos 4)
        then finish sclient none
        else finish sclient (
            some (record {
              id = ntohl header.id;
              length = ntohl header.length;
              errcode = ntohl (word_of_bytes_list r.1);
            }))

  unfoldable pub recv_header : ℤ → M W (ℤ × Option Shown)
  unfolding finish recv_errcode
  recv_header sclient = do
    r ← call (net.recv sclient header_size 0)
    if failed r.0 || not (r.0 ==ℤ pos header_size)
        then finish sclient none
        else recv_errcode sclient (header_of_bytes r.1)

  -- `req_data` is the file, and `header` is in network order.
  unfoldable pub send_value : ℤ → Header → List ℕ → M W (ℤ × Option Shown)
  unfolding finish recv_header
  send_value sclient header req_data = do
    n_send ← call (net.send sclient (take (ntohl header.length) req_data) 0)
    if failed n_send
        then finish sclient none
        else run (net.usleep (500 * 1000)) >> recv_header sclient

  unfoldable pub send_header : ℤ → ℕ → List ℕ → M W (ℤ × Option Shown)
  unfolding finish send_value
  send_header sclient len req_data = do
    let header : Header = record { id = htonl request_id; length = htonl len }
    n_send ← call (net.send sclient (bytes_of_header header) 0)
    if failed n_send then finish sclient none else send_value sclient header req_data

  -- For a file below 2 ^ 31 bytes: its size is cast to `int` for the header and for the buffer, and the
  -- length in the header once more for the send.
  unfoldable pub send_content : ℤ → M W (ℤ × Option Shown)
  unfolding finish send_header
  send_content sclient = do
    len ← call input.size
    content ← call (input.read len)
    if content.1 then send_header sclient len content.0 else finish sclient none

  -- With a socket. After a failed `connect` it is closed here and once more at the end.
  unfoldable pub connect_and_send : ℤ → M W (ℤ × Option Shown)
  unfolding finish send_content
  connect_and_send sclient = do
    parsed ← call (net.inet_pton srv_host)
    connected ←
        call (net.connect sclient (record { family = af_inet; port = srv_port; host = parsed.1 }))
    if connected ==ℤ socket_error
        then run (net.close sclient) >> finish sclient none
        else send_content sclient

  unfoldable pub fake_client_send_file : List ℕ → M W (ℤ × Option Shown)
  unfolding connect_and_send
  fake_client_send_file path = do
    is ← call (input.open_file path)
    if is
        then (do
          sclient ← call (net.socket af_inet sock_stream ipproto_tcp)
          if sclient ==ℤ invalid_socket then pure (minus_one, none) else connect_and_send sclient)
        else pure (minus_one, none)

  -- The answer to what was typed. When nothing is received, the loop is left with the socket open.
  unfoldable pub hear : ℤ → M W Bool
  hear sclient = do
    r ← call (net.recv sclient 255 0)
    if failed r.0 then pure false else run (net.close sclient) >> pure true

  -- `send_buff` is what is typed, and `send`'s result is not looked at.
  unfoldable pub speak : ℤ → M W Bool
  unfolding hear is_quit
  speak sclient = do
    send_buff ← call input.word
    if is_quit send_buff
        then run (net.close sclient) >> pure false
        else call (net.send sclient send_buff 0) >>= λ n. hear sclient

  -- With a socket.
  unfoldable pub connect_and_speak : ℤ → M W Bool
  unfolding speak
  connect_and_speak sclient = do
    parsed ← call (net.inet_pton srv_host)
    connected ←
        call (net.connect sclient (record { family = af_inet; port = srv_port; host = parsed.1 }))
    if connected ==ℤ socket_error then run (net.close sclient) >> pure false else speak sclient

  -- The body of the loop of `loop_send_recv`: whether it goes round again.
  unfoldable pub conversation : M W Bool
  unfolding connect_and_speak
  conversation = do
    sclient ← call (net.socket af_inet sock_stream ipproto_tcp)
    if sclient ==ℤ invalid_socket then pure false else connect_and_speak sclient

  unfoldable pub once_more : M W (Option ℤ) → Bool → M W (Option ℤ)
  once_more go false = pure (some (pos 0))
  once_more go true = go

  -- `none` after as many conversations as there is fuel.
  unfoldable pub loop_send_recv : ℕ → M W (Option ℤ)
  unfolding conversation once_more
  loop_send_recv zero = pure none
  loop_send_recv (suc fuel) = conversation >>= once_more (loop_send_recv fuel)
