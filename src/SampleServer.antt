-- ===== src/SampleServer.antt =====
-- server/test_server.cpp: the sample that greets each client. Its calls of Winsock are those of `Net`;
-- `wsa_startup` and `printf`, whose format is what was received, are parameters of their own.
pub mod Rounds
use socket_server.Prelude.{
  ℕ, zero, suc, Bool, Option, none, some, List, [], ◌∷◌, ◌==◌, ◌==ℤ◌, ltb, if◌then◌else◌, ℤ, pos,
  negsuc, M, pure, fault, call, run, ◌>>=◌, ◌>>◌, out_of_bounds,
}
use socket_server.Cp.{
  Net, socket_error, invalid_socket, sock_stream, ipproto_tcp, af_inet, inaddr_any,
}

-- The size of `revData`.
abbrev pub rev_data_size : ℕ
rev_data_size = 255

-- "hello , client ! \n"
abbrev pub send_data : List ℕ
send_data =
    b'h' ∷ b'e' ∷ b'l' ∷ b'l' ∷ b'o' ∷ b' ' ∷ b',' ∷ b' ' ∷ b'c' ∷ b'l' ∷ b'i' ∷ b'e' ∷ b'n' ∷ b't'
    ∷ b' ' ∷ b'!' ∷ b' ' ∷ 10 ∷ []

module _ {W : Type 0} (net : Net W) (wsa_startup : W → ℕ × W)
    (printf : List ℕ → M W (Unit {0})) where
  -- What was received is closed with a zero, and is the format of `printf`.
  unfoldable pub show_data : ℤ → List ℕ → M W (Unit {0})
  show_data (negsuc n) bytes = pure tt
  show_data (pos zero) bytes = pure tt
  show_data (pos (suc n)) bytes =
      if ltb (suc n) rev_data_size then printf bytes else fault out_of_bounds

  -- One client.
  unfoldable pub serve : ℤ → M W (Unit {0})
  unfolding show_data
  serve client = do
    r ← call (net.recv client rev_data_size 0)
    show_data r.0 r.1
    n ← call (net.send client send_data 0)
    run (net.close client)

  -- The body of the loop.
  unfoldable pub serve_next : ℤ → M W (Unit {0})
  unfolding serve
  serve_next slisten = do
    r ← call (net.accept slisten)
    if r.0 ==ℤ invalid_socket then pure tt else call (net.inet_ntop r.1 16) >>= λ ip. serve r.0

  -- The loop has no end, which any number of rounds stands for.
  unfoldable pub serve_all : ℕ → ℤ → M W (Option ℤ)
  unfolding serve_next
  serve_all zero slisten = pure none
  serve_all (suc n) slisten = serve_next slisten >> serve_all n slisten

  -- With a socket. Whether it could be bound is only printed.
  unfoldable pub listen_and_serve : ℕ → ℤ → M W (Option ℤ)
  unfolding serve_all
  listen_and_serve n slisten = do
    bound ← call (net.bind slisten (record { family = af_inet; port = 8888; host = inaddr_any }))
    listening ← call (net.listen slisten 5)
    if listening ==ℤ socket_error then pure (some (pos 0)) else serve_all n slisten

  unfoldable pub sample_main : ℕ → M W (Option ℤ)
  unfolding listen_and_serve
  sample_main n = do
    started ← call wsa_startup
    if started == 0
        then (do
          slisten ← call (net.socket af_inet sock_stream ipproto_tcp)
          if slisten ==ℤ invalid_socket then pure (some (pos 0)) else listen_and_serve n slisten)
        else pure (some (pos 0))
