-- ===== src/SampleScenarios.antt =====
-- The theorems on the sample server and on `cp_clear_recv_buffer` at concrete inputs: networks that hold
-- bytes for one socket.
use socket_server.Prelude.{
  ℕ, ◌≡◌, ◌⊎◌, ◌<◌, ◌≤◌, refl, false, some, none, List, [], ◌++◌, replicate, length, min, ◌-◌, ◌==◌,
  if◌then◌else◌, pos, minus_one, ok, ub, out_of_bounds, M, Returns, arith,
}
use socket_server.Cp.{Net, other_error, is_set}
use socket_server.Cp.Clear.{
  cp_clear_recv_buffer, IsQueue, cp_clear_recv_buffer-empty, cp_clear_recv_buffer-IsClosed,
}
use socket_server.SampleServer.{serve_next, rev_data_size, send_data}
use socket_server.SampleServer.Rounds.{IsGreeted, serve_next-sent}

-- One client, which has sent 255 bytes; the world is what it is given.
abbrev talker : Net (List ℕ)
talker = record {
  errno = λ w. other_error;
  socket = λ af type protocol w. (pos 3, w);
  bind = λ sock addr w. (pos 0, w);
  listen = λ sock n w. (pos 0, w);
  connect = λ sock addr w. (pos 0, w);
  accept = λ sock w. ((pos 4, record { family = 2; port = 9; host = 7 }), w);
  send = λ sock bytes flags w. (pos (length bytes), w ++ bytes);
  recv = λ sock n flags w. ((pos n, replicate n 65), w);
  get_flags = λ sock w. (record { nonblock = false; fixed = 2; rest = 0 }, w);
  set_flags = λ sock mode w. (pos 0, w);
  close = λ sock w. w;
  getpeername = λ sock w. ((minus_one, record { family = 2; port = 0; host = 0 }), w);
  getsockopt = λ sock w. (pos 0, w);
  inet_pton = λ host w. ((pos 1, 2130706433), w);
  inet_ntop = λ addr n w. (some [], w);
  select = λ r w e timeout world. ((pos 0, [], [], []), world);
  usleep = λ n w. w;
}

abbrev printer : List ℕ → M (List ℕ) (Unit {0})
printer bytes w = ok (tt, w)

abbrev started : List ℕ → ℕ × List ℕ
started w = (0, w)

talker-IsGreeted : IsGreeted talker printer (pos 4) (λ w. w)
talker-IsGreeted = record {
  send = λ bytes w. refl;
  recv = λ n w. refl;
  accept = λ sock w. refl;
  inet_ntop = λ addr n w. refl;
  close = λ w. refl;
  printf_keeps = λ bytes w. refl;
}

serve_next-sent_example :
    ((255 < rev_data_size)
      × Returns (serve_next talker started printer (pos 3) []) (λ u w. w ≡ [] ++ send_data))
    ⊎ ((rev_data_size ≤ 255) × (serve_next talker started printer (pos 3) [] ≡ ub out_of_bounds))
serve_next-sent_example =
    serve_next-sent talker started printer (pos 4) (λ w. w) talker-IsGreeted (pos 3) 255 [] refl
      refl refl

-- A world that is how many bytes wait on a socket.
abbrev waiting_bytes : Net ℕ
waiting_bytes = record {
  errno = λ w. other_error;
  socket = λ af type protocol w. (pos 3, w);
  bind = λ sock addr w. (pos 0, w);
  listen = λ sock n w. (pos 0, w);
  connect = λ sock addr w. (minus_one, w);
  accept = λ sock w. ((minus_one, record { family = 2; port = 0; host = 0 }), w);
  send = λ sock bytes flags w. (pos (length bytes), w);
  recv = λ sock n flags w. ((pos 0, []), w);
  get_flags = λ sock w. (record { nonblock = false; fixed = 2; rest = 0 }, w);
  set_flags = λ sock mode w. (pos 0, w);
  close = λ sock w. w;
  getpeername = λ sock w. ((minus_one, record { family = 2; port = 0; host = 0 }), w);
  getsockopt = λ sock w. (pos 0, w);
  inet_pton = λ host w. ((pos 1, 2130706433), w);
  inet_ntop = λ addr n w. (some [], w);
  select = λ r w e timeout world. ((pos 0, [], [], []), world);
  usleep = λ n w. w;
}

-- A network whose world is how many bytes wait on a socket.
abbrev queue : Net ℕ
queue = record waiting_bytes {
  recv = λ sock n flags w. ((pos (min n w), replicate (min n w) 0), w - min n w);
  select = λ r w e timeout world.
      ((if world == 0 then pos 0 else pos 1, if world == 0 then [] else r, [], []), world);
}

queue-IsQueue : IsQueue queue (pos 5) (λ w. w)
unfolding is_set
queue-IsQueue = record {
  empty = λ w e. ground arith;
  ready = λ w h. ground arith;
  member = λ w h. ground arith;
  looks = λ w. refl;
  takes = λ w. refl;
}

cp_clear_recv_buffer-empty_example :
    Returns (cp_clear_recv_buffer queue 251 (pos 5) 250) (λ o w. (o ≡ some tt) × (w ≡ 0))
cp_clear_recv_buffer-empty_example =
    cp_clear_recv_buffer-empty queue (pos 5) (λ w. w) queue-IsQueue 251 250 (omega arith)

-- One whose peer has closed.
abbrev ended : Net ℕ
ended = record waiting_bytes { select = λ r w e timeout world. ((pos 1, r, [], []), world) }

cp_clear_recv_buffer-IsClosed_example :
    Returns (cp_clear_recv_buffer ended 4 (pos 5) 0) (λ o w. o ≡ none)
cp_clear_recv_buffer-IsClosed_example =
    cp_clear_recv_buffer-IsClosed ended (pos 5) (record { ready = λ w. refl }) 4 0
