-- ===== src/SocketScenarios.antt =====
-- The theorems on sockets and handlers at concrete inputs: a network whose world is what was sent, and
-- one whose world is the flags of a socket.
use socket_server.Prelude.{
  ℕ, ◌≡◌, ◌⊎◌, refl, true, false, none, some, List, [], ◌∷◌, ◌++◌, length, minus_one, arith, pos,
  Returns, take_all, ap, sym,
}
use socket_server.Cp.{
  is_set, Net, Addr, Flags, other_error, cp_socket_valid, cp_send_all, cp_setblocking,
}
use socket_server.Cp.SendAll.{IsPipe, Delivered, cp_send_all-Delivered}
use socket_server.Cp.Blocking.{KeepsFlags, cp_setblocking-flags}
use socket_server.BaseSocket.{Handler, Process, virus_handler, readable, close, find, remove}
use socket_server.BaseSocket.Close.{IsRegistered, close-IsRegistered}
use socket_server.BaseSocket.Map.{IsMap}
use socket_server.BaseSocket.Leave.{IsLeaving, HasLeft}
use socket_server.Select.{watch_all, dispatch, same_sock, next_sock}
use socket_server.Select.Leave.{dispatch-HasLeft}
use socket_server.Cache.{Stdio}
use socket_server.Select.Watch.{Exactly, for_write, for_expt, watch_all-Exactly}

-- Every send takes all; nothing else succeeds but what needs no peer.
abbrev outgoing : Net (List ℕ)
outgoing = record {
  errno = λ w. other_error;
  socket = λ af type protocol w. (pos 3, w);
  bind = λ sock addr w. (pos 0, w);
  listen = λ sock n w. (pos 0, w);
  connect = λ sock addr w. (pos 0, w);
  accept = λ sock w. ((minus_one, record { family = 2; port = 0; host = 0 }), w);
  send = λ sock bytes flags w. (pos (length bytes), w ++ bytes);
  recv = λ sock n flags w. ((pos 0, []), w);
  get_flags = λ sock w. (record { nonblock = false; fixed = 2; rest = 0 }, w);
  set_flags = λ sock mode w. (pos 0, w);
  close = λ sock w. w;
  getpeername = λ sock w. ((minus_one, record { family = 2; port = 0; host = 0 }), w);
  getsockopt = λ sock w. (pos 0, w);
  inet_pton = λ host w. ((pos 1, 2130706433), w);
  inet_ntop = λ addr n w. (some [], w);
  select = λ r w e timeout world. ((pos 0, [], [], []), world);
  usleep = λ n w. w;
}

abbrev sent : List ℕ → List ℕ
sent w = w

outgoing-IsPipe : IsPipe outgoing (pos 5) sent
outgoing-IsPipe = record {
  takes = λ bytes flags w.
      (omega arith, ap (λ b. w ++ b) (sym (take_all (length bytes) bytes (omega arith))));
}

cp_send_all-Delivered_example :
    Returns
      (cp_send_all outgoing 3 (pos 5) (7 ∷ 8 ∷ 9 ∷ []) 0 [])
      (λ o w'. Delivered sent 3 (7 ∷ 8 ∷ 9 ∷ []) [] o w')
cp_send_all-Delivered_example =
    cp_send_all-Delivered outgoing (pos 5) sent outgoing-IsPipe 3 7 (8 ∷ 9 ∷ []) 0 [] (omega arith)

abbrev local : ℕ → ℕ → Addr
local port host = record { family = 2; port = port; host = host }

-- A network that keeps the flags of one socket.
abbrev one_socket : Net Flags
one_socket = record {
  errno = λ w. other_error;
  socket = λ af type protocol w. (pos 3, w);
  bind = λ sock addr w. (pos 0, w);
  listen = λ sock n w. (pos 0, w);
  connect = λ sock addr w. (pos 0, w);
  accept = λ sock w. ((minus_one, local 0 0), w);
  send = λ sock bytes flags w. (pos 0, w);
  recv = λ sock n flags w. ((pos 0, []), w);
  get_flags = λ sock w. (w, w);
  set_flags = λ sock mode w. (pos 0, record mode { fixed = w.fixed });
  close = λ sock w. w;
  getpeername = λ sock w. ((minus_one, local 0 0), w);
  getsockopt = λ sock w. (pos 0, w);
  inet_pton = λ host w. ((pos 1, 0), w);
  inet_ntop = λ addr n w. (some [], w);
  select = λ r w e timeout world. ((pos 0, [], [], []), world);
  usleep = λ n w. w;
}

abbrev flags : Flags → Flags
flags w = w

one_socket-KeepsFlags : KeepsFlags one_socket (pos 5) flags
one_socket-KeepsFlags = record {
  get_reads = λ w. refl;
  get_keeps = λ w. refl;
  set_stores = λ mode w. refl;
}

-- A socket that is not blocking, read and written, with O_APPEND.
abbrev nonblocking : Flags
nonblocking = record { nonblock = true; fixed = 2; rest = 1024 }

cp_setblocking-flags_example :
    Returns
      (cp_setblocking one_socket (pos 5) false nonblocking)
      (λ _ w'. (w'.nonblock ≡ true) × (◌≡◌ {A = ℕ} w'.fixed 2) × (◌≡◌ {A = ℕ} w'.rest 1024))
    × Returns
        (cp_setblocking one_socket (pos 5) true nonblocking)
        (λ _ w'. (w'.nonblock ≡ true) × (◌≡◌ {A = ℕ} w'.fixed 2) × (◌≡◌ {A = ℕ} w'.rest 0))
cp_setblocking-flags_example =
    cp_setblocking-flags one_socket (pos 5) flags one_socket-KeepsFlags nonblocking

abbrev handler : Handler
handler = record {
  class = virus_handler;
  sock = pos 5;
  addr = ([], 0);
  connected = true;
  connecting = false;
  accepting = false;
  session = record {
    req = record {
      to = none;
      header = record { id = 0; length = 0 };
      value = none;
      hlen = 0;
      head_complete = false;
      vlen = 0;
      value_complete = false;
    };
    resp = [];
    state = none;
  };
  live = true;
}

abbrev objects : ℕ → Handler
objects o = handler

abbrev one_handler : Process (List ℕ)
one_handler = record {
  objects = objects;
  next = 1;
  handlers = (pos 5, 0) ∷ [];
  world = [];
  stale = false;
}

one_handler-IsRegistered : IsRegistered one_handler 0
unfolding find
one_handler-IsRegistered = record { alive = refl; held = refl }

close-IsRegistered_example : Returns (close outgoing 0 one_handler) (λ _ q.
    (q.handlers ≡ remove (pos 5) ((pos 5, 0) ∷ []))
    × ((q.objects 0).live ≡ false)
    × (q.stale ≡ true)
    × (q.world ≡ []))
close-IsRegistered_example = close-IsRegistered outgoing one_handler 0 one_handler-IsRegistered

-- A host with memory and a disk, which a client that leaves does not use.
abbrev host_of_files : Stdio (List ℕ)
host_of_files = record {
  calloc = λ w. (true, w);
  malloc = λ n w. (none, w);
  gettimeofday = λ w. ((7, 9), w);
  fopen = λ path w. (some 3, w);
  fseek = λ f at w. w;
  fwrite = λ f bytes w. (length bytes, w);
  fread = λ f n w. ([], w);
  fclose = λ f w. w;
  unlink = λ path w. w;
}

one_handler-IsLeaving : IsLeaving outgoing 65535 one_handler 0
one_handler-IsLeaving = record { registered = one_handler-IsRegistered; ended = refl }

dispatch-HasLeft_example :
    Returns
      (dispatch outgoing host_of_files 3 handler.session
        (pos 5 ∷ [])
        (pos 5 ∷ [])
        (pos 5 ∷ [])
        (pos 5)
        2
        one_handler)
      (λ t q. ((t ≡ same_sock 1) ⊎ (t ≡ next_sock 1)) × HasLeft outgoing 65535 one_handler 0 q)
unfolding is_set readable IsMap find cp_socket_valid
dispatch-HasLeft_example =
    dispatch-HasLeft outgoing host_of_files 3 handler.session (pos 5 ∷ []) (pos 5 ∷ []) (pos 5 ∷ [])
      1 one_handler 0 (refl, tt) refl refl
      (record { class = refl; connected = refl; accepting = refl }) one_handler-IsLeaving

watch_all-Exactly_example :
    Exactly readable objects ((pos 5, 0) ∷ []) (watch_all objects ((pos 5, 0) ∷ [])).r
    × Exactly for_write objects ((pos 5, 0) ∷ []) (watch_all objects ((pos 5, 0) ∷ [])).w
    × Exactly for_expt objects ((pos 5, 0) ∷ []) (watch_all objects ((pos 5, 0) ∷ [])).e
    × Exactly for_expt objects ((pos 5, 0) ∷ []) (watch_all objects ((pos 5, 0) ∷ [])).select_socks
watch_all-Exactly_example = watch_all-Exactly objects ((pos 5, 0) ∷ [])
