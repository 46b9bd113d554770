-- ===== src/ServiceScenarios.antt =====
-- The theorems on events, on pieces and on `main` at concrete inputs: a server whose world is what it
-- has sent and whose clients send a kilobyte each time.
use socket_server.Prelude.{
  ℕ, ◌≡◌, refl, true, false, none, some, List, [], ◌∷◌, ◌++◌, length, replicate, length-replicate,
  arith, ℤ, pos, minus_one, Returns, IfOk, ◌>>=◌,
}
use socket_server.Cache.{Stdio}
use socket_server.Cache.Frame.{HostKeeps}
use socket_server.Cache.Storage.{IsReliable}
use socket_server.Cp.{Net, other_error}
use socket_server.Wire.{bytes_of_header}
use socket_server.Hv.{Hv}
use socket_server.Hv.Head.{encode, wire}
use socket_server.Hv.Store.{IsReady}
use socket_server.Hv.Message.{IsStart}
use socket_server.Virus.{Session}
use socket_server.Virus.Read.{Message, IsLarge, AllServed, stream}
use socket_server.Virus.Pieces.{feed, feed-Served}
use socket_server.BaseSocket.{Handler, Process, virus_handler}
use socket_server.BaseSocket.Owned.{IsOwned}
use socket_server.Setup.{new_tcp_server}
use socket_server.Events.{handle_read_event, handle_write_event}
use socket_server.Events.Leave.{IsServing}
use socket_server.Events.Serve.{Arrives, HasServed, handle_read_event-HasServed}
use socket_server.Events.Deliver.{TakesAll, HasSent, handle_write_event-HasSent}
use socket_server.Select.{rounds, main}
use socket_server.Select.Frame.{main-IsOwned}

abbrev pub kilobyte : Message
kilobyte = record { header = record { id = 5; length = 1024 }; value = replicate 1024 7 }

pub kilobyte-IsLarge : IsLarge kilobyte
kilobyte-IsLarge = record { words = omega arith; announced = refl; large = omega arith }

-- Every send takes all, and every receive gives a request.
abbrev clients : Net (List ℕ)
clients = record {
  errno = λ w. other_error;
  socket = λ af type protocol w. (pos 3, w);
  bind = λ sock addr w. (pos 0, w);
  listen = λ sock n w. (pos 0, w);
  connect = λ sock addr w. (pos 0, w);
  accept = λ sock w. ((pos 4, record { family = 2; port = 9; host = 7 }), w);
  send = λ sock bytes flags w. (pos (length bytes), w ++ bytes);
  recv = λ sock n flags w. ((pos 1032, stream (kilobyte ∷ [])), w);
  get_flags = λ sock w. (record { nonblock = false; fixed = 2; rest = 0 }, w);
  set_flags = λ sock mode w. (pos 0, w);
  close = λ sock w. w;
  getpeername = λ sock w. ((minus_one, record { family = 2; port = 0; host = 0 }), w);
  getsockopt = λ sock w. (pos 0, w);
  inet_pton = λ host w. ((pos 1, 2130706433), w);
  inet_ntop = λ addr n w. (some [], w);
  select = λ r w e timeout world. ((pos 0, [], [], []), world);
  usleep = λ n w. w;
}

abbrev library : Stdio (List ℕ)
library = record {
  calloc = λ w. (true, w);
  malloc = λ n w. (some (replicate n 0), w);
  gettimeofday = λ w. ((7, 9), w);
  fopen = λ path w. (some 3, w);
  fseek = λ f at w. w;
  fwrite = λ f bytes w. (length bytes, w);
  fread = λ f n w. ([], w);
  fclose = λ f w. w;
  unlink = λ path w. w;
}

library-IsReliable : IsReliable library
library-IsReliable = record {
  calloc_ok = λ w. refl;
  malloc_ok = λ n w. length-replicate n 0;
  fopen_ok = λ path w. refl;
  fwrite_all = λ f bytes w. refl;
}

library-HostKeeps : (P : List ℕ → Type 0) → HostKeeps library P
library-HostKeeps P = record {
  calloc = λ w h. h;
  malloc = λ n w h. h;
  gettimeofday = λ w h. h;
  fopen = λ path w h. h;
  fseek = λ f at w h. h;
  fwrite = λ f bytes w h. h;
  fread = λ f n w h. h;
  fclose = λ f w h. h;
  unlink = λ path w h. h;
}

-- What went out, on any socket.
abbrev outbox : ℤ → List ℕ → List ℕ
outbox sock w = w

clients-TakesAll : TakesAll clients library outbox
clients-TakesAll = record {
  count = λ sock bytes flags w. refl;
  appended = λ sock bytes flags w. refl;
  library_keeps = λ sock x. library-HostKeeps (λ w. w ≡ x);
}

abbrev pub idle : Session
idle = record {
  req = record {
    to = none;
    header = record { id = 0; length = 0 };
    value = none;
    hlen = 0;
    head_complete = false;
    vlen = 0;
    value_complete = false;
  };
  resp = [];
  state = none;
}

pub idle-IsStart : IsStart idle.req
idle-IsStart = record { no_head = refl; head_open = refl; value_open = refl; no_value = refl }

abbrev pub handler : Handler
handler = record {
  class = virus_handler;
  sock = pos 5;
  addr = ([], 0);
  connected = true;
  connecting = false;
  accepting = false;
  session = idle;
  live = true;
}

abbrev serving : Process (List ℕ)
serving = record {
  objects = λ o. handler;
  next = 1;
  handlers = (pos 5, 0) ∷ [];
  world = [];
  stale = false;
}

abbrev starting : Process (List ℕ)
starting = record serving { next = 0; handlers = [] }

serving-IsServing : IsServing serving 0
serving-IsServing = record { class = refl; connected = refl; accepting = refl }

serving-Arrives : Arrives clients serving 0 (stream (kilobyte ∷ []))
unfolding bytes_of_header
serving-Arrives = record {
  count = refl;
  bytes = refl;
  some_bytes = omega arith;
  at_most = omega arith;
}

handle_read_event-HasServed_example :
    Returns (handle_read_event clients library 1 idle 0 serving) (λ d q.
      HasServed handler 0 (kilobyte ∷ []) d q × (q.handlers ≡ (pos 5, 0) ∷ []) × (q.world ≡ []))
handle_read_event-HasServed_example =
    handle_read_event-HasServed clients library library-IsReliable (λ w. w ≡ [])
      (record { recv = λ sock n flags w h. h; library = library-HostKeeps (λ w. w ≡ []) }) 1 idle
      serving 0 kilobyte [] serving-IsServing serving-Arrives idle-IsStart (kilobyte-IsLarge, tt)
      (omega arith) refl

-- An answer of four bytes that waits.
abbrev four_zeros : Message
four_zeros = record { header = record { id = 5; length = 4 }; value = 0 ∷ 0 ∷ 0 ∷ 0 ∷ [] }

abbrev waiting : Hv
waiting = record idle.req {
  header = wire four_zeros.header;
  value = some (record {
    path = none;
    buf = some four_zeros.value;
    capacity = 4;
    widx = 4;
    ridx = 0;
    wfp = none;
    dir = b'.' ∷ [];
  });
}

waiting-IsReady : IsReady four_zeros.header four_zeros.value (waiting, pos 0)
waiting-IsReady = record {
  succeeds = refl;
  header_of = refl;
  value_of = record { valid = omega arith; in_memory = refl; stands_for = refl };
}

abbrev answering : Process (List ℕ)
answering = record serving {
  objects = λ o. record handler { session = record idle { resp = waiting ∷ [] } };
}

answering-IsServing : IsServing answering 0
answering-IsServing = record { class = refl; connected = refl; accepting = refl }

handle_write_event-HasSent_example :
    Returns
      (handle_write_event clients library 5 0 answering)
      (HasSent clients library outbox clients-TakesAll 0 (stream (four_zeros ∷ [])) answering)
handle_write_event-HasSent_example =
    handle_write_event-HasSent clients library outbox clients-TakesAll 5 0 (four_zeros ∷ [])
      answering answering-IsServing (waiting-IsReady, tt) (omega arith)

main-IsOwned_example :
    IfOk
      (λ o q. IsOwned q)
      ((new_tcp_server clients idle none 7890 >>= λ srv. rounds clients library 5 idle 2 60000)
        starting)
    × IfOk (λ o q. IsOwned q) (main clients library 5 idle 2 starting)
main-IsOwned_example = main-IsOwned clients library 5 idle 2 starting refl

feed-Served_example :
    Returns
      (feed library library-IsReliable 2 idle
        ((encode kilobyte.header ++ replicate 24 7) ∷ replicate 1000 7 ∷ [])
        [])
      (λ o _. AllServed idle (kilobyte ∷ []) o)
feed-Served_example =
    feed-Served library library-IsReliable 1 idle kilobyte (replicate 24 7) (replicate 1000 7 ∷ [])
      [] idle-IsStart kilobyte-IsLarge (omega arith) refl (omega arith, tt)
