-- ===== src/FeedScenarios.antt =====
-- The theorem on a request in pieces at a concrete input: a kilobyte that comes in with its header and 24
-- bytes first, and 1000 bytes then.
use socket_server.Prelude.{
  ℕ, Bool, true, false, ap, ◌≡◌, refl, some, List, [], ◌∷◌, ◌++◌, true, false, sym, length,
  replicate, length-replicate, arith, ℤ, pos, Returns, map,
}
use socket_server.Cache.{Stdio}
use socket_server.Cache.Frame.{HostKeeps}
use socket_server.Cache.Storage.{IsReliable}
use socket_server.Cp.{Net, Addr, cp_socket_valid, other_error}
use socket_server.Wire.{bytes_of_header}
use socket_server.Hv.Head.{encode}
use socket_server.Virus.Read.{stream}
use socket_server.BaseSocket.{Process, find}
use socket_server.BaseSocket.Map.{IsMap}
use socket_server.BaseSocket.Owned.{IsOwned}
use socket_server.Setup.Join.{IsPeer}
use socket_server.Setup.World.{JoinKeeps}
use socket_server.Events.Leave.{IsServing}
use socket_server.Events.Deliver.{TakesAll}
use socket_server.Events.Exchange.{ok_reply}
use socket_server.Select.{rounds}
use socket_server.Select.Exchange.{IsDuplex}
use socket_server.Select.Piece.{IsFeed}
use socket_server.Select.Feed.{rounds-HasFed}
use socket_server.ServiceScenarios.{kilobyte, kilobyte-IsLarge, idle, idle-IsStart, handler}

-- Whether a client waits to be accepted, the pieces left, the one that is received, and what was sent.
abbrev pub Pipe : Type 0
Pipe = Bool × List (List ℕ) × List ℕ × List ℕ

abbrev pub report : Pipe → ℤ × List ℤ × List ℤ × List ℤ
report (true, bufs, now, out) = (pos 1, pos 3 ∷ [], [], [])
report (false, [], now, out) = (pos 1, [], pos 5 ∷ [], [])
report (false, buf ∷ bufs, now, out) = (pos 1, pos 5 ∷ [], [], [])

abbrev pub next_piece : Pipe → Pipe
next_piece (true, bufs, now, out) = (false, bufs, now, out)
next_piece (false, [], now, out) = (false, [], now, out)
next_piece (false, buf ∷ bufs, now, out) = (false, bufs, buf, out)

abbrev pub visitor : Addr
visitor = record { family = 2; port = 9; host = 7 }

abbrev pub wired : Net Pipe
wired = record {
  errno = λ w. other_error;
  socket = λ af type protocol w. (pos 3, w);
  bind = λ sock addr w. (pos 0, w);
  listen = λ sock n w. (pos 0, w);
  connect = λ sock addr w. (pos 0, w);
  accept = λ sock w. ((pos 5, visitor), w);
  send = λ sock bytes flags w. (pos (length bytes), (w.0, w.1, w.2, w.3 ++ bytes));
  recv = λ sock n flags w. ((pos (length w.2), w.2), w);
  get_flags = λ sock w. (record { nonblock = false; fixed = 2; rest = 0 }, w);
  set_flags = λ sock mode w. (pos 0, w);
  close = λ sock w. w;
  getpeername = λ sock w. ((pos 0, visitor), w);
  getsockopt = λ sock w. (pos 0, w);
  inet_pton = λ host w. ((pos 1, 7), w);
  inet_ntop = λ addr n w. (some (b'7' ∷ []), w);
  select = λ r w e timeout v. (report v, next_piece v);
  usleep = λ n w. w;
}

abbrev pub shelf : Stdio Pipe
shelf = record {
  calloc = λ w. (true, w);
  malloc = λ n w. (some (replicate n 0), w);
  gettimeofday = λ w. ((7, 9), w);
  fopen = λ path w. (some 3, w);
  fseek = λ f at w. w;
  fwrite = λ f bytes w. (length bytes, w);
  fread = λ f n w. ([], w);
  fclose = λ f w. w;
  unlink = λ path w. w;
}

pub shelf-IsReliable : IsReliable shelf
shelf-IsReliable = record {
  calloc_ok = λ w. refl;
  malloc_ok = λ n w. length-replicate n 0;
  fopen_ok = λ path w. refl;
  fwrite_all = λ f bytes w. refl;
}

shelf-HostKeeps : (P : Pipe → Type 0) → HostKeeps shelf P
shelf-HostKeeps P = record {
  calloc = λ w h. h;
  malloc = λ n w h. h;
  gettimeofday = λ w h. h;
  fopen = λ path w h. h;
  fseek = λ f at w h. h;
  fwrite = λ f bytes w h. h;
  fread = λ f n w h. h;
  fclose = λ f w h. h;
  unlink = λ path w h. h;
}

abbrev pub sent_on : ℤ → Pipe → List ℕ
sent_on sock w = w.3

abbrev pub IsLeft : List (List ℕ) → Pipe → Type 0
IsLeft bufs w = (w.0 ≡ false) × (w.1 ≡ bufs)

pub wired-TakesAll : TakesAll wired shelf sent_on
wired-TakesAll = record {
  count = λ sock bytes flags w. refl;
  appended = λ sock bytes flags w. refl;
  library_keeps = λ sock x. shelf-HostKeeps (λ w. w.3 ≡ x);
}

next_piece-same : (w : Pipe) → (next_piece w).3 ≡ w.3
next_piece-same (true, bufs, now, out) = refl
next_piece-same (false, [], now, out) = refl
next_piece-same (false, buf ∷ bufs, now, out) = refl

report-done : (w : Pipe) → IsLeft [] w → report w ≡ (pos 1, [], pos 5 ∷ [], [])
report-done (waits, bufs, now, out) h = rw (h.0, h.1) refl

next_piece-IsLeft :
    (buf : List ℕ) (bufs : List (List ℕ)) (w : Pipe)
    → IsLeft (buf ∷ bufs) w
    → (report w ≡ (pos 1, pos 5 ∷ [], [], []))
      × IsLeft bufs (next_piece w)
      × ((next_piece w).2 ≡ buf)
next_piece-IsLeft buf bufs (waits, l, now, out) h = rw (h.0, h.1) (refl, (refl, refl), refl)

pub wired-IsDuplex : IsDuplex wired shelf (pos 5) sent_on (IsLeft [])
wired-IsDuplex = record {
  reports = λ r w e timeout v h. report-done v h;
  select_sends = λ r w e timeout v. next_piece-same v;
  recv_sends = λ s' s n flags v. refl;
  recv_keeps = λ s n flags v h. h;
  library_keeps = shelf-HostKeeps (IsLeft []);
}

pub wired-IsFeed : IsFeed wired shelf (pos 5) IsLeft
wired-IsFeed = record {
  reports = λ buf bufs r w e timeout v h. (next_piece-IsLeft buf bufs v h).0;
  arrives = λ buf bufs r w e timeout v h.
      ap (λ (l : List ℕ). (pos (length l), l)) (next_piece-IsLeft buf bufs v h).2;
  goes_on = λ buf bufs r w e timeout v h. (next_piece-IsLeft buf bufs v h).1;
  recv_keeps = λ bufs s n flags v h. h;
  library_keeps = λ bufs. shelf-HostKeeps (IsLeft bufs);
}

pub visitor-IsPeer : IsPeer wired (pos 5) visitor (b'7' ∷ [])
unfolding cp_socket_valid
visitor-IsPeer = record { valid = refl; peer = λ w. refl; text = λ w. refl }

pub wired-JoinKeeps : (P : Pipe → Type 0) → JoinKeeps wired P
wired-JoinKeeps P = record {
  accept = λ s w h. h;
  getpeername = λ s w h. h;
  inet_ntop = λ addr n w h. h;
  get_flags = λ s w h. h;
  set_flags = λ s mode w h. h;
}

abbrev fed : Process Pipe
fed = record {
  objects = λ o. handler;
  next = 1;
  handlers = (pos 5, 0) ∷ [];
  world = (false, (encode kilobyte.header ++ replicate 24 7) ∷ replicate 1000 7 ∷ [], [], []);
  stale = false;
}

in_fed : (s : ℤ) (o : ℕ) → find s ((pos 5, 0) ∷ []) ≡ some o → (s ≡ pos 5) × (o ≡ 0)
unfolding find
in_fed s o h = ground arith

fed-IsOwned : IsOwned fed
unfolding find IsMap
fed-IsOwned = record {
  one_entry = (refl, tt);
  alive = λ s o h. refl;
  same_sock = λ s o h. sym ((in_fed s o h).0);
  allocated = λ s o h. omega (arith, (in_fed s o h).1);
}

fed-IsServing : IsServing fed 0
fed-IsServing = record { class = refl; connected = refl; accepting = refl }

rounds-HasFed_example : Returns (rounds wired shelf 5 idle 3 60000 fed) (λ d q.
    (d ≡ some tt)
    × (q.world.3 ≡ [] ++ stream (map ok_reply (kilobyte ∷ [])))
    × ((q.objects 0).session.resp ≡ []))
unfolding find bytes_of_header
rounds-HasFed_example =
    rounds-HasFed wired shelf shelf-IsReliable sent_on wired-TakesAll 4 IsLeft wired-IsFeed
      wired-IsDuplex 4 (omega arith) idle 60000 kilobyte (omega arith) fed 0 fed-IsServing refl refl
      refl [] (replicate 24 7) (replicate 1000 7 ∷ []) fed-IsOwned idle-IsStart kilobyte-IsLarge
      refl (omega arith, tt) (omega arith, (omega arith, tt)) (refl, refl) refl
