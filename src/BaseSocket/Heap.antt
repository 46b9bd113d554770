-- ===== src/BaseSocket/Heap.antt =====
-- The objects of base_socket.h and the map of handlers, `ss_map_t`.
use socket_server.Prelude.{
  ℕ, suc, Bool, false, ◌||◌, not, Option, none, some, List, [], ◌∷◌, ◌==ℤ◌, ltb_ℤ, ◌==◌,
  if◌then◌else◌, ℤ, M, ok,
}
use socket_server.Cache.{Stdio}
use socket_server.Cp.{Net}
use socket_server.Virus.{Session}

pub data Class : Type 0 where
  base_socket socket_handler virus_handler tcp_server : Class

-- The members of BaseSocket, and those of VirusHandler.
pub record Handler : Type 0 where
  pub class : Class
  pub sock : ℤ
  pub addr : List ℕ × ℕ
  pub connected : Bool
  pub connecting : Bool
  pub accepting : Bool
  pub session : Session
  -- Not destroyed yet.
  pub live : Bool

pub record Process (W : Type 0) : Type 0 where
  pub objects : ℕ → Handler
  -- The first address that is free.
  pub next : ℕ
  -- Sorted by socket, as std::map is.
  pub handlers : List (ℤ × ℕ)
  pub world : W
  -- Whether a destroyed object has been used.
  pub stale : Bool

abbrev pub update : (ℕ → Handler) → ℕ → Handler → ℕ → Handler
update f p h q = if p == q then h else f q

-- std::map::find
unfoldable pub find : ℤ → List (ℤ × ℕ) → Option ℕ
find sock [] = none
find sock ((s, o) ∷ rest) = if s ==ℤ sock then some o else find sock rest

unfoldable pub remove : ℤ → List (ℤ × ℕ) → List (ℤ × ℕ)
remove sock [] = []
remove sock ((s, o) ∷ rest) = if s ==ℤ sock then rest else (s, o) ∷ remove sock rest

-- std::map::insert: an entry that is there stays.
unfoldable pub put : ℤ → ℕ → List (ℤ × ℕ) → List (ℤ × ℕ)
put sock this [] = (sock, this) ∷ []
put sock this ((s, o) ∷ rest) =
    if s ==ℤ sock
    then (s, o) ∷ rest
    else if ltb_ℤ sock s
    then (sock, this) ∷ (s, o) ∷ rest
    else (s, o) ∷ put sock this rest

module _ {W : Type 0} where
  -- A member of `*this` is read.
  unfoldable pub load : ℕ → M (Process W) Handler
  load this p = let h = p.objects this in ok (h, record p { stale = p.stale || not h.live })

  -- Members of `*this` are written.
  unfoldable pub store : ℕ → (Handler → Handler) → M (Process W) (Unit {0})
  store this f p =
      let h = p.objects this in
      ok (tt, record p { objects = update p.objects this (f h); stale = p.stale || not h.live })

  -- std::map::erase: the entry's object, which nothing else owns, is destroyed.
  unfoldable pub erase : ℤ → Process W → Process W
  unfolding find remove
  erase sock p = elim (find sock p.handlers) [
    | none ↦ p
    | some o ↦ record p {
      handlers = remove sock p.handlers;
      objects = update p.objects o (record (p.objects o) { live = false });
    }
  ]

  unfoldable pub insert : ℤ → ℕ → Process W → Process W
  unfolding put
  insert sock this p = record p { handlers = put sock this p.handlers }

  -- A new object.
  unfoldable pub allocate : Handler → M (Process W) ℕ
  allocate h p = ok (p.next, record p { objects = update p.objects p.next h; next = suc p.next })

  -- A system call on the world inside of a process.
  abbrev inside : {A : Type 0} → (W → A × W) → Process W → A × Process W
  inside f p = ((f p.world).0, record p { world = (f p.world).1 })

  abbrev inside' : (W → W) → Process W → Process W
  inside' f p = record p { world = f p.world }

  abbrev pub lift_net : Net W → Net (Process W)
  lift_net n = record {
    errno = λ p. n.errno p.world;
    socket = λ a t c. inside (n.socket a t c);
    bind = λ s a. inside (n.bind s a);
    listen = λ s k. inside (n.listen s k);
    connect = λ s a. inside (n.connect s a);
    accept = λ s. inside (n.accept s);
    send = λ s b f. inside (n.send s b f);
    recv = λ s k f. inside (n.recv s k f);
    get_flags = λ s. inside (n.get_flags s);
    set_flags = λ s m. inside (n.set_flags s m);
    close = λ s. inside' (n.close s);
    getpeername = λ s. inside (n.getpeername s);
    getsockopt = λ s. inside (n.getsockopt s);
    inet_pton = λ h. inside (n.inet_pton h);
    inet_ntop = λ a k. inside (n.inet_ntop a k);
    select = λ r w e t. inside (n.select r w e t);
    usleep = λ t. inside' (n.usleep t);
  }

  abbrev pub lift_stdio : Stdio W → Stdio (Process W)
  lift_stdio h = record {
    calloc = inside h.calloc;
    malloc = λ n. inside (h.malloc n);
    gettimeofday = inside h.gettimeofday;
    fopen = λ path. inside (h.fopen path);
    fseek = λ f at. inside' (h.fseek f at);
    fwrite = λ f bytes. inside (h.fwrite f bytes);
    fread = λ f n. inside (h.fread f n);
    fclose = λ f. inside' (h.fclose f);
    unlink = λ path. inside' (h.unlink path);
  }
