-- ===== src/Events/Serve.antt =====
-- A VirusHandler between its socket and its messages: what `handle_read_event` and `handle_write_event`
-- of base_socket.cpp make of whole requests, with the loops of virus_handler.cpp.
use socket_server.Prelude.{
  ℕ, ◌≤◌, ◌<◌, ◌≡◌, refl, sym, false, some, none, Option, List, ◌∷◌, length, ◌==ℤ◌, ◌||◌, ℤ, pos,
  arith, Returns, ap, Returns->>=, Returns-map, subst, Returns-IfOk, Result,
}
use socket_server.Cache.{Stdio}
use socket_server.Cache.Frame.{HostKeeps}
use socket_server.Virus.Frame.{read_loop-Keeps}
use socket_server.Cache.Storage.{IsReliable}
use socket_server.Cp.{Net, socket_error, cp_recv}
use socket_server.Hv.Message.{IsStart}
use socket_server.Virus.{Session, read_loop}
use socket_server.Virus.Read.{Message, AllLarge, AllServed, stream, read_loop-Served}
use socket_server.BaseSocket.{Handler, Process, lift_stdio, load, store, recv}
use socket_server.BaseSocket.Leave.{after_load}
use socket_server.Events.{keep_session, read_requests, handle_read, handle_read_event}
use socket_server.Events.Leave.{IsServing}

pub lift_stdio-IsReliable :
    {W : Type 0} (stdio : Stdio W) → IsReliable stdio → IsReliable (lift_stdio stdio)
lift_stdio-IsReliable stdio rel = record {
  calloc_ok = λ p. rel.calloc_ok p.world;
  malloc_ok = λ n p. rel.malloc_ok n p.world;
  fopen_ok = λ path p. rel.fopen_ok path p.world;
  fwrite_all = λ f bytes p. rel.fwrite_all f bytes p.world;
}

-- `recv` gives `buf`, which is not empty, to the handler.
pub record Arrives {W : Type 0} (net : Net W) (p : Process W) (this : ℕ) (buf : List ℕ)
    : Type 0 where
  pub count : (net.recv (p.objects this).sock 65535 0 p.world).0.0 ≡ pos (length buf)
  pub bytes : (net.recv (p.objects this).sock 65535 0 p.world).0.1 ≡ buf
  pub some_bytes : 0 < length buf
  pub at_most : length buf ≤ 65535

not_failed : (n : ℕ) → 0 < n → ((pos n ==ℤ pos 0) || (pos n ==ℤ socket_error)) ≡ false
not_failed n h = ground arith

-- The handler has a new session, of which `Post` holds, and is the same else.
abbrev pub HasBecome :
    {W : Type 0} → Handler → ℕ → (Session → Type 0) → Option (Unit {0}) → Process W → Type 0
HasBecome h this Post d q =
    (d ≡ some tt) × ((t : Session) × Post t × (q.objects this ≡ record h { session = t }))

-- The same, with an answer more for each of the requests.
abbrev pub HasServed :
    {W : Type 0} → Handler → ℕ → List Message → Option (Unit {0}) → Process W → Type 0
HasServed h this ms d q = HasBecome h this (λ t. AllServed h.session ms (some t)) d q

-- The loop ended with a session of which `Post` holds.
abbrev pub OfSome : (Session → Type 0) → Option Session → Type 0
OfSome Post none = ⊥
OfSome Post (some t) = Post t

-- `R` holds of the world, whatever is received and whatever the C library does.
pub record ReadKeeps {W : Type 0} (net : Net W) (stdio : Stdio W) (R : W → Type 0) : Type 0 where
  pub recv : (sock : ℤ) (n flags : ℕ) (w : W) → R w → R (net.recv sock n flags w).1
  pub library : HostKeeps stdio R

module _ {W : Type 0} (net : Net W) (stdio : Stdio W) (rel : IsReliable stdio) (R : W → Type 0)
    (k : ReadKeeps net stdio R) (fuel : ℕ) where
  recv-Arrives :
      (p : Process W) (this : ℕ) (buf : List ℕ)
      → Arrives net p this buf
      → R p.world
      → Returns (recv net this 65535 p) (λ r q.
        (r ≡ (pos (length buf), buf))
        × (q.objects ≡ p.objects)
        × (q.handlers ≡ p.handlers)
        × R q.world)
  unfolding recv load cp_recv
  recv-Arrives p this buf a h =
      let c = a.count in
      let b = a.bytes in
      let s = a.some_bytes in
      let kept : R (net.recv (p.objects this).sock 65535 0 p.world).1 =
        k.recv (p.objects this).sock 65535 0 p.world h in
      ground arith

  -- The objects and the map are the given ones, and `R` holds of the world.
  Untouched : (ℕ → Handler) → List (ℤ × ℕ) → Process W → Type 0
  Untouched o hs q = (q.objects ≡ o) × (q.handlers ≡ hs) × R q.world

  lift_stdio-Untouched :
      (o : ℕ → Handler) (hs : List (ℤ × ℕ)) → HostKeeps (lift_stdio stdio) (Untouched o hs)
  unfolding Untouched
  lift_stdio-Untouched o hs = record {
    calloc = λ p h. (h.0, h.1, k.library.calloc p.world h.2);
    malloc = λ n p h. (h.0, h.1, k.library.malloc n p.world h.2);
    gettimeofday = λ p h. (h.0, h.1, k.library.gettimeofday p.world h.2);
    fopen = λ path p h. (h.0, h.1, k.library.fopen path p.world h.2);
    fseek = λ f at p h. (h.0, h.1, k.library.fseek f at p.world h.2);
    fwrite = λ f bytes p h. (h.0, h.1, k.library.fwrite f bytes p.world h.2);
    fread = λ f n p h. (h.0, h.1, k.library.fread f n p.world h.2);
    fclose = λ f p h. (h.0, h.1, k.library.fclose f p.world h.2);
    unlink = λ path p h. (h.0, h.1, k.library.unlink path p.world h.2);
  }

  module _ (Post : Session → Type 0) where
    keep_session-HasBecome :
        (o : ℕ → Handler) (hs : List (ℤ × ℕ)) (this : ℕ) (s : Option Session) (q : Process W)
        → OfSome Post s
        → Untouched o hs q
        → Returns
            (keep_session net stdio fuel this s q)
            (λ d q'. HasBecome (o this) this Post d q' × (q'.handlers ≡ hs) × R q'.world)
    unfolding keep_session store Untouched
    keep_session-HasBecome o hs this none q h u = absurd h
    keep_session-HasBecome o hs this (some t) q h u =
        ((refl, (t, h, ground (arith, ap (λ (f : ℕ → Handler). f this) u.0))), u.1, u.2)

    -- The loop, from a state that has the objects `o`.
    loop-Become :
        (o : ℕ → Handler) (hs : List (ℤ × ℕ)) (this : ℕ) (buf : List ℕ) (q : Process W)
        → ((w : Process W)
            → Returns
                (read_loop (lift_stdio stdio) fuel (o this).session buf w)
                (λ s _. OfSome Post s))
        → q.objects ≡ o
        → q.handlers ≡ hs
        → R q.world
        → Returns
            (read_loop (lift_stdio stdio) fuel (q.objects this).session buf q)
            (λ s q'. OfSome Post s × Untouched o hs q')
    unfolding Untouched
    loop-Become o hs this buf q does e g h =
        subst
          (λ (s : Session).
            Returns (read_loop (lift_stdio stdio) fuel s buf q)
              (λ s q'. OfSome Post s × Untouched o hs q'))
          (sym (ap (λ (f : ℕ → Handler). (f this).session) e))
          (Returns-IfOk (λ s q'. OfSome Post s) (λ s q'. Untouched o hs q') _ (does q)
            ((read_loop-Keeps (lift_stdio stdio) (lift_stdio-Untouched o hs) fuel (o this).session
                buf).at
              q (e, g, h)))

    read_requests-HasBecome :
        (p : Process W) (this : ℕ) (buf : List ℕ)
        → ((w : Process W)
            → Returns
                (read_loop (lift_stdio stdio) fuel (p.objects this).session buf w)
                (λ s _. OfSome Post s))
        → Arrives net p this buf
        → R p.world
        → Returns (read_requests net stdio fuel this p) (λ d q.
          HasBecome (p.objects this) this Post d q × (q.handlers ≡ p.handlers) × R q.world)
    unfolding read_requests load
    read_requests-HasBecome p this buf does a h =
        Returns->>= (recv net this 65535) _
          (λ r q.
            (r ≡ (pos (length buf), buf))
            × (q.objects ≡ p.objects)
            × (q.handlers ≡ p.handlers)
            × R q.world)
          _ p (recv-Arrives p this buf a h)
          (λ r q (e, o, g, h').
            rw (e, not_failed (length buf) a.some_bytes)
              (Returns->>= (read_loop (lift_stdio stdio) fuel (q.objects this).session buf) _
                (λ s q'. OfSome Post s × Untouched p.objects p.handlers q') _ (after_load q this)
                (loop-Become p.objects p.handlers this buf (after_load q this) does o g h')
                (λ s q' (post, u). keep_session-HasBecome p.objects p.handlers this s q' post u)))

  read_event_reads :
      (session : Session) (p : Process W) (this : ℕ)
      → IsServing p this
      → handle_read_event net stdio fuel session this p
        ≡ read_requests net stdio fuel this (after_load (after_load p this) this)
  unfolding handle_read_event handle_read load
  read_event_reads session p this v = rw (v.accepting, v.connected, v.class) refl

  -- What holds of the session after the loop, on whatever host, holds after the read event.
  pub handle_read_event-HasBecome :
      (Post : Session → Type 0) (session : Session) (p : Process W) (this : ℕ) (buf : List ℕ)
      → IsServing p this
      → Arrives net p this buf
      → ((w : Process W)
          → Returns
              (read_loop (lift_stdio stdio) fuel (p.objects this).session buf w)
              (λ s _. OfSome Post s))
      → R p.world
      → Returns
          (handle_read_event net stdio fuel session this p)
          (λ d q. HasBecome (p.objects this) this Post d q × (q.handlers ≡ p.handlers) × R q.world)
  handle_read_event-HasBecome Post session p this buf v a does h =
      subst
        (λ (r : Result (Option (Unit {0}) × Process W)).
          Returns r (λ d q.
            HasBecome (p.objects this) this Post d q × (q.handlers ≡ p.handlers) × R q.world))
        (sym (read_event_reads session p this v))
        (read_requests-HasBecome Post (after_load (after_load p this) this) this buf does
          (record {
            count = a.count;
            bytes = a.bytes;
            some_bytes = a.some_bytes;
            at_most = a.at_most;
          })
          h)

  some_served :
      (s : Session) (ms : List Message) (o : Option Session)
      → AllServed s ms o
      → OfSome (λ t. AllServed s ms (some t)) o
  some_served s ms none h = h
  some_served s ms (some t) h = h

  -- When the bytes of whole requests, of at least 1024 bytes each, arrive for a connected VirusHandler
  -- that stands before a request, on a host that runs out of nothing, and there is a turn for each of
  -- them: its read event ends, without undefined behaviour, with one answer more in its queue for each
  -- request, in order, to its id and with state OK, and nothing else of the handler, and nothing of the map,
  -- has changed. What receiving and the C library keep true of the world is still true.
  pub handle_read_event-HasServed :
      (session : Session) (p : Process W) (this : ℕ) (m : Message) (ms : List Message)
      → IsServing p this
      → Arrives net p this (stream (m ∷ ms))
      → IsStart (p.objects this).session.req
      → AllLarge (m ∷ ms)
      → length ms < fuel
      → R p.world
      → Returns (handle_read_event net stdio fuel session this p) (λ d q.
        HasServed (p.objects this) this (m ∷ ms) d q × (q.handlers ≡ p.handlers) × R q.world)
  handle_read_event-HasServed session p this m ms v a st big f h =
      let s = (p.objects this).session in
      handle_read_event-HasBecome (λ t. AllServed s (m ∷ ms) (some t)) session p this
        (stream (m ∷ ms)) v a
        (λ w.
          Returns-map (λ o w'. AllServed s (m ∷ ms) o)
            (λ o w'. OfSome (λ t. AllServed s (m ∷ ms) (some t)) o) _
            (read_loop-Served (lift_stdio stdio) (lift_stdio-IsReliable stdio rel) fuel s m ms w st
              big (omega (arith, a.at_most)) f)
            (λ o w' served. some_served s (m ∷ ms) o served))
        h
