-- ===== src/Client/Talk.antt =====
-- client/test_client.cpp: a connection on which every call of the file client succeeds.
use socket_server.Prelude.{
  ℕ, ◌<◌, ◌≡◌, refl, Bool, true, false, Option, List, ◌++◌, ℤ, pos, ◌==ℤ◌, ◌∙◌, ap, M, Ends,
  Ends-bind, Ends-pure, Ends-run, Returns, if◌then◌else◌, length, arith,
}
use socket_server.Cp.{Net, Addr, socket_error, invalid_socket, sock_stream, ipproto_tcp, af_inet}
use socket_server.Client.{Input, Shown, finish, failed}

-- One connection as its client sees it: what it has sent, and what it has not yet received.
pub record Peer : Type 0 where
  pub sent : List ℕ
  pub coming : List ℕ

-- Calls on the socket `sock` succeed: a send takes all that it is given, a receive gives what it is asked
-- for where so much is coming, and the file `path` has the content `file`.
pub record IsTalk {W : Type 0} (net : Net W) (input : Input W) (sock : ℤ) (path file : List ℕ)
    (peer : W → Peer) : Type 0 where
  pub open_file :
      (w : W) → ((input.open_file path w).0 ≡ true) × (peer (input.open_file path w).1 ≡ peer w)
  pub socket :
      (w : W)
      → ((net.socket af_inet sock_stream ipproto_tcp w).0 ≡ sock)
        × (peer (net.socket af_inet sock_stream ipproto_tcp w).1 ≡ peer w)
  pub is_valid : (sock ==ℤ invalid_socket) ≡ false
  pub inet_pton : (host : List ℕ) (w : W) → peer (net.inet_pton host w).1 ≡ peer w
  pub connect :
      (addr : Addr) (w : W)
      → (((net.connect sock addr w).0 ==ℤ socket_error) ≡ false)
        × (peer (net.connect sock addr w).1 ≡ peer w)
  pub size : (w : W) → ((input.size w).0 ≡ length file) × (peer (input.size w).1 ≡ peer w)
  pub read :
      (n : ℕ) (w : W)
      → n ≡ length file
      → ((input.read n w).0 ≡ (file, true)) × (peer (input.read n w).1 ≡ peer w)
  pub send :
      (bytes : List ℕ) (w : W)
      → ((net.send sock bytes 0 w).0 ≡ pos (length bytes))
        × (peer (net.send sock bytes 0 w).1 ≡ record (peer w) { sent = (peer w).sent ++ bytes })
  pub recv :
      (now later : List ℕ) (w : W)
      → (peer w).coming ≡ now ++ later
      → ((net.recv sock (length now) 0 w).0 ≡ (pos (length now), now))
        × (peer (net.recv sock (length now) 0 w).1 ≡ record (peer w) { coming = later })
  pub usleep : (n : ℕ) (w : W) → peer (net.usleep n w) ≡ peer w
  pub close_file : (w : W) → peer (input.close_file w) ≡ peer w
  pub close : (w : W) → peer (net.close sock w) ≡ peer w

pub not_failed : (n : ℕ) → 0 < n → failed (pos n) ≡ false
not_failed n h = ground arith

module _ {W : Type 0} (peer : W → Peer) where
  abbrev pub At : Peer → W → Type 0
  At q w = peer w ≡ q

  abbrev pub Done : Option Shown → Peer → ℤ × Option Shown → W → Type 0
  Done o q r w = (r ≡ (pos 0, o)) × (peer w ≡ q)

  -- Tests that do not end the session.
  pub goes_on :
      {o : Option Shown} {q' : Peer} (q : Peer) (b : Bool) (x y : M W (ℤ × Option Shown)) (w : W)
      → b ≡ false
      → peer w ≡ q
      → Ends (At q) y (Done o q')
      → Returns ((if b then x else y) w) (Done o q')
  goes_on q false x y w e h k = k.at w h
  goes_on q true x y w e h k = ground arith

  pub goes_in :
      {o : Option Shown} {q' : Peer} (q : Peer) (b : Bool) (x y : M W (ℤ × Option Shown)) (w : W)
      → b ≡ true
      → peer w ≡ q
      → Ends (At q) x (Done o q')
      → Returns ((if b then x else y) w) (Done o q')
  goes_in q true x y w e h k = k.at w h
  goes_in q false x y w e h k = ground arith

module _ {W : Type 0} (net : Net W) (input : Input W) (sock : ℤ) (path file : List ℕ)
    (peer : W → Peer) (t : IsTalk net input sock path file peer) where
  pub finish-Done :
      (o : Option Shown) (q : Peer) → Ends (At peer q) (finish net input sock o) (Done peer o q)
  unfolding finish
  finish-Done o q =
      Ends-bind (λ _. At peer q) _ _ (Ends-run input.close_file (λ w h. t.close_file w ∙ h))
        (λ _.
          Ends-bind (λ _. At peer q) _ _ (Ends-run (net.close sock) (λ w h. t.close w ∙ h))
            (λ _. Ends-pure (pos 0, o) (λ w h. (refl, h))))

  pub recv-Got :
      (out now later : List ℕ) (w : W)
      → peer w ≡ record { sent = out; coming = now ++ later }
      → ((net.recv sock (length now) 0 w).0.0 ≡ pos (length now))
        × ((net.recv sock (length now) 0 w).0.1 ≡ now)
        × (peer (net.recv sock (length now) 0 w).1 ≡ record { sent = out; coming = later })
  recv-Got out now later w e =
      let r = t.recv now later w (ap (λ (q : Peer). q.coming) e) in
      (
        ap (λ (x : ℤ × List ℕ). x.0) r.0,
        ap (λ (x : ℤ × List ℕ). x.1) r.0,
        r.1 ∙ ap (λ (q : Peer). record q { coming = later }) e,
      )

  pub send-Sent :
      (out bytes next : List ℕ) (w : W)
      → peer w ≡ record { sent = out; coming = next }
      → ((net.send sock bytes 0 w).0 ≡ pos (length bytes))
        × (peer (net.send sock bytes 0 w).1 ≡ record { sent = out ++ bytes; coming = next })
  send-Sent out bytes next w e =
      let r = t.send bytes w in
      (r.0, r.1 ∙ ap (λ (q : Peer). record q { sent = q.sent ++ bytes }) e)
