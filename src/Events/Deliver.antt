-- ===== src/Events/Deliver.antt =====
-- `handle_write_event` of base_socket.cpp for a VirusHandler, over a network that takes all it is given.
use socket_server.Prelude.{
  ℕ, ◌≡◌, refl, sym, true, false, Option, List, [], ◌∷◌, ◌++◌, length, ℤ, pos, arith, Returns, ap,
  Returns->>=, pure, ◌>>◌, is_some, append-nil, Keeps, Returns-IfOk, keeps_rules, Option-cases, inl,
  inr, subst,
}
use socket_server.Cache.{Stdio}
use socket_server.Cache.Frame.{HostKeeps}
use socket_server.Cp.{Net, cp_send}
use socket_server.Cp.Frame.{NetKeeps, cp_send-Keeps, cp_close_socket-Keeps}
use socket_server.Virus.{send_loop}
use socket_server.Virus.Frame.{send_loop-Keeps}
use socket_server.Virus.Read.{Message, stream}
use socket_server.Virus.Send.{IsOutlet, AllReady, Below, Sent, send_loop-Sent}
use socket_server.BaseSocket.{
  Handler, Process, lift_net, lift_stdio, load, store, erase, find, del_channel, close,
  handle_close, send,
}
use socket_server.BaseSocket.Owned.{IsFrame, lift_net-Keeps, lift_stdio-Keeps}
use socket_server.BaseSocket.Frame.{IsMild, erase-absent, erase-present}
use socket_server.BaseSocket.Leave.{after_load}
use socket_server.Events.{write_replies, handle_write, handle_write_event}
use socket_server.Events.Leave.{IsServing}

-- `sent` is what the peer of each socket is given. A send takes all of its bytes, and the C library
-- sends nothing.
pub record TakesAll {W : Type 0} (net : Net W) (stdio : Stdio W) (sent : ℤ → W → List ℕ)
    : Type 0 where
  pub count :
      (sock : ℤ) (bytes : List ℕ) (flags : ℕ) (w : W)
      → (net.send sock bytes flags w).0 ≡ pos (length bytes)
  pub appended :
      (sock : ℤ) (bytes : List ℕ) (flags : ℕ) (w : W)
      → sent sock (net.send sock bytes flags w).1 ≡ sent sock w ++ bytes
  pub library_keeps : (sock : ℤ) (x : List ℕ) → HostKeeps stdio (λ w. sent sock w ≡ x)

-- The object has the socket `s`.
HasSock : {W : Type 0} → ℕ → ℤ → Process W → Type 0
HasSock this s p = (p.objects this).sock ≡ s

module _ {W : Type 0} (net : Net W) (this : ℕ) (s : ℤ) where
  HasSock-IsFrame : IsFrame (HasSock {W = W} this s)
  unfolding HasSock
  HasSock-IsFrame p w h = h

  load-HasSock : (o : ℕ) → Keeps (HasSock {W = W} this s) (load o)
  unfolding load HasSock
  load-HasSock o = record { at = λ p h. h }

  store-HasSock :
      (o : ℕ) (f : Handler → Handler) → IsMild f → Keeps (HasSock {W = W} this s) (store o f)
  unfolding store HasSock
  store-HasSock o f m = record { at = λ p h. ground (arith, h, m (p.objects o), ap p.objects) }

  erase-HasSock : (sock : ℤ) (p : Process W) → HasSock this s p → HasSock this s (erase sock p)
  unfolding HasSock
  erase-HasSock sock p h = elim (Option-cases (find sock p.handlers)) [
    | inl e ↦ subst (HasSock this s) (sym (erase-absent sock p e)) h
    | inr (o, e) ↦
        subst (HasSock this s) (sym (erase-present sock p o e)) (ground (arith, h, ap p.objects))
  ]

  keeps : NetKeeps (lift_net net) (HasSock {W = W} this s)
  keeps = lift_net-Keeps HasSock-IsFrame net

  close-HasSock : (o : ℕ) → Keeps (HasSock {W = W} this s) (close net o)
  unfolding close del_channel
  close-HasSock o =
      let mild : IsMild
          (λ h. record h { connected = false; connecting = false; accepting = false }) =
        λ h. (refl, refl) in
      search
        (
          keeps_rules,
          store-HasSock,
          mild,
          erase-HasSock,
          load-HasSock,
          cp_close_socket-Keeps (lift_net net) keeps,
        )
        depth 9

  send-HasSock : (o : ℕ) (buf : List ℕ) → Keeps (HasSock {W = W} this s) (send net o buf)
  unfolding send handle_close
  send-HasSock o buf =
      let same_world : (p : Process W) → HasSock this s p → HasSock this s p = λ p h. h in
      search
        (keeps_rules, load-HasSock, cp_send-Keeps (lift_net net) keeps, close-HasSock, same_world)
        depth 9

module _ {W : Type 0} (net : Net W) (stdio : Stdio W) (sent : ℤ → W → List ℕ)
    (all : TakesAll net stdio sent) where
  -- What the peer of the handler's socket is given.
  abbrev pub sent_by : ℕ → Process W → List ℕ
  sent_by this p = sent (p.objects this).sock p.world

  send_taken :
      (this : ℕ) (bytes : List ℕ) (p : Process W)
      → Returns (send net this bytes p) (λ r q. sent_by this q ≡ sent_by this p ++ bytes)
  unfolding send load cp_send
  send_taken this [] p = rw append-nil refl
  send_taken this (b ∷ bs) p = ground (
    arith,
    all.count (p.objects this).sock (b ∷ bs) 0 p.world,
    all.appended (p.objects this).sock (b ∷ bs) 0 p.world,
  )

  send-IsOutlet : (this : ℕ) → IsOutlet (lift_stdio stdio) (send net this) (sent_by this)
  send-IsOutlet this = record {
    send_all = send_taken this;
    fclose_keeps =
        λ f p. (all.library_keeps (p.objects this).sock (sent_by this p)).fclose f p.world refl;
    unlink_keeps = λ path p.
        (all.library_keeps (p.objects this).sock (sent_by this p)).unlink path p.world refl;
  }

  -- The queue went out on the handler's socket, and is empty.
  abbrev pub HasSent : ℕ → List ℕ → Process W → Option (Unit {0}) → Process W → Type 0
  HasSent this bytes p d q =
      (is_some d ≡ true)
      × (sent (p.objects this).sock q.world ≡ sent_by this p ++ bytes)
      × ((q.objects this).session.resp ≡ [])
      × ((q.objects this).sock ≡ (p.objects this).sock)

  emptied :
      (this : ℕ) (bytes : List ℕ) (p : Process W) (d : Option (Unit {0})) (q : Process W)
      → Sent (sent_by this) bytes p d q
      → HasSock this (p.objects this).sock q
      → Returns
          ((store this (λ h. record h { session = record (h.session) { resp = [] } }) >> pure d) q)
          (HasSent this bytes p)
  unfolding store HasSock
  emptied this bytes p d q (e, o) k = (e, rw k at o, ground arith, ground (arith, k))

  here : (this : ℕ) (p : Process W) → HasSock this (p.objects this).sock (after_load p this)
  unfolding HasSock
  here this p = refl

  write_replies-HasSent :
      (fuel : ℕ) (this : ℕ) (ms : List Message) (p : Process W)
      → AllReady ms (p.objects this).session.resp
      → Below fuel ms
      → Returns (write_replies net stdio fuel this p) (HasSent this (stream ms) p)
  unfolding write_replies load
  write_replies-HasSent fuel this ms p r b =
      let rs = (p.objects this).session.resp in
      let s = (p.objects this).sock in
      let host = lift_stdio stdio in
      let begun = after_load p this in
      Returns->>= (send_loop host (send net this) fuel rs) _
        (λ d q. Sent (sent_by this) (stream ms) p d q × HasSock this s q) _ begun
        (Returns-IfOk (λ d q. Sent (sent_by this) (stream ms) begun d q) (λ d q. HasSock this s q) _
          (send_loop-Sent host (send net this) (sent_by this) (send-IsOutlet this) fuel ms rs begun
            r b)
          ((send_loop-Keeps host (lift_stdio-Keeps (HasSock-IsFrame net this s) stdio)
              (send net this) (send-HasSock net this s this) fuel rs).at
            begun (here this p)))
        (λ d q (o, k). emptied this (stream ms) p d q o k)

  -- When a connected VirusHandler has answers that hold their values, and the network takes all that it
  -- is given, its write event sends them whole and in order on its socket, each header in network order
  -- before its value; the loops end, and the queue is empty.
  pub handle_write_event-HasSent :
      (fuel : ℕ) (this : ℕ) (ms : List Message) (p : Process W)
      → IsServing p this
      → AllReady ms (p.objects this).session.resp
      → Below fuel ms
      → Returns (handle_write_event net stdio fuel this p) (HasSent this (stream ms) p)
  unfolding handle_write_event handle_write load
  handle_write_event-HasSent fuel this ms p v r b =
      rw (v.accepting, v.connected, v.class)
        (write_replies-HasSent fuel this ms (after_load (after_load p this) this) r b)
