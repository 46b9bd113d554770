-- ===== src/Events/Leave.antt =====
-- `handle_read_event` of base_socket.cpp for a VirusHandler whose peer has closed the connection.
use socket_server.Prelude.{ℕ, ◌≡◌, refl, true, false, some, pos, Returns, Returns->>=, Returns-map}
use socket_server.Cache.{Stdio}
use socket_server.Cp.{Net}
use socket_server.Virus.{Session}
use socket_server.BaseSocket.{Process, virus_handler, load, recv}
use socket_server.BaseSocket.Leave.{
  IsLeaving, HasLeft, after_load, load-IsLeaving, HasLeft-load, recv-HasLeft,
}
use socket_server.Events.{handle_read, handle_read_event}

-- A connected VirusHandler.
pub record IsServing {W : Type 0} (p : Process W) (this : ℕ) : Type 0 where
  pub class : (p.objects this).class ≡ virus_handler
  pub connected : (p.objects this).connected ≡ true
  pub accepting : (p.objects this).accepting ≡ false

module _ {W : Type 0} (net : Net W) (stdio : Stdio W) (fuel : ℕ) (session : Session) where
  handle_read-HasLeft :
      (p : Process W) (this : ℕ)
      → (p.objects this).class ≡ virus_handler
      → IsLeaving net 65535 p this
      → Returns
          (handle_read net stdio fuel this p)
          (λ d q. (d ≡ some tt) × HasLeft net 65535 p this q)
  unfolding handle_read load
  handle_read-HasLeft p this c v = rw c (
      Returns->>= (recv net this 65535) _
        (λ r q. (r.0 ≡ pos 0) × HasLeft net 65535 (after_load p this) this q) _ (after_load p this)
        (recv-HasLeft net 65534 (after_load p this) this (load-IsLeaving net 65535 p this v))
        (λ r q (e, h). rw e (refl, HasLeft-load net 65535 p this q h)))

  pub handle_read_event-HasLeft :
      (p : Process W) (this : ℕ)
      → IsServing p this
      → IsLeaving net 65535 p this
      → Returns
          (handle_read_event net stdio fuel session this p)
          (λ d q. (d ≡ some tt) × HasLeft net 65535 p this q)
  unfolding handle_read_event load
  handle_read_event-HasLeft p this s v = rw s.accepting (
      rw s.connected (
        Returns-map (λ d q. (d ≡ some tt) × HasLeft net 65535 (after_load p this) this q) _ _
          (handle_read-HasLeft (after_load p this) this s.class (load-IsLeaving net 65535 p this v))
          (λ d q (e, h). (e, HasLeft-load net 65535 p this q h))))
