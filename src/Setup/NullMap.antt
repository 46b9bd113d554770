-- ===== src/Setup/NullMap.antt =====
-- BaseSocket::BaseSocket of base_socket.cpp with a null map: the object gets the default map, and the
-- socket is put into the map that was passed.
use socket_server.Prelude.{
  ◌≡◌, refl, false, ℕ, M, pure, fault, ◌>>=◌, ◌>>◌, if◌then◌else◌, null_pointer, ub, Bool-cases,
  inl, inr,
}
use socket_server.Cp.{Net, cp_socket_valid, cp_setblocking}
use socket_server.BaseSocket.{Process, lift_net, load, store}
use socket_server.Setup.{construct}

module _ {W : Type 0} (net : Net W) where
  -- `set_socket` stores the socket, and `add_channel` reads the null map.
  unfoldable pub construct_null : ℕ → M (Process W) (Unit {0})
  unfolding load store
  construct_null this = do
    self ← load this
    if cp_socket_valid self.sock
        then (do
          done ← cp_setblocking (lift_net net) self.sock false
          store this (λ h. record h { sock = self.sock })
          fault null_pointer)
        else pure tt

  -- On an object with a valid socket, the constructor with a null map reads the null pointer,
  -- whatever the system does; on one with an invalid socket it does what it does with a map.
  pub construct_null-construct :
      (this : ℕ) (p : Process W)
      → construct_null this p
        ≡ (if cp_socket_valid (p.objects this).sock then ub null_pointer else construct net this p)
  unfolding construct_null construct cp_setblocking
  construct_null-construct this p = elim (Bool-cases (cp_socket_valid (p.objects this).sock)) [
    | inl valid ↦ rw valid refl
    | inr invalid ↦ rw invalid refl
  ]
