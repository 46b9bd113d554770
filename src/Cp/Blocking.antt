-- ===== src/Cp/Blocking.antt =====
-- `cp_setblocking` of cp_socket.cpp.
use socket_server.Prelude.{◌≡◌, true, false, ℤ, arith, Returns}
use socket_server.Cp.{Net, Flags, cp_setblocking}

-- fcntl gives the flags of the socket, and stores those that it is given, but for the access mode and
-- the other bits that F_SETFL ignores: these stay as they are.
pub record KeepsFlags {W : Type 0} (net : Net W) (sock : ℤ) (flags : W → Flags) : Type 0 where
  pub get_reads : (w : W) → (net.get_flags sock w).0 ≡ flags w
  pub get_keeps : (w : W) → flags (net.get_flags sock w).1 ≡ flags w
  pub set_stores :
      (mode : Flags) (w : W)
      → flags (net.set_flags sock mode w).1 ≡ record mode { fixed = (flags w).fixed }

module _ {W : Type 0} (net : Net W) (sock : ℤ) (flags : W → Flags)
    (keeps : KeepsFlags net sock flags) where
  -- Where fcntl succeeds, a socket made non-blocking has O_NONBLOCK set and its other flags as before.
  -- Made blocking, it has O_NONBLOCK as before, so that a non-blocking socket stays so; of the other
  -- flags those that F_SETFL ignores are as before, and the rest are cleared.
  pub cp_setblocking-flags :
      (w : W)
      → Returns (cp_setblocking net sock false w) (λ _ w'.
        ((flags w').nonblock ≡ true)
        × ((flags w').fixed ≡ (flags w).fixed)
        × ((flags w').rest ≡ (flags w).rest))
        × Returns (cp_setblocking net sock true w) (λ _ w'.
          ((flags w').nonblock ≡ (flags w).nonblock)
          × ((flags w').fixed ≡ (flags w).fixed)
          × ((flags w').rest ≡ 0))
  unfolding cp_setblocking
  cp_setblocking-flags w = grind (arith, keeps.get_reads, keeps.get_keeps, keeps.set_stores)
