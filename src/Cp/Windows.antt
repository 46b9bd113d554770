-- ===== src/Cp/Windows.antt =====
-- doc_ferry_server/src/cp_socket.cpp and inc/cp_socket.h in the Windows build: the wrappers that differ
-- from those of the Linux build. What both builds call is that of `Net`.
pub mod Agree
pub mod Text
use socket_server.Prelude.{
  ℕ, Bool, true, false, ◌||◌, Option, none, some, List, ◌==◌, ◌==ℤ◌, ltb, length, if◌then◌else◌, ℤ,
  pos, negsuc, minus_one, M, pure, fault, call, run, ◌>>=◌, ◌>>◌, out_of_bounds,
}
use socket_server.Cp.{Net, Addr, any_host, inaddr_any, str_eq}

-- What Winsock adds.
pub record Winsock (W : Type 0) : Type 0 where
  pub wsa_startup : W → ℤ × W
  pub wsa_cleanup : W → W
  pub inet_ntoa : Addr → W → List ℕ × W
  -- The address, or INADDR_NONE.
  pub inet_addr : List ℕ → W → ℕ × W
  -- With FIONBIO.
  pub ioctlsocket : ℤ → ℕ → W → ℤ × W
  pub closesocket : ℤ → W → W

abbrev pub inaddr_none : ℕ
inaddr_none = 4294967295

module _ {W : Type 0} (net : Net W) (ws : Winsock W) where
  -- It fails with the code of WSAStartup, and is 0 else.
  unfoldable pub cp_socket_init : M W ℤ
  cp_socket_init = call ws.wsa_startup

  unfoldable pub cp_socket_uninit : M W (Unit {0})
  cp_socket_uninit = run ws.wsa_cleanup

  -- `none` is a null pointer; the second argument is the size of `dst`, if that is not null. A text that
  -- has no room in `dst` is refused by `strncpy_s`, which ends the program.
  unfoldable pub cp_inet_ntop : Option Addr → Option ℕ → M W (Option (List ℕ))
  cp_inet_ntop none len = pure none
  cp_inet_ntop (some src) none = pure none
  cp_inet_ntop (some src) (some len) = do
    text ← call (ws.inet_ntoa src)
    if ltb (length text) len then pure (some text) else fault out_of_bounds

  -- The result, and the address as it is afterwards. The host is also turned to wide characters, which
  -- are not used.
  unfoldable pub cp_inet_pton : Option (List ℕ) → Addr → M W (ℤ × Addr)
  cp_inet_pton none addr = pure (pos 1, record addr { host = inaddr_any })
  cp_inet_pton (some p_host) addr =
      if str_eq p_host any_host then pure (pos 1, record addr { host = inaddr_any }) else do
        a ← call (ws.inet_addr p_host)
        if a == inaddr_any
            then pure (pos 0, record addr { host = inaddr_none })
            else if a == inaddr_none
            then pure (minus_one, record addr { host = a })
            else pure (pos 1, record addr { host = a })

  unfoldable pub with_address : ℕ → Option (List ℕ) → ℕ → ℤ → (Addr → M W ℤ) → M W ℤ
  with_address af host port failed use_it = do
    r ← cp_inet_pton host (record { family = af; port = port; host = 0 })
    if (r.0 ==ℤ pos 0) || (r.0 ==ℤ minus_one) then pure failed else use_it r.1

  unfoldable pub cp_bind : ℤ → ℕ → Option (List ℕ) → ℕ → M W ℤ
  unfolding with_address
  cp_bind sock af p_srv_host srv_port =
      with_address af p_srv_host srv_port (negsuc 1) (λ addr. call (net.bind sock addr))

  unfoldable pub cp_connect : ℤ → ℕ → Option (List ℕ) → ℕ → M W ℤ
  unfolding with_address
  cp_connect sock af none srv_port = pure (negsuc 1)
  cp_connect sock af (some p_srv_host) srv_port =
      if srv_port == 0
      then pure (negsuc 1)
      else with_address af (some p_srv_host) srv_port (negsuc 2)
          (λ addr. call (net.connect sock addr))

  unfoldable pub cp_setblocking : ℤ → Bool → M W ℤ
  cp_setblocking sock is_block = call (ws.ioctlsocket sock (if is_block then 0 else 1))

  unfoldable pub cp_close_socket : ℤ → M W (Unit {0})
  cp_close_socket sock = run (ws.closesocket sock)
