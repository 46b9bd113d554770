-- ===== src/Cp/Windows/Agree.antt =====
-- cp_socket.cpp: where the two builds do the same.
use socket_server.Prelude.{
  ℕ, ◌≡◌, refl, false, Bool, ◌||◌, some, List, ◌==◌, if◌then◌else◌, ℤ, pos, negsuc, minus_one, M,
  ok, arith,
}
use socket_server.Cp.{Net, Addr, any_host, inaddr_any, str_eq}
use socket_server.Cp
use socket_server.Cp.Windows.{Winsock, inaddr_none, cp_inet_pton, with_address, cp_bind, cp_connect}

-- Both systems read the host as the address `a`, and do nothing else.
pub record Parses {W : Type 0} (net : Net W) (ws : Winsock W) (host : List ℕ) (a : ℕ) (w : W)
    : Type 0 where
  pub named : str_eq host any_host ≡ false
  pub inet_pton : net.inet_pton host w ≡ ((pos 1, a), w)
  pub inet_addr : ws.inet_addr host w ≡ (a, w)

-- 0.0.0.0 and 255.255.255.255, by which Winsock says that it could not read the text.
abbrev pub is_reserved : ℕ → Bool
is_reserved a = (a == inaddr_any) || (a == inaddr_none)

module _ {W : Type 0} (net : Net W) (ws : Winsock W) {host : List ℕ} {a : ℕ} {w : W}
    (p : Parses net ws host a w) where
  cp_inet_pton-parsed :
      (addr : Addr)
      → Cp.cp_inet_pton net (some host) addr w ≡ ok ((pos 1, record addr { host = a }), w)
  unfolding Cp.cp_inet_pton
  cp_inet_pton-parsed addr = rw (p.named) (rw (p.inet_pton) refl)

  cp_inet_pton-reserved :
      (addr : Addr)
      → cp_inet_pton net ws (some host) addr w ≡ (
          if a == inaddr_any
          then ok ((pos 0, record addr { host = inaddr_none }), w)
          else if a == inaddr_none
          then ok ((minus_one, record addr { host = a }), w)
          else ok ((pos 1, record addr { host = a }), w))
  unfolding cp_inet_pton
  cp_inet_pton-reserved addr = rw (p.named) (rw (p.inet_addr) (ground arith))

  with_address-agrees :
      (af port : ℕ) (failed : ℤ) (use_it : Addr → M W ℤ)
      → with_address net ws af (some host) port failed use_it w ≡ (
          if is_reserved a
          then ok (failed, w)
          else Cp.with_address net af (some host) port failed use_it w)
  unfolding with_address Cp.with_address
  with_address-agrees af port failed use_it =
      let addr : Addr = record { family = af; port = port; host = 0 } in
      let windows = cp_inet_pton-reserved addr in
      let linux = cp_inet_pton-parsed addr in ground arith

module _ {W : Type 0} (net : Net W) (ws : Winsock W) where
  -- For a host other than the text 0.0.0.0 that both systems read as the same address: where that is
  -- neither 0.0.0.0 nor 255.255.255.255, `cp_bind` and `cp_connect` do the same in both builds. With one
  -- of these two, in the Windows build `cp_bind` returns -2, and `cp_connect` to a port other than 0
  -- returns -3, and neither makes the system call; to port 0 `cp_connect` returns -2 in both builds.
  pub cp_bind-agrees :
      (sock : ℤ) (af port : ℕ) (host : List ℕ) (a : ℕ) (w : W)
      → Parses net ws host a w
      → (cp_bind net ws sock af (some host) port w
          ≡ (if is_reserved a then ok (negsuc 1, w) else Cp.cp_bind net sock af (some host) port w))
        × (cp_connect net ws sock af (some host) port w ≡ (
            if is_reserved a
            then ok ((if port == 0 then negsuc 1 else negsuc 2), w)
            else Cp.cp_connect net sock af (some host) port w))
  unfolding cp_bind cp_connect Cp.cp_bind Cp.cp_connect
  cp_bind-agrees sock af port host a w p =
      let same = with_address-agrees net ws p af port in
      let bound = same (negsuc 1) (λ addr. Cp.call (net.bind sock addr)) in
      let connected = same (negsuc 2) (λ addr. Cp.call (net.connect sock addr)) in
      (bound, ground arith)
