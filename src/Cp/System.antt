-- ===== src/Cp/System.antt =====
-- What cp_socket.cpp and base_socket.cpp use of the system's sockets, over a world `W` that it keeps.
-- Nothing is assumed here.
use socket_server.Prelude.{ℕ, ℤ, Bool, List, Option}

-- The values of `errno` that the code tells apart.
pub data Errno : Type 0 where
  einval enotconn eisconn ealready einprogress eagain ewouldblock econnaborted eintr other_error :
      Errno

-- struct sockaddr_in, its port in host order
pub record Addr : Type 0 where
  pub family : ℕ
  pub port : ℕ
  pub host : ℕ

-- The status flags of a descriptor: O_NONBLOCK, the access mode and the other bits that F_SETFL
-- ignores, and the rest of those that it sets (O_APPEND, O_ASYNC and the like).
pub record Flags : Type 0 where
  pub nonblock : Bool
  pub fixed : ℕ
  pub rest : ℕ

pub record Net (W : Type 0) : Type 0 where
  pub errno : W → Errno
  pub socket : ℕ → ℕ → ℕ → W → ℤ × W
  pub bind : ℤ → Addr → W → ℤ × W
  pub listen : ℤ → ℕ → W → ℤ × W
  pub connect : ℤ → Addr → W → ℤ × W
  -- The new socket and the peer's address.
  pub accept : ℤ → W → (ℤ × Addr) × W
  pub send : ℤ → List ℕ → ℕ → W → ℤ × W
  -- The result, and the bytes that were received.
  pub recv : ℤ → ℕ → ℕ → W → (ℤ × List ℕ) × W
  -- fcntl with F_GETFL and F_SETFL
  pub get_flags : ℤ → W → Flags × W
  pub set_flags : ℤ → Flags → W → ℤ × W
  pub close : ℤ → W → W
  pub getpeername : ℤ → W → (ℤ × Addr) × W
  -- getsockopt with SO_ERROR and null pointers: its result.
  pub getsockopt : ℤ → W → ℤ × W
  -- The result, and the address where it is 1.
  pub inet_pton : List ℕ → W → (ℤ × ℕ) × W
  -- The text of an address, or a null pointer, for a buffer of the given size.
  pub inet_ntop : Addr → ℕ → W → Option (List ℕ) × W
  -- The sets to watch for reading, writing and exceptions, a timeout in milliseconds: the result, and
  -- the sets that are left.
  pub select : List ℤ → List ℤ → List ℤ → ℕ → W → (ℤ × List ℤ × List ℤ × List ℤ) × W
  pub usleep : ℕ → W → W
