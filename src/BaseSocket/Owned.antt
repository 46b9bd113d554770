-- ===== src/BaseSocket/Owned.antt =====
-- The handlers of base_socket.cpp and the map that owns them, between two calls.
use socket_server.Prelude.{ℕ, ◌<◌, ◌≡◌, ◌≢◌, true, some, ℤ}
use socket_server.Cache.{Stdio}
use socket_server.Cache.Frame.{HostKeeps}
use socket_server.Cp.{Net}
use socket_server.Cp.Frame.{NetKeeps}
use socket_server.BaseSocket.{Process, lift_net, lift_stdio, find}
use socket_server.BaseSocket.Map.{IsMap}

-- One entry for a socket, whose handler is an object of the heap that is alive and has this socket.
pub record IsOwned {W : Type 0} (p : Process W) : Type 0 where
  pub one_entry : IsMap p.handlers
  pub alive : (s : ℤ) (o : ℕ) → find s p.handlers ≡ some o → (p.objects o).live ≡ true
  pub same_sock : (s : ℤ) (o : ℕ) → find s p.handlers ≡ some o → (p.objects o).sock ≡ s
  pub allocated : (s : ℤ) (o : ℕ) → find s p.handlers ≡ some o → o < p.next

-- The same, and a new object that no entry has.
pub record IsNew {W : Type 0} (this : ℕ) (p : Process W) : Type 0 where
  pub owned : IsOwned p
  pub live : (p.objects this).live ≡ true
  pub below : this < p.next
  pub unheld : (s : ℤ) → find s p.handlers ≢ some this

-- The world inside of a process may be any.
abbrev pub IsFrame : {W : Type 0} → (Process W → Type 0) → Type 0
IsFrame {W} P = (p : Process W) (w : W) → P p → P (record p { world = w })

pub IsOwned-IsFrame : (W : Type 0) → IsFrame (IsOwned {W = W})
IsOwned-IsFrame W p w h = record {
  one_entry = h.one_entry;
  alive = h.alive;
  same_sock = h.same_sock;
  allocated = h.allocated;
}

pub IsNew-IsFrame : (W : Type 0) (this : ℕ) → IsFrame (IsNew {W = W} this)
IsNew-IsFrame W this p w h = record {
  owned = IsOwned-IsFrame W p w h.owned;
  live = h.live;
  below = h.below;
  unheld = h.unheld;
}

module _ {W : Type 0} {P : Process W → Type 0} (f : IsFrame P) where
  pub lift_net-Keeps : (net : Net W) → NetKeeps (lift_net net) P
  lift_net-Keeps net = record {
    socket = λ af type protocol p h. f p _ h;
    bind = λ sock addr p h. f p _ h;
    listen = λ sock n p h. f p _ h;
    connect = λ sock addr p h. f p _ h;
    accept = λ sock p h. f p _ h;
    send = λ sock bytes flags p h. f p _ h;
    recv = λ sock n flags p h. f p _ h;
    get_flags = λ sock p h. f p _ h;
    set_flags = λ sock mode p h. f p _ h;
    close = λ sock p h. f p _ h;
    getpeername = λ sock p h. f p _ h;
    getsockopt = λ sock p h. f p _ h;
    inet_pton = λ host p h. f p _ h;
    inet_ntop = λ addr n p h. f p _ h;
    select = λ r w e timeout p h. f p _ h;
    usleep = λ n p h. f p _ h;
  }

  pub lift_stdio-Keeps : (stdio : Stdio W) → HostKeeps (lift_stdio stdio) P
  lift_stdio-Keeps stdio = record {
    calloc = λ p h. f p _ h;
    malloc = λ n p h. f p _ h;
    gettimeofday = λ p h. f p _ h;
    fopen = λ path p h. f p _ h;
    fseek = λ g at p h. f p _ h;
    fwrite = λ g bytes p h. f p _ h;
    fread = λ g n p h. f p _ h;
    fclose = λ g p h. f p _ h;
    unlink = λ path p h. f p _ h;
  }
