-- ===== src/Hv/Store.antt =====
-- `HV::write(iface::Header *, char *)` of hv.cpp: a message made by this side, on a host that runs out
-- of nothing.
use socket_server.Prelude.{
  ℕ, ◌^◌, ◌<◌, ◌≡◌, refl, Option, none, some, List, [], length, arith, pos, Returns, Returns->>=,
  ◌>>=◌, M, take_all, ℤ,
}
use socket_server.Cache.{Stdio, Cache, to_mem, create_cache, delete_cache, leave_cache}
use socket_server.Cache.Fifo.{Stream, Holds, put, push-Holds}
use socket_server.Cache.Storage.{IsReliable, IsEmptyMemory, create_cache-IsEmptyMemory}
use socket_server.Wire.{Header}
use socket_server.Hv.{Hv, write_message, store_into}
use socket_server.Hv.Head.{wire}

abbrev pub HoldsValue : Option Cache → List ℕ → Type 0
HoldsValue none value = ⊥
HoldsValue (some c) value = Holds c (record { room = 0; pending = value })

-- A message ready to be sent: its header in network order, its value waiting in memory.
pub record IsReady (h : Header) (value : List ℕ) (r : Hv × ℤ) : Type 0 where
  pub succeeds : r.1 ≡ pos 0
  pub header_of : r.0.header ≡ wire h
  pub value_of : HoldsValue r.0.value value

abbrev empty : ℕ → Stream
empty n = record { room = n; pending = [] }

IsEmptyMemory-Holds :
    (c : Cache) (n : ℕ) (buf : Option (List ℕ))
    → c.buf ≡ buf
    → n < 2 ^ 32
    → IsEmptyMemory n (some c)
    → Holds c (empty n)
IsEmptyMemory-Holds c n none e l h = ground arith
IsEmptyMemory-Holds c n (some b) e l h = ground arith

put-empty :
    (n : ℕ) (value : List ℕ)
    → length value ≡ n
    → (put value (empty n)).0 ≡ record { room = 0; pending = value }
put-empty n value e = ground (arith, take_all n value)

module _ {W : Type 0} (host : Stdio W) (rel : IsReliable host) where
  store_into-IsReady :
      (m : Hv) (h : Header) (value : List ℕ) (cache : Option Cache) (w : W)
      → m.header ≡ wire h
      → length value ≡ h.length
      → h.length < 2 ^ 31
      → IsEmptyMemory h.length cache
      → Returns (store_into host m h value cache w) (λ r _. IsReady h value r)
  unfolding store_into
  store_into-IsReady m h value none w e l k c = absurd c
  store_into-IsReady m h value (some c) w e l k v = ground (
    arith,
    take_all h.length value,
    put-empty h.length value l,
    push-Holds host c (empty h.length) value w
        (IsEmptyMemory-Holds c h.length c.buf refl (omega arith) v),
  )

  write_fresh : Hv → Header → List ℕ → M W (Hv × ℤ)
  write_fresh m h value =
      create_cache host none h.length to_mem
      >>= store_into host (record m { header = wire h; value = none }) h value

  -- Over a message without a value, and on a host that runs out of nothing, one of a header and as many
  -- bytes as it announces, below 2 ^ 31, is made without fail: its header is in network order, and
  -- exactly its value waits to be popped.
  pub write_message-IsReady :
      (m : Hv) (h : Header) (value : List ℕ) (w : W)
      → m.value ≡ none
      → length value ≡ h.length
      → h.length < 2 ^ 31
      → Returns (write_message host m h value w) (λ r _. IsReady h value r)
  unfolding write_message write_fresh wire delete_cache leave_cache
  write_message-IsReady m h value w e l k =
      let m' : Hv = record m { header = wire h; value = none } in
      let made : Returns (write_fresh m h value w) (λ r _. IsReady h value r) =
        Returns->>= (create_cache host none h.length to_mem) (store_into host m' h value)
          (λ c _. IsEmptyMemory h.length c) _ w (create_cache-IsEmptyMemory host rel h.length w)
          (λ c w' v. store_into-IsReady m' h value c w' refl l k v) in
      let same : write_message host m h value w ≡ write_fresh m h value w = ground arith in
      rw same made
