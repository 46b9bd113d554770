-- ===== src/Hv.antt =====
-- doc_ferry_server/src/hv.cpp and inc/HV.h: `vc::HV`, one message that is being received or sent, with
-- its header and its value in a cache. A buffer `(p_data, data_len)` is the list of its bytes; a null
-- pointer or a length of at most 0, which the code answers alike, is the empty list.
pub mod Head
pub mod Value
pub mod Message
pub mod Small
pub mod Store
pub mod Full
pub mod Frame
use socket_server.Prelude.{
  ℕ, ◌+◌, ◌-◌, ◌*◌, Bool, true, false, ◌&&◌, Option, none, some, List, [], ◌∷◌, take, drop, length,
  ltb, leb, ◌==◌, ◌==ℤ◌, if◌then◌else◌, ℤ, pos, negsuc, minus_one, to_ℕ, ◌+ℤ◌, M, pure, fault,
  ◌>>=◌, ◌>>◌, out_of_bounds, uninitialised, null_pointer,
}
use socket_server.Cache.{
  Stdio, Cache, StorageTo, to_auto, to_mem, to_shm, to_file, memcpy, create_cache, cache_push,
  cache_full, leave_cache, delete_cache,
}
use socket_server.Wire.{Header, header_size, ntohl, htonl, bytes_of_header, header_of_bytes}

pub record Hv : Type 0 where
  -- `none` until `head_completed` sets it: the constructor does not.
  pub to : Option StorageTo
  pub header : Header
  pub value : Option Cache
  pub hlen : ℕ
  pub head_complete : Bool
  pub vlen : ℕ
  pub value_complete : Bool

-- DEFAULT_MAX_MEMORY_CACHE
abbrev pub default_max_memory_cache : ℕ
default_max_memory_cache = 1024

-- The constructor. The header is whatever the memory held.
unfoldable pub new : Header → Hv
new garbage = record {
  to = none;
  header = garbage;
  value = none;
  hlen = 0;
  head_complete = false;
  vlen = 0;
  value_complete = false;
}

pub is_value_complete : Hv → Bool
is_value_complete m = m.value_complete

pub is_head_complete : Hv → Bool
is_head_complete m = m.head_complete

unfoldable pub is_complete : Hv → Bool
unfolding is_head_complete is_value_complete
is_complete m = is_head_complete m && is_value_complete m

pub head_completed : Hv → Hv
head_completed m =
    if m.head_complete
    then m
    else let h : Header = record { id = ntohl m.header.id; length = ntohl m.header.length } in
      record m {
        head_complete = true;
        header = h;
        to = some (if ltb h.length default_max_memory_cache then to_mem else to_file);
      }

pub value_completed : Hv → Hv
value_completed m = if m.value_complete then m else record m { value_complete = true }

-- After `hlen` has grown.
pub head_written : Hv → Hv
unfolding head_completed
head_written m = if m.hlen == header_size then head_completed m else m

-- `&this->header + this->hlen` counts in headers: the copy starts `8 * hlen` bytes behind the header.
pub write_head : {W : Type 0} → Hv → List ℕ → M W (Hv × ℤ)
unfolding head_written
write_head m [] = pure (m, pos 0)
write_head m (b ∷ bs) =
    let room = header_size - m.hlen in
    let wlen = if ltb (length (b ∷ bs)) room then length (b ∷ bs) else room in
    if ltb m.hlen header_size
    then elim (memcpy (bytes_of_header m.header) (header_size * m.hlen) (take wlen (b ∷ bs))) [
      | none ↦ fault out_of_bounds
      | some bytes ↦ pure (
        head_written (record m { header = header_of_bytes bytes; hlen = m.hlen + wlen }),
        pos wlen,
      )
    ]
    else pure (m, pos 0)

module _ {W : Type 0} (host : Stdio W) where
  pub clear : Hv → M W Hv
  clear m =
      let cleared : Hv = record m {
        hlen = 0;
        vlen = 0;
        head_complete = false;
        value_complete = false;
      } in
      let left : M W Hv = leave_cache host m.value >> pure (record cleared { value = none }) in
      elim m.to [
        | none ↦ fault uninitialised
        | some to_file ↦ left
        | some to_shm ↦ left
        | some _ ↦ pure cleared
      ]

  -- The cache of the value, made at the first call.
  pub value_cache : Hv → M W (Option Cache)
  value_cache m = elim m.value [
    | some c ↦ pure (some c)
    | none ↦ create_cache host none m.header.length to_file
  ]

  -- The push, and the test for the end of the value.
  pub push_value : Hv → Cache → List ℕ → M W (Hv × ℤ)
  unfolding value_completed
  push_value m c p_data = do
    pushed ← cache_push host c p_data
    let m' = record m { value = some pushed.0 }
    pure (if cache_full (some pushed.0) then value_completed m' else m', pushed.1)

  -- With the cache, if there is one.
  pub push_into : Hv → List ℕ → Option Cache → M W (Hv × ℤ)
  unfolding push_value
  push_into m p_data none = pure (m, minus_one)
  push_into m p_data (some c) = push_value m c p_data

  pub write_value : Hv → List ℕ → M W (Hv × ℤ)
  unfolding is_head_complete value_cache push_into
  write_value m [] = pure (m, pos 0)
  write_value m (b ∷ bs) =
      if is_head_complete m then value_cache m >>= push_into m (b ∷ bs) else pure (m, pos 0)

  -- The second half of `write`, with what is left behind the header and the offset so far.
  pub write_rest : Hv → ℤ → List ℕ → M W (Hv × ℤ)
  unfolding write_value
  write_rest m offset p_data = do
    value ← write_value m p_data
    pure (value.0, if value.1 ==ℤ minus_one then minus_one else offset +ℤ value.1)

  -- `HV::write(const char *, int)`
  pub write : Hv → List ℕ → M W (Hv × ℤ)
  unfolding write_head write_rest
  write m p_data = do
    head ← write_head m p_data
    if head.1 ==ℤ minus_one
        then pure (head.0, minus_one)
        else write_rest head.0 head.1 (drop (to_ℕ head.1) p_data)

  -- What `write` of a whole message does when the value does not fit its cache, or none is made.
  pub discard : Hv → Cache → M W (Hv × ℤ)
  discard m c = do
    deleted ← delete_cache host (some c)
    leave_cache host deleted
    pure (record m { value = none }, minus_one)

  -- The end of `write` of a whole message: the value has to fit its cache.
  pub stored : Hv → Cache × ℤ → ℕ → M W (Hv × ℤ)
  unfolding discard
  stored m pushed n =
      if pushed.1 ==ℤ pos n
      then pure (record m { value = some pushed.0 }, pos 0)
      else discard m pushed.0

  -- With the new cache, if there is one.
  pub store_into : Hv → Header → List ℕ → Option Cache → M W (Hv × ℤ)
  unfolding stored
  store_into m header value none = pure (m, minus_one)
  store_into m header value (some c) = do
    pushed ← cache_push host c (take header.length value)
    stored m pushed header.length

  -- `HV::write(iface::Header *, char *)`, which the program calls with both arguments. `value` is the
  -- memory behind the second one.
  pub write_message : Hv → Header → List ℕ → M W (Hv × ℤ)
  unfolding store_into
  write_message m header value = do
    deleted ← delete_cache host m.value
    leave_cache host deleted
    cache ← create_cache host none header.length to_mem
    let m' : Hv = record m {
      header = record { id = htonl header.id; length = htonl header.length };
      value = none;
    }
    store_into m' header value cache
