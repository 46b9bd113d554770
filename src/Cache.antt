-- ===== src/Cache.antt =====
-- doc_ferry_server/src/cache_part.cpp and inc/cache_part.h: a buffer of fixed capacity for one value,
-- in memory or in a file. `cache_t` and its `private_cache_t` are one record here, since every
-- function but `create_cache` reads `p_priv` unchecked. A `FILE *` is a number that the host gives.
mod Host
pub mod Clock
pub mod Bounds
pub mod Fifo
pub mod Storage
pub mod Frame
pub use Host.{Stdio, CachePath}
use socket_server.Prelude.{
  ℕ, ◌+◌, ◌-◌, ◌^◌, Bool, true, false, Option, none, some, List, [], ◌∷◌, ◌++◌, take, drop, length,
  ltb, leb, ◌==◌, ◌||◌, is_some, ◌==ℤ◌, if◌then◌else◌, ℤ, pos, negsuc, minus_one, int32, sub64,
  get_or, M, pure, fault, call, run, ◌>>=◌, ◌>>◌, Fault, null_pointer, out_of_bounds,
}

-- enum storage_to
pub data StorageTo : Type 0 where
  to_auto to_mem to_shm to_file : StorageTo

abbrev pub memory_cache_len : ℕ
memory_cache_len = 1048576

-- MAX_PATH
abbrev pub max_path : ℕ
max_path = 1024

pub record Cache : Type 0 where
  pub path : Option CachePath
  pub buf : Option (List ℕ)
  pub capacity : ℕ
  pub widx : ℕ
  pub ridx : ℕ
  pub wfp : Option ℕ
  pub dir : List ℕ

-- `memcpy(dst + at, bytes, length bytes)`; `none` is a write past the end of `dst`.
abbrev pub memcpy : List ℕ → ℕ → List ℕ → Option (List ℕ)
memcpy dst at bytes =
    if leb (at + length bytes) (length dst)
    then some (take at dst ++ (bytes ++ drop (at + length bytes) dst))
    else none

-- The bytes that `memcpy(p, src + at, n)` reads; `none` is a read past the end of `src`.
abbrev pub memread : List ℕ → ℕ → ℕ → Option (List ℕ)
memread src at n = if leb (at + n) (length src) then some (take n (drop at src)) else none

-- The directory that `create_cache` stores: the argument, if it ends in a slash; nothing, if not.
-- An empty text makes it read `cache_dir[-1]`, and one that fills `dir` is copied past its end.
pub cache_directory : {W : Type 0} → Option (List ℕ) → M W (List ℕ)
cache_directory none = pure (b'.' ∷ [])
cache_directory (some []) = fault out_of_bounds
cache_directory (some (c ∷ cs)) =
    let last = get_or (c ∷ cs) (length cs) 0 in
    if (last == b'/') || (last == 0x5c)
    then (if ltb max_path (length (c ∷ cs)) then fault out_of_bounds else pure (c ∷ cs))
    else pure []

-- The structs as `create_cache` leaves them before it makes the storage.
pub blank : List ℕ → ℕ → Cache
blank dir capacity = record {
  path = none;
  buf = none;
  capacity = capacity;
  widx = 0;
  ridx = 0;
  wfp = none;
  dir = dir;
}

-- What is pushed: `capacity - widx`, at most the data's length. The result is cast to `int`.
pub push_len : Cache → List ℕ → ℕ
push_len c p_data =
    let room = sub64 c.capacity c.widx in if ltb (length p_data) room then length p_data else room

pub pop_len : Cache → ℕ → ℕ
pop_len c data_len = let left = sub64 c.widx c.ridx in if ltb data_len left then data_len else left

-- The `size_t` that the code returns, where -1 is the largest one, beside the bytes.
module _ {W : Type 0} (host : Stdio W) where
  open host use {calloc, malloc, gettimeofday, fopen, fseek, fwrite, fread, fclose, unlink}

  -- Each returns the code's `int` beside the cache.
  pub create_cache_buffer : Cache → M W (Cache × ℤ)
  create_cache_buffer c = do
    buf ← call (malloc c.capacity)
    pure (record c { buf = buf }, if is_some buf then pos 0 else minus_one)

  -- The file is made `capacity` bytes long by one byte written at its end. `(long)capacity - 1` is -1
  -- for an empty cache.
  pub create_cache_file : Cache → M W (Cache × ℤ)
  create_cache_file c = do
    now ← call gettimeofday
    let path : CachePath = record { dir = c.dir; sec = now.0; usec = now.1 }
    opened ← call (fopen path)
    let named = record c { path = some path; wfp = opened }
    elim opened [
      | none ↦ pure (named, minus_one)
      | some fp ↦ do
        run (fseek fp (if c.capacity == 0 then minus_one else pos (c.capacity - 1)))
        n ← call (fwrite fp (0 ∷ []))
        run (fseek fp (pos 0))
        pure (named, if n == 1 then pos 0 else minus_one)
    ]

  -- Closes the file and frees the structs. The buffer and the file stay.
  unfoldable pub leave_cache : Option Cache → M W (Unit {0})
  leave_cache none = pure tt
  leave_cache (some c) = elim c.wfp [ none ↦ pure tt | some fp ↦ run (fclose fp) ]

  -- The switch of `create_cache`.
  pub create_storage : StorageTo → Cache → M W (Cache × ℤ)
  unfolding create_cache_buffer create_cache_file
  create_storage to_auto c =
      if ltb memory_cache_len c.capacity then create_cache_file c else create_cache_buffer c
  create_storage to_mem c = create_cache_buffer c
  create_storage to_file c = create_cache_file c
  create_storage to_shm c = create_cache_file c

  -- The last test of `create_cache`.
  pub checked : Cache → ℤ → M W (Option Cache)
  unfolding leave_cache
  checked c ret = if ret ==ℤ minus_one then leave_cache (some c) >> pure none else pure (some c)

  -- The second `calloc` is not checked: the next line writes through its result.
  unfoldable pub create_cache : Option (List ℕ) → ℕ → StorageTo → M W (Option Cache)
  unfolding cache_directory create_storage checked blank
  create_cache cache_dir capacity to = do
    p_cache ← call calloc
    elim p_cache [
      | false ↦ pure none
      | true ↦ do
        p_priv ← call calloc
        elim p_priv [
          | false ↦ fault null_pointer
          | true ↦ do
            dir ← cache_directory cache_dir
            made ← create_storage to (blank dir capacity)
            checked made.0 made.1
        ]
    ]

  unfoldable pub cache_push : Cache → List ℕ → M W (Cache × ℤ)
  unfolding push_len
  cache_push c p_data = elim c.buf [
    | some b ↦ elim (memcpy b c.widx (take (push_len c p_data) p_data)) [
      | none ↦ fault out_of_bounds
      | some b' ↦
          pure (
            record c { buf = some b'; widx = c.widx + push_len c p_data },
            int32 (push_len c p_data),
          )
    ]
    | none ↦ elim c.wfp [
      | some fp ↦ do
        wlen ← call (fwrite fp (take (push_len c p_data) p_data))
        pure (record c { widx = c.widx + wlen }, int32 wlen)
      | none ↦ pure (c, minus_one)
    ]
  ]

  pub cache_pop : Cache → ℕ → M W (Cache × ℕ × List ℕ)
  unfolding pop_len
  cache_pop c data_len = elim c.buf [
    | some b ↦ elim (memread b c.ridx (pop_len c data_len)) [
      | none ↦ fault out_of_bounds
      | some bytes ↦
          pure (record c { ridx = c.ridx + pop_len c data_len }, pop_len c data_len, bytes)
    ]
    | none ↦ elim c.wfp [
      | some fp ↦ do
        bytes ← call (fread fp (pop_len c data_len))
        pure (record c { ridx = c.ridx + length bytes }, length bytes, bytes)
      | none ↦ pure (c, 2 ^ 64 - 1, [])
    ]
  ]

  -- Frees the buffer, or closes and removes the file.
  unfoldable pub delete_cache : Option Cache → M W (Option Cache)
  delete_cache none = pure none
  delete_cache (some c) = elim c.buf [
    | some b ↦ pure (some (record c { buf = none }))
    | none ↦ elim c.path [
      | none ↦ pure (some c)
      | some path ↦ elim c.wfp [
        | none ↦ run (unlink path) >> pure (some c)
        | some fp ↦ do run (fclose fp); run (unlink path); pure (some (record c { wfp = none }))
      ]
    ]
  ]

unfoldable pub cache_full : Option Cache → Bool
cache_full none = false
cache_full (some c) = c.widx == c.capacity
