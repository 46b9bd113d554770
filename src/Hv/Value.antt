-- ===== src/Hv/Value.antt =====
-- The value's bytes in `HV::write` of hv.cpp, on a host that runs out of nothing: however a value is
-- cut into reads, it is complete at its last byte.
use socket_server.Prelude.{
  ℕ, ◌+◌, ◌-◌, ◌^◌, ◌≤◌, ◌<◌, ◌≡◌, refl, ◌⊎◌, true, false, Option, none, some, List, ◌∷◌, length,
  arith, ℤ, pos, ok, Returns, Returns->>=, min,
}
use socket_server.Cache.{Stdio, Cache, cache_full, to_file, create_cache}
use socket_server.Cache.Storage.{IsReliable, IsFile, IsThere, create_cache-IsThere, push-IsFile}
use socket_server.Hv.{Hv, write_head, value_cache, push_value, push_into, write_value, write}

-- The value of a message of which `n` bytes have arrived.
abbrev pub IsValue : Option Cache → ℕ → ℕ → Type 0
IsValue none capacity n = n ≡ 0
IsValue (some c) capacity n = IsFile c capacity n

-- The header is there, and the value is still to come or partly here.
pub record IsPart (m : Hv) (n : ℕ) : Type 0 where
  pub head_whole : m.hlen ≡ 8
  pub head_done : m.head_complete ≡ true
  pub value_open : m.value_complete ≡ false
  pub value_part : IsValue m.value m.header.length n
  pub part_le : n ≤ m.header.length
  pub length_lt : m.header.length < 2 ^ 32

pub record IsDone (m : Hv) : Type 0 where
  pub head_done : m.head_complete ≡ true
  pub value_done : m.value_complete ≡ true
  pub value_whole : IsValue m.value m.header.length m.header.length

-- What a write of `k` bytes returns, from a message with `n` bytes of its value.
pub record Received (m : Hv) (n k : ℕ) (r : Hv × ℤ) : Type 0 where
  pub count : r.1 ≡ pos (min k (m.header.length - n))
  pub same_header : r.0.header ≡ m.header
  pub same_storage : r.0.to ≡ m.to
  pub state :
      ((k < m.header.length - n) × IsPart r.0 (n + k)) ⊎ ((m.header.length - n ≤ k) × IsDone r.0)

module _ {W : Type 0} (host : Stdio W) (rel : IsReliable host) where
  push_value-Received :
      (m : Hv) (c : Cache) (n : ℕ) (p_data : List ℕ) (w : W)
      → IsPart m n
      → IsFile c m.header.length n
      → length p_data < 2 ^ 31
      → Returns (push_value host m c p_data w) (λ r _. Received m n (length p_data) r)
  unfolding push_value cache_full
  push_value-Received m c n p_data w v f h =
      ground (arith, push-IsFile host rel c m.header.length n p_data w f v.part_le v.length_lt h)

  push_into-Received :
      (m : Hv) (n : ℕ) (p_data : List ℕ) (cache : Option Cache) (w : W)
      → IsPart m n
      → IsThere cache m.header.length n
      → length p_data < 2 ^ 31
      → Returns (push_into host m p_data cache w) (λ r _. Received m n (length p_data) r)
  unfolding push_into
  push_into-Received m n p_data none w v f h = absurd f
  push_into-Received m n p_data (some c) w v f h = push_value-Received m c n p_data w v f h

  value_cache-IsThere :
      (m : Hv) (n : ℕ) (w : W) (value : Option Cache)
      → m.value ≡ value
      → IsPart m n
      → Returns (value_cache host m w) (λ r _. IsThere r m.header.length n)
  unfolding value_cache
  value_cache-IsThere m n w none e v =
      let n-zero : n ≡ 0 = rw e at v.value_part in
      let made : value_cache host m w ≡ create_cache host none m.header.length to_file w =
        ground arith in
      rw (made, n-zero) (create_cache-IsThere host rel m.header.length w)
  value_cache-IsThere m n w (some c) e v =
      let part : IsFile c m.header.length n = rw e at v.value_part in
      let kept : value_cache host m w ≡ ok (some c, w) = ground arith in rw kept part

  pub write_value-Received :
      (m : Hv) (n b : ℕ) (bs : List ℕ) (w : W)
      → IsPart m n
      → length (b ∷ bs) < 2 ^ 31
      → Returns (write_value host m (b ∷ bs) w) (λ r _. Received m n (length (b ∷ bs)) r)
  unfolding write_value
  write_value-Received m n b bs w v h = simp v.head_done (
      Returns->>= (value_cache host m) (push_into host m (b ∷ bs))
        (λ r _. IsThere r m.header.length n) _ w (value_cache-IsThere m n w m.value refl v)
        (λ r w' f. push_into-Received m n (b ∷ bs) r w' v f h))

  -- A read of any size below 2 ^ 31, when the header is there, takes from it what is left of the value,
  -- says how much that was, and completes the message exactly if all of it is there; the header and
  -- the storage mode stay. It meets no undefined behaviour.
  pub write-Received :
      (m : Hv) (n b : ℕ) (bs : List ℕ) (w : W)
      → IsPart m n
      → length (b ∷ bs) < 2 ^ 31
      → Returns (write host m (b ∷ bs) w) (λ r _. Received m n (length (b ∷ bs)) r)
  unfolding write write_head
  write-Received m n b bs w v h = ground (arith, write_value-Received m n b bs w v h)
