-- ===== src/Hv/Frame.antt =====
-- What every method of hv.cpp keeps: whatever the host keeps.
use socket_server.Prelude.{ℕ, ℤ, List, [], ◌∷◌, Option, none, some, Keeps, keeps_rules, arith}
use socket_server.Cache.{Stdio, Cache, to_file}
use socket_server.Cache.Frame.{
  HostKeeps, leave_cache-Keeps, create_cache-Keeps, cache_push-Keeps, delete_cache-Keeps,
}
use socket_server.Wire.{Header}
use socket_server.Hv.{
  Hv, write_head, clear, value_cache, push_value, push_into, write_value, write_rest, write,
  discard, stored, store_into, write_message,
}

module _ {W : Type 0} (host : Stdio W) {P : W → Type 0} (k : HostKeeps host P) where
  write_head-Keeps : (m : Hv) (p_data : List ℕ) → Keeps P (write_head m p_data)
  unfolding write_head
  write_head-Keeps m [] = search keeps_rules
  write_head-Keeps m (b ∷ bs) = record { at = λ w h. ground arith }

  pub clear-Keeps : (m : Hv) → Keeps P (clear host m)
  unfolding clear
  clear-Keeps m = record { at = λ w h. ground (arith, (leave_cache-Keeps host k m.value).at w h) }

  value_cache-Keeps : (m : Hv) → Keeps P (value_cache host m)
  unfolding value_cache
  value_cache-Keeps m = record {
    at = λ w h. ground (arith, (create_cache-Keeps host k none m.header.length to_file).at w h);
  }

  push_into-Keeps :
      (m : Hv) (p_data : List ℕ) (o : Option Cache) → Keeps P (push_into host m p_data o)
  unfolding push_into push_value
  push_into-Keeps m p_data none = search keeps_rules
  push_into-Keeps m p_data (some c) = search (keeps_rules, cache_push-Keeps host k)

  write_value-Keeps : (m : Hv) (p_data : List ℕ) → Keeps P (write_value host m p_data)
  unfolding write_value
  write_value-Keeps m [] = search keeps_rules
  write_value-Keeps m (b ∷ bs) = search (keeps_rules, value_cache-Keeps, push_into-Keeps)

  pub write-Keeps : (m : Hv) (p_data : List ℕ) → Keeps P (write host m p_data)
  unfolding write write_rest
  write-Keeps m p_data = search (keeps_rules, write_head-Keeps, write_value-Keeps)

  stored-Keeps : (m : Hv) (pushed : Cache × ℤ) (n : ℕ) → Keeps P (stored host m pushed n)
  unfolding stored discard
  stored-Keeps m pushed n =
      search (keeps_rules, delete_cache-Keeps host k, leave_cache-Keeps host k)

  store_into-Keeps :
      (m : Hv) (header : Header) (value : List ℕ) (o : Option Cache)
      → Keeps P (store_into host m header value o)
  unfolding store_into
  store_into-Keeps m header value none = search keeps_rules
  store_into-Keeps m header value (some c) =
      search (keeps_rules, cache_push-Keeps host k, stored-Keeps)

  pub write_message-Keeps :
      (m : Hv) (header : Header) (value : List ℕ) → Keeps P (write_message host m header value)
  unfolding write_message
  write_message-Keeps m header value = search (
    keeps_rules,
    delete_cache-Keeps host k,
    leave_cache-Keeps host k,
    create_cache-Keeps host k,
    store_into-Keeps,
  )
