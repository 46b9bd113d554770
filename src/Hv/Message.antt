-- ===== src/Hv/Message.antt =====
-- A message that starts a buffer, in `HV::write` of hv.cpp, on a host that runs out of nothing.
use socket_server.Prelude.{
  ℕ, ◌+◌, ◌^◌, ◌≤◌, ◌<◌, ◌≡◌, refl, ◌⊎◌, false, none, some, List, [], ◌∷◌, length, arith, ℤ, pos,
  ok, Returns, min, ◌++◌, ltb, if◌then◌else◌, append-nil, >>=-ok, subst,
}
use socket_server.Cache.{Stdio, to_mem, to_file}
use socket_server.Cache.Storage.{IsReliable}
use socket_server.Wire.{Header, bytes_of_header}
use socket_server.Hv.{Hv, default_max_memory_cache, write_head, write_value, write_rest, write}
use socket_server.Hv.Head.{encode, IsWord, headed, write_head-whole}
use socket_server.Hv.Value.{IsPart, IsDone, write_value-Received}

-- Nothing of a message has arrived, and no cache is held.
pub record IsStart (m : Hv) : Type 0 where
  pub no_head : m.hlen ≡ 0
  pub head_open : m.head_complete ≡ false
  pub value_open : m.value_complete ≡ false
  pub no_value : m.value ≡ none

-- What a write returns that begins with the header `h`, with `k` bytes behind it.
pub record Taken (h : Header) (k : ℕ) (r : Hv × ℤ) : Type 0 where
  pub count : r.1 ≡ pos (8 + min k h.length)
  pub header_read : r.0.header ≡ h
  pub storage : r.0.to ≡ some (if ltb h.length default_max_memory_cache then to_mem else to_file)
  pub state : ((k < h.length) × IsPart r.0 k) ⊎ ((h.length ≤ k) × IsDone r.0)

pub headed-IsPart : (m : Hv) (h : Header) → IsStart m → IsWord h → IsPart (headed m h) 0
headed-IsPart m h s p = record {
  head_whole = refl;
  head_done = refl;
  value_open = s.value_open;
  value_part = ground arith;
  part_le = omega arith;
  length_lt = p.1;
}

module _ {W : Type 0} (host : Stdio W) where
  -- After the header `write` goes on with what is behind it.
  pub write-headed :
      (m : Hv) (h : Header) (rest : List ℕ) (w : W)
      → IsWord h
      → m.hlen ≡ 0
      → m.head_complete ≡ false
      → write host m (encode h ++ rest) w ≡ write_rest host (headed m h) (pos 8) rest w
  unfolding write bytes_of_header
  write-headed m h rest w p e f =
      >>=-ok (write_head m (encode h ++ rest)) _ (write_head-whole m h rest w p e f)

  -- A header with nothing behind it is taken, and leaves the message open, also if its value has no
  -- bytes and so is all there.
  pub write-head_only :
      (m : Hv) (h : Header) (w : W)
      → IsWord h
      → IsStart m
      → write host m (encode h) w ≡ ok ((headed m h, pos 8), w)
  unfolding write_rest write_value
  write-head_only m h w p s =
      subst (λ l. write host m l w ≡ ok ((headed m h, pos 8), w)) (append-nil (encode h))
        (write-headed m h [] w p s.no_head s.head_open)

  -- A message at the start of a buffer: of the bytes behind its header exactly those of its value are
  -- taken, the header is read in host order, and the message is complete exactly if they are all
  -- there. At least one byte has to stand behind the header, and less than 2 ^ 31.
  pub write-Taken :
      IsReliable host
      → (m : Hv) (h : Header) (rest : List ℕ) (w : W) → IsWord h
      → IsStart m
      → 0 < length rest
      → length rest < 2 ^ 31
      → Returns (write host m (encode h ++ rest) w) (λ r _. Taken h (length rest) r)
  unfolding write_rest
  write-Taken rel m h [] w p s l k = absurd (omega arith)
  write-Taken rel m h (b ∷ bs) w p s l k =
      rw (write-headed m h (b ∷ bs) w p s.no_head s.head_open) (
        ground
          (arith, write_value-Received host rel (headed m h) 0 b bs w (headed-IsPart m h s p) k))
