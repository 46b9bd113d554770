-- ===== src/Hv/Head.antt =====
-- The header's bytes in `HV::write_head` of hv.cpp: received in one piece, and split over two reads.
use socket_server.Prelude.{
  ℕ, suc, ◌^◌, ◌≤◌, ◌<◌, ◌≡◌, true, false, some, List, [], ◌∷◌, ◌++◌, length, ltb, if◌then◌else◌,
  arith, pos, ok, ub, out_of_bounds, ◌∙◌,
}
use socket_server.Cache.{Stdio, to_mem, to_file}
use socket_server.Wire.{Header, header_size, bytes_of_header, header_of_bytes, htonl}
use socket_server.Wire.Bytes.{ntohl-htonl, header_of_bytes-bytes_of_header, ntohl-lt}
use socket_server.Hv.{Hv, default_max_memory_cache, head_written, write_head, write}

-- The header as it goes over the wire.
unfoldable pub wire : Header → Header
wire h = record { id = htonl h.id; length = htonl h.length }

abbrev pub encode : Header → List ℕ
encode h = bytes_of_header (wire h)

abbrev pub IsWord : Header → Type 0
IsWord h = (h.id < 2 ^ 32) × (h.length < 2 ^ 32)

-- The message once its header is there.
abbrev pub headed : Hv → Header → Hv
headed m h = record m {
  to = some (if ltb h.length default_max_memory_cache then to_mem else to_file);
  header = h;
  hlen = 8;
  head_complete = true;
}

head_written-headed :
    (m : Hv) (h : Header)
    → IsWord h
    → m.head_complete ≡ false
    → head_written (record m { header = wire h; hlen = 8 }) ≡ headed m h
unfolding head_written wire
head_written-headed m h p e = ground (arith, ntohl-htonl h.id p.0, ntohl-htonl h.length p.1)

pub header_of_bytes-encode : (h : Header) → header_of_bytes (encode h) ≡ wire h
unfolding wire htonl
header_of_bytes-encode h =
    header_of_bytes-bytes_of_header (wire h) (ntohl-lt h.id) (ntohl-lt h.length)

not-ltb : (n k : ℕ) → k ≤ n → ltb n k ≡ false
not-ltb n k h = ground arith

eight_plus : List ℕ → ℕ
eight_plus rest = suc (suc (suc (suc (suc (suc (suc (suc (length rest))))))))

-- Eight bytes or more, at the start of a header.
write_head-eight :
    {W : Type 0} (m : Hv) (a b c d e f g h : ℕ) (rest : List ℕ) (w : W)
    → m.hlen ≡ 0
    → write_head m (a ∷ b ∷ c ∷ d ∷ e ∷ f ∷ g ∷ h ∷ rest) w
      ≡ ok (
        (
          head_written (record m {
            header = header_of_bytes (a ∷ b ∷ c ∷ d ∷ e ∷ f ∷ g ∷ h ∷ []);
            hlen = 8;
          }),
          pos 8,
        ),
        w,
      )
unfolding write_head bytes_of_header eight_plus
write_head-eight m a b c d e f g h rest w z =
    rw (z, not-ltb (eight_plus rest) 8 (omega arith)) (ground arith)

-- A header that arrives whole is taken whole, and read in host order, whatever the memory held.
pub write_head-whole :
    {W : Type 0} (m : Hv) (h : Header) (rest : List ℕ) (w : W)
    → IsWord h
    → m.hlen ≡ 0
    → m.head_complete ≡ false
    → write_head m (encode h ++ rest) w ≡ ok ((headed m h, pos 8), w)
unfolding write_head bytes_of_header
write_head-whole m h rest w p e f =
    write_head-eight m _ _ _ _ _ _ _ _ rest w e
    ∙ rw (header_of_bytes-encode h, head_written-headed m h p f)

-- A header of which a first part has arrived: the next byte is copied behind the header, so the write
-- is undefined, whatever the host and the data.
pub write-split :
    {W : Type 0} (host : Stdio W) (m : Hv) (b : ℕ) (bs : List ℕ) (w : W)
    → 0 < m.hlen
    → m.hlen < header_size
    → write host m (b ∷ bs) w ≡ ub out_of_bounds
unfolding write write_head bytes_of_header
write-split host m b bs w h k = ground arith
