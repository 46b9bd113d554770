-- ===== src/Wire/Bytes.antt =====
-- Byte order: a header that one side turns to network order is read back by the other.
use socket_server.Prelude.{ℕ, ◌/◌, ◌%◌, ◌^◌, ◌<◌, ◌≡◌, refl, length, arith}
use socket_server.Wire.{Header, word_of_bytes, ntohl, htonl, bytes_of_header, header_of_bytes}

-- `ntohl` undoes `htonl` on every 32-bit word.
pub ntohl-htonl : (n : ℕ) → n < 2 ^ 32 → ntohl (htonl n) ≡ n
unfolding ntohl htonl
ntohl-htonl n h = omega arith

pub ntohl-lt : (n : ℕ) → ntohl n < 2 ^ 32
unfolding ntohl
ntohl-lt n = omega arith

pub word_of_bytes-bytes_of_word :
    (n : ℕ)
    → n < 2 ^ 32
    → word_of_bytes (n % 256) (n / 256 % 256) (n / 65536 % 256) (n / 16777216 % 256) ≡ n
unfolding word_of_bytes
word_of_bytes-bytes_of_word n h = omega arith

pub header_of_bytes-bytes_of_header :
    (h : Header) → h.id < 2 ^ 32 → h.length < 2 ^ 32 → header_of_bytes (bytes_of_header h) ≡ h
unfolding header_of_bytes bytes_of_header
header_of_bytes-bytes_of_header h p q = ground arith

pub length-bytes_of_header : (h : Header) → length (bytes_of_header h) ≡ 8
unfolding bytes_of_header
length-bytes_of_header h = refl
