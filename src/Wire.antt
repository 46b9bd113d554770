-- ===== src/Wire.antt =====
-- doc_ferry_server/inc/interface.h: the header of a message, and its bytes in memory and on the wire.
-- The host is little-endian, so `htonl` and `ntohl` turn the four bytes of a word round.
pub mod Bytes
use socket_server.Prelude.{ℕ, ◌+◌, ◌*◌, ◌/◌, ◌%◌, ◌^◌, List, [], ◌∷◌, ◌++◌, get_or}

-- iface::Header. `id` is an int32_t, of which the code moves only the bits.
pub record Header : Type 0 where
  pub id : ℕ
  pub length : ℕ

-- sizeof(iface::Header), packed
abbrev pub header_size : ℕ
header_size = 8

-- iface::State
pub data State : Type 0 where
  state_ok data_error connection_error internal_error : State

-- The enumerator's value.
unfoldable pub state_code : State → ℕ
state_code state_ok = 0
state_code data_error = 1
state_code connection_error = 2
state_code internal_error = 3

-- A 32-bit word in memory, lowest byte first, and back.
unfoldable pub bytes_of_word : ℕ → List ℕ
bytes_of_word n = n % 256 ∷ n / 256 % 256 ∷ n / 65536 % 256 ∷ n / 16777216 % 256 ∷ []

unfoldable pub word_of_bytes : ℕ → ℕ → ℕ → ℕ → ℕ
word_of_bytes a b c d = a + 256 * b + 65536 * c + 16777216 * d

-- The word that four bytes of memory hold.
unfoldable pub word_of_bytes_list : List ℕ → ℕ
unfolding word_of_bytes
word_of_bytes_list bs =
    word_of_bytes (get_or bs 0 0) (get_or bs 1 0) (get_or bs 2 0) (get_or bs 3 0)

unfoldable pub ntohl : ℕ → ℕ
unfolding word_of_bytes
ntohl n = word_of_bytes (n / 16777216 % 256) (n / 65536 % 256) (n / 256 % 256) (n % 256)

unfoldable pub htonl : ℕ → ℕ
unfolding ntohl
htonl n = ntohl n

-- The memory of a header, and the header that a memory holds.
unfoldable pub bytes_of_header : Header → List ℕ
unfolding bytes_of_word
bytes_of_header h = bytes_of_word h.id ++ bytes_of_word h.length

unfoldable pub header_of_bytes : List ℕ → Header
unfolding word_of_bytes
header_of_bytes bs = record {
  id = word_of_bytes (get_or bs 0 0) (get_or bs 1 0) (get_or bs 2 0) (get_or bs 3 0);
  length = word_of_bytes (get_or bs 4 0) (get_or bs 5 0) (get_or bs 6 0) (get_or bs 7 0);
}
