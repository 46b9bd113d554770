-- ===== src/Cp/Windows/Text.antt =====
-- `wstr_2_str` and `str_2_wstr` of doc_ferry_server/src/cp_socket.cpp, in the Windows build: a wide text
-- as bytes and back. A text is the list of its characters before the terminator.
pub mod Restore
use socket_server.Prelude.{ℕ, zero, suc, ◌+◌, ◌*◌, Bool, Option, none, some, List, [], length}

-- What both functions call of the C library, with `_TRUNCATE` and the size of the destination, the
-- terminator counted: the number of characters written, the terminator counted, and the text.
pub record Crt : Type 0 where
  pub wcstombs_s : ℕ → List ℕ → ℕ × List ℕ
  pub mbstowcs_s : ℕ → List ℕ → ℕ × List ℕ

-- `sizeof(wchar_t)` of Windows
abbrev pub sizeof_wchar : ℕ
sizeof_wchar = 2

-- A null pointer gives an empty text.
unfoldable pub wstr_2_str : Crt → Option (List ℕ) → List ℕ
wstr_2_str crt none = []
wstr_2_str crt (some cws) = (crt.wcstombs_s (sizeof_wchar * length cws + 1) cws).1

unfoldable pub str_2_wstr : Crt → Option (List ℕ) → List ℕ
str_2_wstr crt none = []
str_2_wstr crt (some cstr) = (crt.mbstowcs_s (length cstr + 1) cstr).1
