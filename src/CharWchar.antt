-- ===== src/CharWchar.antt =====
-- char_2_wchar/main.cpp: the conversions tried out on objects of the standard library, with what they
-- print. It runs on Windows; the C library is that of `Cp.Windows.Text`.
pub mod Keep
use socket_server.Prelude.{ℕ, zero, suc, ◌+◌, ◌*◌, List, [], ◌∷◌, ◌++◌, length}
use socket_server.Cp.Windows.Text.{Crt, sizeof_wchar}

-- A line of the output. Where a wide text is printed on `cout`, it shows the address of it.
pub data Line : Type 0 where
  ws_size : ℕ → Line
  converted_chars : ℕ → Line
  to_str : List ℕ → Line
  s_size : ℕ → Line
  wide_converted_chars : ℕ → Line
  to_wide : List ℕ → Line

-- What a function of the C library sees of the characters of an object.
unfoldable pub c_str : List ℕ → List ℕ
c_str [] = []
c_str (zero ∷ cs) = []
c_str (suc c ∷ cs) = suc c ∷ c_str cs

-- The lines printed and the text returned.
unfoldable pub wstr_2_str : Crt → List ℕ → List Line × List ℕ
unfolding c_str
wstr_2_str crt ws =
    let r = crt.wcstombs_s (sizeof_wchar * length ws + 1) (c_str ws) in
    (ws_size (length ws) ∷ converted_chars r.0 ∷ [], r.1)

unfoldable pub str_2_wstr : Crt → List ℕ → List Line × List ℕ
unfolding c_str
str_2_wstr crt s =
    let r = crt.mbstowcs_s (length s + 1) (c_str s) in
    (s_size (length s) ∷ wide_converted_chars r.0 ∷ [], r.1)

abbrev letters : List ℕ
letters = b'A' ∷ b'B' ∷ b'C' ∷ b'D' ∷ b'E' ∷ b'F' ∷ b'G' ∷ []

unfoldable pub main : Crt → List Line
unfolding wstr_2_str str_2_wstr
main crt =
    let narrow = wstr_2_str crt letters in
    let wide = str_2_wstr crt letters in
    narrow.0 ++ to_str narrow.1 ∷ (wide.0 ++ to_wide letters ∷ [])
