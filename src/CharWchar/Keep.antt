-- ===== src/CharWchar/Keep.antt =====
-- char_2_wchar/main.cpp: what the two conversions keep of a text.
use socket_server.Prelude.{
  ℕ, zero, suc, ◌+◌, ◌*◌, ◌≤◌, ◌≡◌, refl, ap, Bool, true, false, List, [], ◌∷◌, ◌++◌, length, arith,
}
use socket_server.Cp.Windows.Text.{Crt}
use socket_server.Cp.Windows.Text.Restore.{encoded, all, IsLocale, length_le}
use socket_server.CharWchar.{
  ws_size, converted_chars, s_size, wide_converted_chars, c_str, wstr_2_str, str_2_wstr,
}

abbrev pub nonzero : ℕ → Bool
nonzero zero = false
nonzero (suc c) = true

c_str-whole : (s : List ℕ) → all nonzero s ≡ true → c_str s ≡ s
unfolding c_str
c_str-whole [] h = refl
c_str-whole (zero ∷ cs) h = ground arith
c_str-whole (suc c ∷ cs) h = ap (λ l. suc c ∷ l) (c_str-whole cs h)

all-append :
    (has : ℕ → Bool) (a b : List ℕ) → all has a ≡ true → all has b ≡ true → all has (a ++ b) ≡ true
all-append has [] b ha hb = hb
all-append has (c ∷ cs) b ha hb = let h = all-append has cs b in ground arith

length-c_str : (s : List ℕ) → length (c_str s) ≤ length s
unfolding c_str
length-c_str [] = omega arith
length-c_str (zero ∷ cs) = omega arith
length-c_str (suc c ∷ cs) = omega (arith, length-c_str cs)

module _ {crt : Crt} {has : ℕ → Bool} {bytes : ℕ → List ℕ} (locale : IsLocale crt has bytes)
    (plain : (c : ℕ) → has c ≡ true → all nonzero (bytes c) ≡ true) where
  encoded-nonzero : (ws : List ℕ) → all has ws ≡ true → all nonzero (encoded bytes ws) ≡ true
  encoded-nonzero [] h = refl
  encoded-nonzero (c ∷ cs) h =
      let both : (has c ≡ true) × (all has cs ≡ true) = ground arith in
      all-append nonzero (bytes c) (encoded bytes cs) (plain c both.0) (encoded-nonzero cs both.1)

  -- For a wide text whose characters before its first zero are those of a locale in which no other
  -- character has a zero byte, and whose bytes are at most two for each character of the whole:
  -- `wstr_2_str` prints the size of the whole text and the number of bytes with the terminator, and
  -- returns the bytes; `str_2_wstr` of these prints their number and that of the characters with the
  -- terminator, and returns the characters before the first zero.
  pub wstr_2_str-printed :
      (ws : List ℕ)
      → all has (c_str ws) ≡ true
      → length (encoded bytes (c_str ws)) ≤ 2 * length ws
      → (wstr_2_str crt ws ≡ (
        ws_size (length ws) ∷ converted_chars (length (encoded bytes (c_str ws)) + 1) ∷ [],
        encoded bytes (c_str ws),
      ))
        × (str_2_wstr crt (encoded bytes (c_str ws)) ≡ (
          s_size (length (encoded bytes (c_str ws)))
              ∷ wide_converted_chars (length (c_str ws) + 1)
              ∷ [],
          c_str ws,
        ))
  unfolding wstr_2_str str_2_wstr
  wstr_2_str-printed ws known few =
      let kept = locale.narrow (2 * length ws + 1) (c_str ws) known (omega (arith, few)) in
      let whole = c_str-whole (encoded bytes (c_str ws)) (encoded-nonzero (c_str ws) known) in
      let back =
        locale.widen (length (encoded bytes (c_str ws)) + 1) (c_str ws) known
          (omega (arith, length_le locale (c_str ws) known)) in
      (rw (wstr_2_str, kept) refl, rw (str_2_wstr, whole, back) refl)
