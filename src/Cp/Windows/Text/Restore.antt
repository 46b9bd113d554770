-- ===== src/Cp/Windows/Text/Restore.antt =====
-- `wstr_2_str` and `str_2_wstr` of cp_socket.cpp: what they keep of a text.
use socket_server.Prelude.{
  ℕ, ◌+◌, ◌*◌, ◌<◌, ◌≤◌, ◌≡◌, ◌↔◌, ap, subst, Bool, true, ◌&&◌, some, List, [], ◌∷◌, ◌++◌, length,
  length-append, arith,
}
use socket_server.Cp.Windows.Text.{Crt, wstr_2_str, str_2_wstr}

-- The bytes of a wide text.
abbrev pub encoded : (ℕ → List ℕ) → List ℕ → List ℕ
encoded bytes [] = []
encoded bytes (c ∷ cs) = bytes c ++ encoded bytes cs

-- The locale has every character of the text.
abbrev pub all : (ℕ → Bool) → List ℕ → Bool
all has [] = true
all has (c ∷ cs) = has c && all has cs

-- The C library in a locale that has the characters `has`, `bytes` being the bytes of each, one at
-- least: what fits is converted, and the result has room for its terminator.
pub record IsLocale (crt : Crt) (has : ℕ → Bool) (bytes : ℕ → List ℕ) : Type 0 where
  pub some_byte : (c : ℕ) → has c ≡ true → 1 ≤ length (bytes c)
  pub narrow :
      (size : ℕ) (ws : List ℕ)
      → all has ws ≡ true
      → length (encoded bytes ws) < size
      → crt.wcstombs_s size ws ≡ (length (encoded bytes ws) + 1, encoded bytes ws)
  pub room : (size : ℕ) (ws : List ℕ) → 0 < size → length (crt.wcstombs_s size ws).1 < size
  pub widen :
      (size : ℕ) (ws : List ℕ)
      → all has ws ≡ true
      → length ws < size
      → crt.mbstowcs_s size (encoded bytes ws) ≡ (length ws + 1, ws)

module _ {crt : Crt} {has : ℕ → Bool} {bytes : ℕ → List ℕ} (locale : IsLocale crt has bytes) where
  pub length_le : (ws : List ℕ) → all has ws ≡ true → length ws ≤ length (encoded bytes ws)
  length_le [] known = omega arith
  length_le (c ∷ cs) known =
      let both : (has c ≡ true) × (all has cs ≡ true) = ground arith in
      omega (
        arith,
        length-append (bytes c) (encoded bytes cs),
        locale.some_byte c both.0,
        length_le cs both.1,
      )

  -- For a text of characters of the locale: `wstr_2_str` gives all of its bytes if and only if these
  -- are at most two for each character; its result is never longer than that; and `str_2_wstr` turns all
  -- of the bytes back into the text.
  pub str_2_wstr-wstr_2_str :
      (ws : List ℕ)
      → all has ws ≡ true
      → ((wstr_2_str crt (some ws) ≡ encoded bytes ws)
          ↔ (length (encoded bytes ws) ≤ 2 * length ws))
        × (length (wstr_2_str crt (some ws)) ≤ 2 * length ws)
        × (str_2_wstr crt (some (encoded bytes ws)) ≡ ws)
  unfolding wstr_2_str str_2_wstr
  str_2_wstr-wstr_2_str ws known =
      let short : length (wstr_2_str crt (some ws)) ≤ 2 * length ws =
        omega (arith, locale.room (2 * length ws + 1) ws (omega arith)) in
      (
        (
          (λ whole. subst (λ l. length l ≤ 2 * length ws) whole short),
          (λ few. ap (λ r. r.1) (locale.narrow (2 * length ws + 1) ws known (omega (arith, few)))),
        ),
        short,
        ap (λ r. r.1)
            (locale.widen (length (encoded bytes ws) + 1) ws known
              (omega (arith, length_le ws known))),
      )
