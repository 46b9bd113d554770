-- ===== src/WindowsScenarios.antt =====
-- The theorems on the Windows build at concrete inputs.
use socket_server.Prelude.{
  ℕ, zero, suc, ◌+◌, ◌-◌, ◌%◌, ◌/◌, ap, sym, ◌∙◌, subst, ◌*◌, ◌<◌, ◌≤◌, ◌≡◌, ◌↔◌, refl, Bool, true,
  false, some, List, [], ◌∷◌, length, take, length-take, take_all, arith, pos, negsuc, to_ℕ,
}
use socket_server.Cache.Clock.{
  LocalClock, IsCalendar, IsAt, printed_lu, gettimeofday, gettimeofday-millisecond,
}
use socket_server.Cp.{Net, other_error, str_eq}
use socket_server.Cp
use socket_server.Cp.Windows.{Winsock, cp_bind, cp_connect}
use socket_server.Cp.Windows.Agree.{Parses, cp_bind-agrees}
use socket_server.Cp.Windows.Text.{Crt, wstr_2_str, str_2_wstr}
use socket_server.Cp.Windows.Text.Restore.{IsLocale, encoded, all, str_2_wstr-wstr_2_str}
use socket_server.CharWchar.Keep.{nonzero, wstr_2_str-printed}
use socket_server.CharWchar.{ws_size, converted_chars, s_size, wide_converted_chars, c_str}
use socket_server.CharWchar

-- A network on which every host has the address 7.
abbrev desk : Net ℕ
desk = record {
  errno = λ w. other_error;
  socket = λ af type protocol w. (pos 3, w);
  bind = λ sock addr w. (pos 0, suc w);
  listen = λ sock n w. (pos 0, w);
  connect = λ sock addr w. (pos 0, suc w);
  accept = λ sock w. ((pos 4, record { family = 2; port = 9; host = 7 }), w);
  send = λ sock bytes flags w. (pos (length bytes), w);
  recv = λ sock n flags w. ((pos 0, []), w);
  get_flags = λ sock w. (record { nonblock = false; fixed = 2; rest = 0 }, w);
  set_flags = λ sock mode w. (pos 0, w);
  close = λ sock w. w;
  getpeername = λ sock w. ((pos 0, record { family = 2; port = 9; host = 7 }), w);
  getsockopt = λ sock w. (pos 0, w);
  inet_pton = λ host w. ((pos 1, 7), w);
  inet_ntop = λ addr n w. (some (b'7' ∷ []), w);
  select = λ r w e timeout v. ((pos 0, [], [], []), v);
  usleep = λ n w. w;
}

abbrev winsock : Winsock ℕ
winsock = record {
  wsa_startup = λ w. (pos 0, w);
  wsa_cleanup = λ w. w;
  inet_ntoa = λ addr w. (b'7' ∷ [], w);
  inet_addr = λ host w. (7, w);
  ioctlsocket = λ sock mode w. (pos 0, w);
  closesocket = λ sock w. w;
}

desk-Parses : Parses desk winsock (b'7' ∷ []) 7 0
unfolding str_eq
desk-Parses = record { named = refl; inet_pton = refl; inet_addr = refl }

cp_bind-agrees_example :
    (cp_bind desk winsock (pos 3) 2 (some (b'7' ∷ [])) 80 0
      ≡ Cp.cp_bind desk (pos 3) 2 (some (b'7' ∷ [])) 80 0)
    × (cp_connect desk winsock (pos 3) 2 (some (b'7' ∷ [])) 80 0
        ≡ Cp.cp_connect desk (pos 3) 2 (some (b'7' ∷ [])) 80 0)
cp_bind-agrees_example = cp_bind-agrees desk winsock (pos 3) 2 80 (b'7' ∷ []) 7 0 desk-Parses

-- Every character but the terminator has one byte, and what does not fit is cut off.
abbrev ascii : Crt
ascii = record {
  wcstombs_s = λ size ws. (length (take (size - 1) ws) + 1, take (size - 1) ws);
  mbstowcs_s = λ size s. (length (take (size - 1) s) + 1, take (size - 1) s);
}

abbrev one_byte : ℕ → List ℕ
one_byte c = c ∷ []

abbrev is_char : ℕ → Bool
is_char zero = false
is_char (suc c) = true

encoded_same : (ws : List ℕ) → encoded one_byte ws ≡ ws
encoded_same [] = refl
encoded_same (c ∷ cs) = ap (λ l. c ∷ l) (encoded_same cs)

fits :
    (size : ℕ) (ws : List ℕ)
    → length ws < size
    → ◌≡◌ {A = ℕ × List ℕ} (length (take (size - 1) ws) + 1, take (size - 1) ws) (length ws + 1, ws)
fits size ws l = ap (λ t. (length t + 1, t)) (take_all (size - 1) ws (omega arith))

ascii-IsLocale : IsLocale ascii is_char one_byte
ascii-IsLocale = record {
  some_byte = λ c h. omega arith;
  narrow = λ size ws h l.
      fits size ws (subst (λ t. length t < size) (encoded_same ws) l)
      ∙ ap (λ t. (length t + 1, t)) (sym (encoded_same ws));
  room = λ size ws h. omega (arith, length-take (size - 1) ws);
  widen = λ size ws h l. rw (encoded_same ws) (fits size ws l);
}

-- AB
abbrev letters : List ℕ
letters = b'A' ∷ b'B' ∷ []

str_2_wstr-wstr_2_str_example :
    ((wstr_2_str ascii (some letters) ≡ encoded one_byte letters) ↔ (2 ≤ 4))
    × (length (wstr_2_str ascii (some letters)) ≤ 4)
    × (str_2_wstr ascii (some (encoded one_byte letters)) ≡ letters)
str_2_wstr-wstr_2_str_example = str_2_wstr-wstr_2_str ascii-IsLocale letters refl

one_byte-plain : (c : ℕ) → is_char c ≡ true → all nonzero (one_byte c) ≡ true
one_byte-plain zero h = absurd (ground arith)
one_byte-plain (suc c) h = refl

-- AB, a terminator and another A
abbrev cut : List ℕ
cut = b'A' ∷ b'B' ∷ 0 ∷ b'A' ∷ []

wstr_2_str-printed_example :
    (CharWchar.wstr_2_str ascii cut ≡ (ws_size 4 ∷ converted_chars 3 ∷ [], letters))
    × (CharWchar.str_2_wstr ascii letters ≡ (s_size 2 ∷ wide_converted_chars 3 ∷ [], letters))
unfolding c_str
wstr_2_str-printed_example = wstr_2_str-printed ascii-IsLocale one_byte-plain cut refl (omega arith)

-- The second with which 2038 starts.
abbrev start : ℕ
start = 2145916800

-- Seconds since 1970 in a calendar whose years have 365 days, but for 17 leap days before 2038, and
-- whose months have 31.
unfoldable seconds_of : ℕ → ℕ → ℕ → ℕ → ℕ → ℕ → ℕ
seconds_of year month day hour minute second =
    ((year - 1970) * 365 + 17 + (month - 1) * 31 + (day - 1)) * 86400
    + hour * 3600
    + minute * 60
    + second

-- A clock that counts milliseconds from the start of 2038, in one month of days without end.
abbrev clock : LocalClock ℕ
clock = record {
  get_local_time = λ w. (
    record {
      year = 2038;
      month = 1;
      day = 1 + w / 86400000;
      hour = w / 3600000 % 24;
      minute = w / 60000 % 60;
      second = w / 1000 % 60;
      milliseconds = w % 1000;
    },
    w,
  );
  mktime = λ tm w. (
    pos (
        seconds_of (to_ℕ tm.tm_year + 1900) (to_ℕ tm.tm_mon + 1) tm.tm_mday tm.tm_hour tm.tm_min
          tm.tm_sec),
    w,
  );
}

clock-IsCalendar : IsCalendar clock seconds_of
unfolding seconds_of
clock-IsCalendar = record {
  month_ge = λ w. omega arith;
  fraction = λ w. omega arith;
  mktime = λ years months day hour minute second w h. ap pos (omega arith);
}

clock-IsAt : (w : ℕ) → w < 86400000000 → IsAt clock seconds_of (start * 1000 + w) w
unfolding seconds_of
clock-IsAt w h = record {
  year_ge = omega arith;
  in_range = omega (arith, h);
  together = omega arith;
}

-- A time after 2 ^ 31 seconds, and one before.
gettimeofday-millisecond_example :
    ((gettimeofday clock 1566849500).0.0 ≡ negsuc 2147483646)
    × (printed_lu (gettimeofday clock 1566849500).0.0 * 1000000
          + (gettimeofday clock 1566849500).0.1
        ≡ 2147483649500000)
    × ((gettimeofday clock 1566849500).0.1 < 1000000)
    × (((gettimeofday clock 1566849500).0 ≡ (gettimeofday clock 1566846500).0)
        ↔ (◌≡◌ {A = ℕ} 2147483649500 2147483646500))
gettimeofday-millisecond_example =
    gettimeofday-millisecond clock seconds_of clock-IsCalendar 2147483649500 2147483646500
      1566849500 1566846500 (clock-IsAt 1566849500 (omega arith))
      (clock-IsAt 1566846500 (omega arith))
