-- ===== src/Keyboard.antt =====
-- root/orbit-kernel/util/ps2_keyboard.c and root/orbit-kernel/util/get_ascii_char.c: scan codes to
-- characters. The static variables are a record; characters are their codes; a `switch` that
-- returns is a table that is searched from the top, with what `default` returns behind it.
pub mod Keys
pub mod Laws
pub mod Polled
pub mod Echo
use relics.Keyboard.Keys.{
  key_code, key_0, key_1, key_2, key_3, key_4, key_5, key_6, key_7, key_8, key_9, key_a, key_b,
  key_backslash, key_c, key_comma, key_d, key_dot, key_e, key_equal, key_f, key_foreslhash, key_g,
  key_h, key_i, key_j, key_k, key_l, key_m, key_minus, key_n, key_o, key_p, key_q, key_r, key_s,
  key_semicolon, key_space, key_square_close_bracket, key_square_open_bracket, key_t, key_u, key_v,
  key_w, key_x, key_y, key_z,
}
use relics.Prelude.{ℕ, Bool, true, false, not, List, [], ◌∷◌, ◌&&◌, ◌||◌, ◌==◌, if◌then◌else◌}

pub record Keyboard : Type 0 where
  pub char_pressed_state : Bool
  pub most_recent_char : ℕ
  pub is_shifted : Bool
  pub is_alted : Bool
  pub is_ctrled : Bool
  pub is_caps_locked : Bool

unfoldable pub add_character_pressed : Keyboard → Keyboard
add_character_pressed k = record k { char_pressed_state = not k.char_pressed_state }

unfoldable pub add_most_recent_char : ℕ → Keyboard → Keyboard
add_most_recent_char c k = record k { most_recent_char = c }

unfoldable pub get_most_recent_char : Keyboard → ℕ × Keyboard
get_most_recent_char k = (k.most_recent_char, record k { most_recent_char = 0 })

unfoldable pub switch : ℕ → List (ℕ × ℕ) → ℕ
switch code [] = 0
switch code ((c, ch) ∷ cases) = if code == c then ch else switch code cases

-- The `switch` without shift: scan code and character.
abbrev pub plain_cases : List (ℕ × ℕ)
plain_cases =
    (1, 1)
    ∷ (2, b'1')
    ∷ (3, b'2')
    ∷ (4, b'3')
    ∷ (5, b'4')
    ∷ (6, b'5')
    ∷ (7, b'6')
    ∷ (8, b'7')
    ∷ (9, b'8')
    ∷ (10, b'9')
    ∷ (11, b'0')
    ∷ (12, 45)
    ∷ (13, 61)
    ∷ (14, 8)
    ∷ (15, 9)
    ∷ (16, b'q')
    ∷ (17, b'w')
    ∷ (18, b'e')
    ∷ (19, b'r')
    ∷ (20, b't')
    ∷ (21, b'y')
    ∷ (22, b'u')
    ∷ (23, b'i')
    ∷ (24, b'o')
    ∷ (25, b'p')
    ∷ (26, 91)
    ∷ (27, 93)
    ∷ (28, 10)
    ∷ (30, b'a')
    ∷ (31, b's')
    ∷ (32, b'd')
    ∷ (33, b'f')
    ∷ (34, b'g')
    ∷ (35, b'h')
    ∷ (36, b'j')
    ∷ (37, b'k')
    ∷ (38, b'l')
    ∷ (39, 59)
    ∷ (40, 39)
    ∷ (41, 96)
    ∷ (43, 92)
    ∷ (44, b'z')
    ∷ (45, b'x')
    ∷ (46, b'c')
    ∷ (47, b'v')
    ∷ (48, b'b')
    ∷ (49, b'n')
    ∷ (50, b'm')
    ∷ (51, 44)
    ∷ (52, 46)
    ∷ (53, 47)
    ∷ (57, 32)
    ∷ []

-- The `switch` with shift.
abbrev pub shifted_cases : List (ℕ × ℕ)
shifted_cases =
    (1, 1)
    ∷ (2, 33)
    ∷ (3, 64)
    ∷ (4, 35)
    ∷ (5, 36)
    ∷ (6, 37)
    ∷ (7, 94)
    ∷ (8, 38)
    ∷ (9, 42)
    ∷ (10, 40)
    ∷ (11, 41)
    ∷ (12, 95)
    ∷ (13, 43)
    ∷ (14, 8)
    ∷ (15, 9)
    ∷ (16, b'Q')
    ∷ (17, b'W')
    ∷ (18, b'E')
    ∷ (19, b'R')
    ∷ (20, b'T')
    ∷ (21, b'Y')
    ∷ (22, b'U')
    ∷ (23, b'I')
    ∷ (24, b'O')
    ∷ (25, b'P')
    ∷ (26, 123)
    ∷ (27, 125)
    ∷ (28, 10)
    ∷ (30, b'A')
    ∷ (31, b'S')
    ∷ (32, b'D')
    ∷ (33, b'F')
    ∷ (34, b'G')
    ∷ (35, b'H')
    ∷ (36, b'J')
    ∷ (37, b'K')
    ∷ (38, b'L')
    ∷ (39, 58)
    ∷ (40, 34)
    ∷ (41, 126)
    ∷ (43, 124)
    ∷ (44, b'Z')
    ∷ (45, b'X')
    ∷ (46, b'C')
    ∷ (47, b'V')
    ∷ (48, b'B')
    ∷ (49, b'N')
    ∷ (50, b'M')
    ∷ (51, 60)
    ∷ (52, 62)
    ∷ (53, 63)
    ∷ (57, 32)
    ∷ []

-- The character of a scan code that is no modifier.
unfoldable pub printable : ℕ → Keyboard → ℕ
printable scan_code k =
    if not k.is_shifted && not k.is_caps_locked || k.is_shifted && k.is_caps_locked
    then switch scan_code plain_cases
    else if k.is_caps_locked || k.is_shifted
    then switch scan_code shifted_cases
    else 0

unfoldable pub to_character : ℕ → Keyboard → ℕ × Keyboard
to_character scan_code k =
    if scan_code == 0x3A
    then (0, record k { is_caps_locked = not k.is_caps_locked })
    else if scan_code == 0x38
    then (0, record k { is_alted = true })
    else if scan_code == 0xB8
    then (0, record k { is_alted = false })
    else if scan_code == 0x2A
    then (0, record k { is_shifted = true })
    else if scan_code == 0xAA
    then (0, record k { is_shifted = false })
    else if scan_code == 0x1D
    then (0, record k { is_ctrled = true })
    else if scan_code == 0x9D
    then (0, record k { is_ctrled = false })
    else (printable scan_code k, k)

-- The `switch` of `get_ascii_char`, with the key codes of keyboard.h.
abbrev pub ascii_cases : List (ℕ × ℕ)
ascii_cases =
    (key_code key_a, b'A')
    ∷ (key_code key_b, b'B')
    ∷ (key_code key_c, b'C')
    ∷ (key_code key_d, b'D')
    ∷ (key_code key_e, b'E')
    ∷ (key_code key_f, b'F')
    ∷ (key_code key_g, b'G')
    ∷ (key_code key_h, b'H')
    ∷ (key_code key_i, b'I')
    ∷ (key_code key_j, b'J')
    ∷ (key_code key_k, b'K')
    ∷ (key_code key_l, b'L')
    ∷ (key_code key_m, b'M')
    ∷ (key_code key_n, b'N')
    ∷ (key_code key_o, b'O')
    ∷ (key_code key_p, b'P')
    ∷ (key_code key_q, b'Q')
    ∷ (key_code key_r, b'R')
    ∷ (key_code key_s, b'S')
    ∷ (key_code key_t, b'T')
    ∷ (key_code key_u, b'U')
    ∷ (key_code key_v, b'V')
    ∷ (key_code key_w, b'W')
    ∷ (key_code key_x, b'X')
    ∷ (key_code key_y, b'Y')
    ∷ (key_code key_z, b'Z')
    ∷ (key_code key_1, b'1')
    ∷ (key_code key_2, b'2')
    ∷ (key_code key_3, b'3')
    ∷ (key_code key_4, b'4')
    ∷ (key_code key_5, b'5')
    ∷ (key_code key_6, b'6')
    ∷ (key_code key_7, b'7')
    ∷ (key_code key_8, b'8')
    ∷ (key_code key_9, b'9')
    ∷ (key_code key_0, b'0')
    ∷ (key_code key_minus, 45)
    ∷ (key_code key_equal, 61)
    ∷ (key_code key_square_open_bracket, 91)
    ∷ (key_code key_square_close_bracket, 93)
    ∷ (key_code key_semicolon, 59)
    ∷ (key_code key_backslash, 92)
    ∷ (key_code key_comma, 44)
    ∷ (key_code key_dot, 46)
    ∷ (key_code key_foreslhash, 47)
    ∷ (key_code key_space, 32)
    ∷ []

unfoldable pub get_ascii_char : ℕ → ℕ
get_ascii_char key_code = switch key_code ascii_cases
