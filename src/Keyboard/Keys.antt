-- ===== src/Keyboard/Keys.antt =====
-- The key codes of root/orbit-kernel/keyboard.h, as a type with a constructor for each name.
use relics.Prelude.{ℕ}

pub data Key : Type 0 where
  key_a : Key
  key_b : Key
  key_c : Key
  key_d : Key
  key_e : Key
  key_f : Key
  key_g : Key
  key_h : Key
  key_i : Key
  key_j : Key
  key_k : Key
  key_l : Key
  key_m : Key
  key_n : Key
  key_o : Key
  key_p : Key
  key_q : Key
  key_r : Key
  key_s : Key
  key_t : Key
  key_u : Key
  key_v : Key
  key_w : Key
  key_x : Key
  key_y : Key
  key_z : Key
  key_1 : Key
  key_2 : Key
  key_3 : Key
  key_4 : Key
  key_5 : Key
  key_6 : Key
  key_7 : Key
  key_8 : Key
  key_9 : Key
  key_0 : Key
  key_minus : Key
  key_equal : Key
  key_square_open_bracket : Key
  key_square_close_bracket : Key
  key_semicolon : Key
  key_backslash : Key
  key_comma : Key
  key_dot : Key
  key_foreslhash : Key
  key_f1 : Key
  key_f2 : Key
  key_f3 : Key
  key_f4 : Key
  key_f5 : Key
  key_f6 : Key
  key_f7 : Key
  key_f8 : Key
  key_f9 : Key
  key_f10 : Key
  key_f11 : Key
  key_f12 : Key
  key_backspace : Key
  key_delete : Key
  key_down : Key
  key_end : Key
  key_enter : Key
  key_esc : Key
  key_home : Key
  key_insert : Key
  key_keypad_5 : Key
  key_keypad_mul : Key
  key_keypad_minus : Key
  key_keypad_plus : Key
  key_keypad_div : Key
  key_left : Key
  key_page_down : Key
  key_page_up : Key
  key_print_screen : Key
  key_right : Key
  key_space : Key
  key_tab : Key
  key_up : Key

-- The value of each name.
abbrev pub key_code : Key → ℕ
key_code key_a = 0x1E
key_code key_b = 0x30
key_code key_c = 0x2E
key_code key_d = 0x20
key_code key_e = 0x12
key_code key_f = 0x21
key_code key_g = 0x22
key_code key_h = 0x23
key_code key_i = 0x17
key_code key_j = 0x24
key_code key_k = 0x25
key_code key_l = 0x26
key_code key_m = 0x32
key_code key_n = 0x31
key_code key_o = 0x18
key_code key_p = 0x19
key_code key_q = 0x10
key_code key_r = 0x13
key_code key_s = 0x1F
key_code key_t = 0x14
key_code key_u = 0x16
key_code key_v = 0x2F
key_code key_w = 0x11
key_code key_x = 0x2D
key_code key_y = 0x15
key_code key_z = 0x2C
key_code key_1 = 0x02
key_code key_2 = 0x03
key_code key_3 = 0x04
key_code key_4 = 0x05
key_code key_5 = 0x06
key_code key_6 = 0x07
key_code key_7 = 0x08
key_code key_8 = 0x09
key_code key_9 = 0x0A
key_code key_0 = 0x0B
key_code key_minus = 0x0C
key_code key_equal = 0x0D
key_code key_square_open_bracket = 0x1A
key_code key_square_close_bracket = 0x1B
key_code key_semicolon = 0x27
key_code key_backslash = 0x2B
key_code key_comma = 0x33
key_code key_dot = 0x34
key_code key_foreslhash = 0x35
key_code key_f1 = 0x3B
key_code key_f2 = 0x3C
key_code key_f3 = 0x3D
key_code key_f4 = 0x3E
key_code key_f5 = 0x3F
key_code key_f6 = 0x40
key_code key_f7 = 0x41
key_code key_f8 = 0x42
key_code key_f9 = 0x43
key_code key_f10 = 0x44
key_code key_f11 = 0x85
key_code key_f12 = 0x86
key_code key_backspace = 0x0E
key_code key_delete = 0x53
key_code key_down = 0x50
key_code key_end = 0x4F
key_code key_enter = 0x1C
key_code key_esc = 0x01
key_code key_home = 0x47
key_code key_insert = 0x52
key_code key_keypad_5 = 0x4C
key_code key_keypad_mul = 0x37
key_code key_keypad_minus = 0x4A
key_code key_keypad_plus = 0x4E
key_code key_keypad_div = 0x35
key_code key_left = 0x4B
key_code key_page_down = 0x51
key_code key_page_up = 0x49
key_code key_print_screen = 0x37
key_code key_right = 0x4D
key_code key_space = 0x39
key_code key_tab = 0x0F
key_code key_up = 0x48
