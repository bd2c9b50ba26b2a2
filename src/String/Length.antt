-- ===== src/String/Length.antt =====
-- About `strlen` of root/orbit-kernel/util/string.c.
use relics.Prelude.{ℕ, zero, suc, ◌+◌, ◌^◌, ◌<◌, ◌≡◌, ◌≢◌, some, Memory, u32, ne→eqb, arith}
use relics.String.{strlen_loop, strlen}

-- A NUL-terminated string of n characters stands at s.
pub record IsString (m : Memory) (s n : ℕ) : Type 0 where
  pub ends : m (s + n) ≡ 0
  pub inside : (i : ℕ) → i < n → m (s + i) ≢ 0

strlen_loop_lem :
    (left : ℕ) (m : Memory) (s i n : ℕ)
    → IsString m s n
    → i + left ≡ n
    → n < 2 ^ 32
    → strlen_loop (suc left) m s i ≡ some n
unfolding strlen_loop
strlen_loop_lem zero m s i n str e h = let here : i ≡ n = omega arith in rw (here, str.ends)
strlen_loop_lem (suc left) m s i n str e h =
    let step : u32 (i + 1) ≡ i + 1 = omega arith in
    rw (ne→eqb (m (s + i)) 0 (str.inside i (omega arith)), step)
      (strlen_loop_lem left m s (i + 1) n str (omega arith) h)

-- With n + 1 rounds `strlen` returns the length of a string of n characters, for n below 2 ^ 32.
pub strlen-IsString :
    (m : Memory) (s n : ℕ) → IsString m s n → n < 2 ^ 32 → strlen (suc n) m s ≡ some n
unfolding strlen
strlen-IsString m s n str h = strlen_loop_lem n m s 0 n str (omega arith) h
