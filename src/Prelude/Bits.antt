-- ===== src/Prelude/Bits.antt =====
-- `&` and `|` of the source at variables: the equation of the lowest digit, masks, and the
-- concatenation of bit fields as a sum.
use Prim.Native.Nat.{
  ℕ, zero, suc, ◌+◌, ◌-◌, ◌*◌, ◌/◌, ◌%◌, ◌^◌, ◌≤◌, ◌<◌, min, max, bit_and, bit_or, digits,
  bit_and-bitwise, bit_or-bitwise,
}
use mathlib.Core.Path.{◌≡◌, refl, ap}
use native.Mathlib.Nat.{pow-suc, one-le-pow}
use native.Mathlib.Omega.{arith}

-- Two counts of digits to go that both bound the first number give the same digits.
module _ (rest : ℕ → ℕ) (op : ℕ → ℕ → ℕ) where
  digits-bound : (a b : ℕ) {i j : ℕ} → a ≤ i → a ≤ j → digits rest op i a b ≡ digits rest op j a b
  digits-bound (suc a) b {i = suc i} {j = suc j} h k =
      let half : digits rest op i (suc a / 2) (b / 2) ≡ digits rest op j (suc a / 2) (b / 2) =
        digits-bound (suc a / 2) (b / 2) {i = i} {j = j} (omega arith) (omega arith) in
      ap (λ t. t * 2 + op (suc a % 2) (b % 2)) half
  digits-bound (suc a) b {i = zero} h k = absurd (omega arith)
  digits-bound (suc a) b {i = suc i} {j = zero} h k = absurd (omega arith)
  digits-bound zero b {i = suc i} {j = suc j} h k = refl
  digits-bound zero b {i = suc i} {j = zero} h k = refl
  digits-bound zero b {i = zero} {j = suc j} h k = refl
  digits-bound zero b {i = zero} {j = zero} h k = refl

pub bit_and-digit : (a b : ℕ) → bit_and a b ≡ bit_and (a / 2) (b / 2) * 2 + min (a % 2) (b % 2)
bit_and-digit zero b = omega (arith, bit_and-bitwise 0 b, bit_and-bitwise 0 (b / 2))
bit_and-digit (suc a) b = omega (
  arith,
  bit_and-bitwise (suc a) b,
  bit_and-bitwise (suc a / 2) (b / 2),
  digits-bound (λ _. 0) min (suc a / 2) (b / 2) {i = a} {j = suc a / 2} (omega arith) (omega arith),
)

pub bit_or-digit : (a b : ℕ) → bit_or a b ≡ bit_or (a / 2) (b / 2) * 2 + max (a % 2) (b % 2)
bit_or-digit zero b = omega (arith, bit_or-bitwise 0 b, bit_or-bitwise 0 (b / 2))
bit_or-digit (suc a) b = omega (
  arith,
  bit_or-bitwise (suc a) b,
  bit_or-bitwise (suc a / 2) (b / 2),
  digits-bound (λ c. c) max (suc a / 2) (b / 2) {i = a} {j = suc a / 2} (omega arith) (omega arith),
)

bit_and-nil : (n a : ℕ) → a ≤ n → bit_and a 0 ≡ 0
bit_and-nil n zero h = refl
bit_and-nil zero (suc a) h = absurd (omega arith)
bit_and-nil (suc n) (suc a) h =
    omega (arith, bit_and-digit (suc a) 0, bit_and-nil n (suc a / 2) (omega arith))

pub bit_and-zero : (a : ℕ) → bit_and a 0 ≡ 0
bit_and-zero a = bit_and-nil a a (omega arith)

bit_or-nil : (n a : ℕ) → a ≤ n → bit_or a 0 ≡ a
bit_or-nil n zero h = refl
bit_or-nil zero (suc a) h = absurd (omega arith)
bit_or-nil (suc n) (suc a) h =
    omega (arith, bit_or-digit (suc a) 0, bit_or-nil n (suc a / 2) (omega arith))

pub bit_or-zero : (a : ℕ) → bit_or a 0 ≡ a
bit_or-zero a = bit_or-nil a a (omega arith)

double : (q k : ℕ) → q * 2 ^ suc k ≡ 2 * (q * 2 ^ k)
double q k = omega (arith, ap (λ (t : ℕ). q * t) (pow-suc 2 k))

bit_and-low : (k q r : ℕ) → r < 2 ^ k → bit_and (q * 2 ^ k + r) (2 ^ k - 1) ≡ r
bit_and-low zero q r h = omega (arith, bit_and-zero (q * 2 ^ zero + r))
bit_and-low (suc k) q r h = ground (
  arith,
  bit_and-digit (q * 2 ^ suc k + r) (2 ^ suc k - 1),
  double q k,
  pow-suc 2 k,
  bit_and-low k q (r / 2) (omega (arith, pow-suc 2 k)),
)

-- A mask of k ones is the remainder by 2 ^ k.
pub bit_and-mask : (k a : ℕ) → bit_and a (2 ^ k - 1) ≡ a % 2 ^ k
bit_and-mask k a = ground (arith, one-le-pow k 2, bit_and-low k (a / 2 ^ k) (a % 2 ^ k))

bit_and-high : (k q r b : ℕ) → r < 2 ^ k → bit_and (q * 2 ^ k + r) (b * 2 ^ k) ≡ bit_and q b * 2 ^ k
bit_and-high zero q r b h =
    let e : q * 2 ^ zero + r ≡ q = omega arith in
    let f : b * 2 ^ zero ≡ b = omega arith in rw (e, f) (omega arith)
bit_and-high (suc k) q r b h = ground (
  arith,
  bit_and-digit (q * 2 ^ suc k + r) (b * 2 ^ suc k),
  double q k,
  double b k,
  double (bit_and q b) k,
  pow-suc 2 k,
  bit_and-high k q (r / 2) b (omega (arith, pow-suc 2 k)),
)

-- A mask that is shifted left reads the number's upper part.
pub bit_and-shifted : (k a b : ℕ) → bit_and a (b * 2 ^ k) ≡ bit_and (a / 2 ^ k) b * 2 ^ k
bit_and-shifted k a b = ground (arith, one-le-pow k 2, bit_and-high k (a / 2 ^ k) (a % 2 ^ k) b)

-- `(q << k) | r` is a sum where r fits below bit k.
pub bit_or-field : (k q r : ℕ) → r < 2 ^ k → bit_or (q * 2 ^ k) r ≡ q * 2 ^ k + r
bit_or-field zero q r h = ground (arith, bit_or-zero q)
bit_or-field (suc k) q r h = ground (
  arith,
  bit_or-digit (q * 2 ^ suc k) r,
  pow-suc 2 k,
  ap (λ t. q * t) (pow-suc 2 k),
  bit_or-field k q (r / 2),
)

bit_or-swap : (n a b : ℕ) → a + b ≤ n → bit_or a b ≡ bit_or b a
bit_or-swap n zero b h = omega (arith, bit_or-zero b, bit_or-bitwise 0 b)
bit_or-swap n (suc a) zero h = omega (arith, bit_or-zero (suc a), bit_or-bitwise 0 (suc a))
bit_or-swap zero (suc a) (suc b) h = absurd (omega arith)
bit_or-swap (suc n) (suc a) (suc b) h = ground (
  arith,
  bit_or-digit (suc a) (suc b),
  bit_or-digit (suc b) (suc a),
  bit_or-swap n (suc a / 2) (suc b / 2),
)

-- A field above a number is a sum.
pub bit_or-above : (k num v : ℕ) → num < 2 ^ k → bit_or num (v * 2 ^ k) ≡ num + v * 2 ^ k
bit_or-above k num v h =
    omega
      (arith, bit_or-swap (num + v * 2 ^ k) num (v * 2 ^ k) (omega arith), bit_or-field k v num h)
