-- ===== src/Prelude/Modular.antt =====
-- Products and powers modulo a number.
use Prim.Native.Nat.{ℕ, zero, suc, ◌+◌, ◌*◌, ◌/◌, ◌%◌, ◌^◌}
use mathlib.Core.Path.{◌≡◌, sym, ap, ◌∙◌}
use native.Mathlib.Nat.{
  pow-suc, pow-zero, mul_comm, mul_assoc, add-mul, mod-add-div, add-mul-mod_self_left,
}
use native.Mathlib.Omega.{arith}

pub mul-mod_left : (x y m : ℕ) → x % m * y % m ≡ x * y % m
mul-mod_left x y m =
    sym (add-mul-mod_self_left (x % m * y) m (x / m * y))
    ∙ ap (λ t. t % m)
        (ap (λ t. x % m * y + t) (sym (mul_assoc m (x / m) y))
          ∙ sym (add-mul (x % m) (m * (x / m)) y)
          ∙ ap (λ t. t * y) (mod-add-div x m))

pub mul-mod_right : (x y m : ℕ) → x * (y % m) % m ≡ x * y % m
mul-mod_right x y m =
    ap (λ t. t % m) (mul_comm x (y % m)) ∙ mul-mod_left y x m ∙ ap (λ t. t % m) (mul_comm y x)

-- A factor that is a power may be reduced before the power is taken.
pub mul-pow-mod : (a x k m : ℕ) → a * (x % m) ^ k % m ≡ a * x ^ k % m
mul-pow-mod a x zero m = rw (pow-zero, pow-zero)
mul-pow-mod a x (suc k) m =
    rw (pow-suc, pow-suc)
      (ap (λ t. t % m) (sym (mul_assoc a ((x % m) ^ k) (x % m)))
        ∙ mul-mod_right (a * (x % m) ^ k) x m
        ∙ ap (λ t. t % m) (mul_comm (a * (x % m) ^ k) x ∙ sym (mul_assoc x a ((x % m) ^ k)))
        ∙ mul-pow-mod (x * a) x k m
        ∙ ap (λ t. t % m) (mul_assoc x a (x ^ k) ∙ mul_comm x (a * x ^ k) ∙ mul_assoc a (x ^ k) x))

-- A square to the power k.
pub pow-square : (n k : ℕ) → (n * n) ^ k ≡ n ^ (k + k)
pow-square n zero = rw (pow-zero, pow-zero)
pow-square n (suc k) =
    let e : suc k + suc k ≡ suc (suc (k + k)) = omega arith in
    rw (e, pow-suc, pow-suc, pow-suc, pow-square n k) (sym (mul_assoc (n ^ (k + k)) n n))
