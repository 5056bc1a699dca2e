-- ===== src/Prelude/Bits.antt =====
-- `|` and `&` of C as the native bit operations, and the masks of the code as arithmetic.
use Prim.Native.Nat.{
  ℕ, zero, suc, ◌+◌, ◌-◌, ◌*◌, ◌/◌, ◌%◌, ◌≤◌, ◌<◌, ◌^◌, min, max, digits, bit_and, bit_or,
  bit_and-bitwise, bit_or-bitwise,
}
use mathlib.Core.Path.{◌≡◌, refl, sym, ap, ◌∙◌}
use native.Mathlib.Nat.{pow-suc, mul_assoc, one-le-pow, div-add-mod', mod-lt}
use native.Mathlib.Omega.{arith}

module _ (rest : ℕ → ℕ) (op : ℕ → ℕ → ℕ) where
  -- The count of digits does not matter, once the first number has run out.
  digits_enough : (n m x y : ℕ) → x ≤ n → x ≤ m → digits rest op n x y ≡ digits rest op m x y
  digits_enough zero zero x y le le' = refl
  digits_enough zero (suc m) zero y le le' = refl
  digits_enough zero (suc m) (suc x) y le le' = absurd (omega arith)
  digits_enough (suc n) zero zero y le le' = refl
  digits_enough (suc n) zero (suc x) y le le' = absurd (omega arith)
  digits_enough (suc n) (suc m) zero y le le' = refl
  digits_enough (suc n) (suc m) (suc x) y le le' =
      omega (arith, digits_enough n m (suc x / 2) (y / 2) (omega arith) (omega arith))

-- The lowest digit apart.
pub bit_or_low : (x y : ℕ) → bit_or x y ≡ bit_or (x / 2) (y / 2) * 2 + max (x % 2) (y % 2)
bit_or_low zero y = omega (arith, bit_or-bitwise 0 y, bit_or-bitwise 0 (y / 2))
bit_or_low (suc x) y = omega (
  arith,
  bit_or-bitwise (suc x) y,
  bit_or-bitwise (suc x / 2) (y / 2),
  digits_enough (λ b. b) max x (suc x / 2) (suc x / 2) (y / 2) (omega arith) (omega arith),
)

pub bit_and_low : (x y : ℕ) → bit_and x y ≡ bit_and (x / 2) (y / 2) * 2 + min (x % 2) (y % 2)
bit_and_low zero y = omega (arith, bit_and-bitwise 0 y, bit_and-bitwise 0 (y / 2))
bit_and_low (suc x) y = omega (
  arith,
  bit_and-bitwise (suc x) y,
  bit_and-bitwise (suc x / 2) (y / 2),
  digits_enough (λ b. 0) min x (suc x / 2) (suc x / 2) (y / 2) (omega arith) (omega arith),
)

or_zero_upto : (n x : ℕ) → x ≤ n → bit_or x 0 ≡ x
or_zero_upto n zero le = refl
or_zero_upto zero (suc x) le = absurd (omega arith)
or_zero_upto (suc n) (suc x) le =
    omega (arith, bit_or_low (suc x) 0, or_zero_upto n (suc x / 2) (omega arith))

pub bit_or_zero : (x : ℕ) → bit_or x 0 ≡ x
bit_or_zero x = or_zero_upto x x (omega arith)

and_zero_upto : (n x : ℕ) → x ≤ n → bit_and x 0 ≡ 0
and_zero_upto n zero le = refl
and_zero_upto zero (suc x) le = absurd (omega arith)
and_zero_upto (suc n) (suc x) le =
    omega (arith, bit_and_low (suc x) 0, and_zero_upto n (suc x / 2) (omega arith))

pub bit_and_zero : (x : ℕ) → bit_and x 0 ≡ 0
bit_and_zero x = and_zero_upto x x (omega arith)

or_comm_upto : (n x y : ℕ) → x ≤ n → y ≤ n → bit_or x y ≡ bit_or y x
or_comm_upto zero x y le le' =
    let zx : x ≡ 0 = omega arith in let zy : y ≡ 0 = omega arith in rw (zx, zy)
or_comm_upto (suc n) x y le le' = omega (
  arith,
  bit_or_low x y,
  bit_or_low y x,
  or_comm_upto n (x / 2) (y / 2) (omega arith) (omega arith),
)

pub bit_or_comm : (x y : ℕ) → bit_or x y ≡ bit_or y x
bit_or_comm x y = or_comm_upto (x + y) x y (omega arith) (omega arith)

-- The same with the halves named.
bit_or_halves :
    (x y u v : ℕ) → x / 2 ≡ u → y / 2 ≡ v → bit_or x y ≡ bit_or u v * 2 + max (x % 2) (y % 2)
bit_or_halves x y u v hu hv = rw (bit_or_low x y, hu, hv)

bit_and_halves :
    (x y u v : ℕ) → x / 2 ≡ u → y / 2 ≡ v → bit_and x y ≡ bit_and u v * 2 + min (x % 2) (y % 2)
bit_and_halves x y u v hu hv = rw (bit_and_low x y, hu, hv)

shift_once : (x k : ℕ) → x * 2 ^ suc k ≡ x * 2 ^ k * 2
shift_once x k = omega (arith, ap (λ (p : ℕ). x * p) (pow-suc 2 k), mul_assoc x (2 ^ k) 2)

-- `x << k | y` adds `y`, if `y` has at most `k` bits.
pub bit_or_shifted : (k x y : ℕ) → y < 2 ^ k → bit_or (x * 2 ^ k) y ≡ x * 2 ^ k + y
bit_or_shifted zero x y lt =
    let none_left : y ≡ 0 = omega arith in rw none_left (bit_or_zero (x * 1) ∙ omega arith)
bit_or_shifted (suc k) x y lt = omega (
  arith,
  shift_once x k,
  pow-suc 2 k,
  bit_or_halves (x * 2 ^ suc k) y (x * 2 ^ k) (y / 2) (omega (arith, shift_once x k)) refl,
  bit_or_shifted k x (y / 2) (omega (arith, pow-suc 2 k)),
)

-- `&` with a mask that is shifted by `k` sees nothing of the `k` low bits.
bit_and_high : (k q r m : ℕ) → r < 2 ^ k → bit_and (q * 2 ^ k + r) (m * 2 ^ k) ≡ bit_and q m * 2 ^ k
bit_and_high zero q r m lt =
    let none_left : r ≡ 0 = omega arith in
    let same : q * 1 + 0 ≡ q = omega arith in
    let same' : m * 1 ≡ m = omega arith in rw (none_left, same, same') (omega arith)
bit_and_high (suc k) q r m lt = omega (
  arith,
  shift_once q k,
  shift_once m k,
  shift_once (bit_and q m) k,
  pow-suc 2 k,
  bit_and_halves (q * 2 ^ suc k + r) (m * 2 ^ suc k) (q * 2 ^ k + r / 2) (m * 2 ^ k)
      (omega (arith, shift_once q k)) (omega (arith, shift_once m k)),
  bit_and_high k q (r / 2) m (omega (arith, pow-suc 2 k)),
)

bit_and_ones : (k q r : ℕ) → r < 2 ^ k → bit_and (q * 2 ^ k + r) (2 ^ k - 1) ≡ r
bit_and_ones zero q r lt = bit_and_zero (q * 1 + r) ∙ omega arith
bit_and_ones (suc k) q r lt = omega (
  arith,
  shift_once q k,
  pow-suc 2 k,
  one-le-pow k 2,
  bit_and_halves (q * 2 ^ suc k + r) (2 ^ suc k - 1) (q * 2 ^ k + r / 2) (2 ^ k - 1)
      (omega (arith, shift_once q k)) (omega (arith, pow-suc 2 k, one-le-pow k 2)),
  bit_and_ones k q (r / 2) (omega (arith, pow-suc 2 k)),
)

two_pow_pos : (k : ℕ) → 0 < 2 ^ k
two_pow_pos zero = omega arith
two_pow_pos (suc k) = omega (arith, pow-suc 2 k, two_pow_pos k)

-- `&` with the mask of the `k` low bits is the remainder.
pub bit_and_mask : (k x : ℕ) → bit_and x (2 ^ k - 1) ≡ x % 2 ^ k
bit_and_mask k x =
    ap (λ t. bit_and t (2 ^ k - 1)) (sym (div-add-mod' x (2 ^ k)))
    ∙ bit_and_ones k (x / 2 ^ k) (x % 2 ^ k) (mod-lt x (two_pow_pos k))

-- `x & ~0xfff` of a 32-bit word clears the low 12 bits.
pub bit_and_page : (x : ℕ) → x < 2 ^ 32 → bit_and x 0xfffff000 ≡ x / 4096 * 4096
bit_and_page x lt = omega (
  arith,
  ap (λ t. bit_and t 0xfffff000) (sym (div-add-mod' x 4096)),
  bit_and_high 12 (x / 4096) (x % 4096) 0xfffff (omega arith),
  bit_and_mask 20 (x / 4096),
)

-- `|` with a word of `k` bits leaves the bits above them.
pub bit_or_above :
    (k a b y : ℕ)
    → b < 2 ^ k
    → y < 2 ^ k
    → (c : ℕ) × (c < 2 ^ k) × (bit_or (a * 2 ^ k + b) y ≡ a * 2 ^ k + c)
bit_or_above zero a b y lt lt' =
    let none_left : y ≡ 0 = omega arith in
    (0, omega arith, rw none_left (bit_or_zero (a * 1 + b) ∙ omega arith))
bit_or_above (suc k) a b y lt lt' =
    let (c, small, same) =
      bit_or_above k a (b / 2) (y / 2) (omega (arith, pow-suc 2 k)) (omega (arith, pow-suc 2 k)) in
    let halves =
      bit_or_halves (a * 2 ^ suc k + b) y (a * 2 ^ k + b / 2) (y / 2)
        (omega (arith, shift_once a k)) refl in
    (
      c * 2 + max ((a * 2 ^ suc k + b) % 2) (y % 2),
      omega (arith, pow-suc 2 k, small),
      omega (arith, halves, same, shift_once a k),
    )
