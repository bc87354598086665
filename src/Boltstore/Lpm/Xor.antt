-- ===== src/Boltstore/Lpm/Xor.antt =====
-- What the exclusive or of two bytes says of their bits.
use Prim.Native.Nat.{digits, bit_xor, bit_xor-bitwise, differ}
use native.Mathlib.Nat.{div-one, div-div-eq-div-mul, pow-suc}
use bgp_api.Base.{ℕ, zero, suc, ◌+◌, ◌*◌, ◌/◌, ◌%◌, ◌^◌, ◌≤◌, ◌<◌, ◌≡◌, ◌≢◌, refl, sym, ◌∙◌, arith}

abbrev xor_digits : ℕ → ℕ → ℕ → ℕ
xor_digits n a b = digits (λ y. y) differ n a b

xor_digits_fuel : (n m a b : ℕ) → a ≤ n → a ≤ m → xor_digits n a b ≡ xor_digits m a b
xor_digits_fuel zero zero a b p q = refl
xor_digits_fuel zero (suc m) zero b p q = refl
xor_digits_fuel zero (suc m) (suc a) b p q = absurd (omega arith)
xor_digits_fuel (suc n) zero zero b p q = refl
xor_digits_fuel (suc n) zero (suc a) b p q = absurd (omega arith)
xor_digits_fuel (suc n) (suc m) zero b p q = refl
xor_digits_fuel (suc n) (suc m) (suc a) b p q =
    rw (xor_digits_fuel n m (suc a / 2) (b / 2) (omega arith) (omega arith))

zero-bit_xor : (b : ℕ) → bit_xor 0 b ≡ b
zero-bit_xor b = bit_xor-bitwise 0 b

bit_xor_step : (a b : ℕ) → bit_xor a b ≡ bit_xor (a / 2) (b / 2) * 2 + differ (a % 2) (b % 2)
bit_xor_step zero b = omega (arith, zero-bit_xor b, zero-bit_xor (b / 2))
bit_xor_step (suc a) b = omega (
  arith,
  bit_xor-bitwise (suc a) b,
  bit_xor-bitwise (suc a / 2) (b / 2),
  xor_digits_fuel a (suc a / 2) (suc a / 2) (b / 2) (omega arith) (omega arith),
)

differ-lt : (a b : ℕ) → a < 2 → b < 2 → differ a b < 2
differ-lt zero b ha hb = hb
differ-lt (suc zero) zero ha hb = ha
differ-lt (suc zero) (suc zero) ha hb = omega arith
differ-lt (suc zero) (suc (suc b)) ha hb = absurd (omega arith)
differ-lt (suc (suc a)) b ha hb = absurd (omega arith)

differ_eq : (a b : ℕ) → a < 2 → b < 2 → differ a b ≡ 0 → a ≡ b
differ_eq zero b ha hb e = sym e
differ_eq (suc zero) zero ha hb e = e
differ_eq (suc zero) (suc zero) ha hb e = refl
differ_eq (suc zero) (suc (suc b)) ha hb e = absurd (omega arith)
differ_eq (suc (suc a)) b ha hb e = absurd (omega arith)

differ_self : (a : ℕ) → differ a a ≡ 0
differ_self zero = refl
differ_self (suc a) = differ_self a

bit_xor_half : (a b : ℕ) → bit_xor a b / 2 ≡ bit_xor (a / 2) (b / 2)
bit_xor_half a b = omega (arith, bit_xor_step a b, differ-lt (a % 2) (b % 2))

div_pow_suc : (k a : ℕ) → a / 2 ^ suc k ≡ a / 2 ^ k / 2
div_pow_suc k a = rw (pow-suc, div-div-eq-div-mul) refl

-- A shift of both sides.
pub bit_xor_shift : (k a b : ℕ) → bit_xor a b / 2 ^ k ≡ bit_xor (a / 2 ^ k) (b / 2 ^ k)
bit_xor_shift zero a b = rw (div-one, div-one, div-one) refl
bit_xor_shift (suc k) a b =
    rw (div_pow_suc k (bit_xor a b), bit_xor_shift k a b, div_pow_suc k a, div_pow_suc k b)
      (bit_xor_half (a / 2 ^ k) (b / 2 ^ k))

bit_xor_eq_fuel : (n a b : ℕ) → a ≤ n → bit_xor a b ≡ 0 → a ≡ b
bit_xor_eq_fuel n zero b h e = sym (sym (zero-bit_xor b) ∙ e)
bit_xor_eq_fuel zero (suc a) b h e = absurd (omega arith)
bit_xor_eq_fuel (suc n) (suc a) b h e =
    let low : differ (suc a % 2) (b % 2) ≡ 0 = omega (arith, bit_xor_step (suc a) b) in
    omega (
      arith,
      bit_xor_step (suc a) b,
      differ_eq (suc a % 2) (b % 2) (omega arith) (omega arith) low,
      bit_xor_eq_fuel n (suc a / 2) (b / 2) (omega arith) (omega (arith, bit_xor_step (suc a) b)),
    )

pub bit_xor_eq : (a b : ℕ) → bit_xor a b ≡ 0 → a ≡ b
bit_xor_eq a b e = bit_xor_eq_fuel a a b (omega arith) e

-- The lowest bits differ where the exclusive or is one.
pub bit_xor_ne : (a b : ℕ) → bit_xor a b ≡ 1 → a % 2 ≢ b % 2
bit_xor_ne a b e same =
    let zero_low : differ (a % 2) (b % 2) ≡ 0 = rw same (differ_self (b % 2)) in
    absurd (omega (arith, bit_xor_step a b))

xor_digits_lt : (m a b : ℕ) → a < 2 ^ m → b < 2 ^ m → bit_xor a b < 2 ^ m
xor_digits_lt zero a b ha hb =
    let ea : a ≡ 0 = omega arith in let eb : b ≡ 0 = omega arith in rw (ea, eb) (omega arith)
xor_digits_lt (suc m) a b ha hb = omega (
  arith,
  pow-suc 2 m,
  bit_xor_step a b,
  differ-lt (a % 2) (b % 2),
  xor_digits_lt m (a / 2) (b / 2) (omega (arith, pow-suc 2 m)) (omega (arith, pow-suc 2 m)),
)

pub bit_xor-lt : (a b : ℕ) → a < 256 → b < 256 → bit_xor a b < 256
bit_xor-lt a b ha hb = xor_digits_lt 8 a b ha hb
