-- ===== src/Base/Xor.antt =====
-- Exclusive or and masks by `&`, a binary digit at a time.
use Prim.Native.Nat.{
  ℕ, zero, suc, ◌+◌, ◌*◌, ◌/◌, ◌%◌, ◌^◌, ◌≤◌, ◌<◌, min, bit_and, bit_xor, differ, bit_and-bitwise,
  bit_xor-bitwise,
}
use mathlib.Core.Path.{◌≡◌, refl, ap, ◌∙◌, sym}
use native.Mathlib.Nat.{pow-suc, div-div-eq-div-mul, mod-add-div'}
use native.Mathlib.Omega.{arith}
use retro_park.Base.Bits.{bitwise-digit}

differ_lem : (x y : ℕ) → x < 2 → y < 2 → differ x y ≡ (x + y) % 2
differ_lem zero zero p q = refl
differ_lem zero (suc zero) p q = refl
differ_lem (suc zero) zero p q = refl
differ_lem (suc zero) (suc zero) p q = refl
differ_lem zero (suc (suc y)) p q = absurd (omega arith)
differ_lem (suc x) (suc (suc y)) p q = absurd (omega arith)
differ_lem (suc (suc x)) y p q = absurd (omega arith)

bit_xor-digit : (a b : ℕ) → bit_xor a b ≡ bit_xor (a / 2) (b / 2) * 2 + (a + b) % 2
bit_xor-digit a b = omega (
  arith,
  bit_xor-bitwise a b,
  bit_xor-bitwise (a / 2) (b / 2),
  bitwise-digit (λ c. c) differ (λ c. omega (arith, differ_lem 0 (c % 2))) a b,
  differ_lem (a % 2) (b % 2) (omega arith) (omega arith),
)

pub bit_xor-half : (a b : ℕ) → bit_xor a b / 2 ≡ bit_xor (a / 2) (b / 2)
bit_xor-half a b = omega (arith, bit_xor-digit a b)

pub bit_xor-parity : (a b : ℕ) → bit_xor a b % 2 ≡ (a + b) % 2
bit_xor-parity a b = omega (arith, bit_xor-digit a b)

bit_xor-zero_fuel : (fuel a : ℕ) → a ≤ fuel → bit_xor a 0 ≡ a
bit_xor-zero_fuel zero a small =
    let none : a ≡ 0 = omega arith in omega (arith, ap (λ t. bit_xor t 0) none, bit_xor-bitwise 0 0)
bit_xor-zero_fuel (suc fuel) a small =
    omega (arith, bit_xor-digit a 0, bit_xor-zero_fuel fuel (a / 2) (omega arith))

pub bit_xor-zero : (a : ℕ) → bit_xor a 0 ≡ a
bit_xor-zero a = bit_xor-zero_fuel a a (omega arith)

bit_xor_assoc_fuel :
    (n a b c : ℕ) → a + b + c ≤ n → bit_xor (bit_xor a b) c ≡ bit_xor a (bit_xor b c)
bit_xor_assoc_fuel zero zero b c h =
    ap (λ t. bit_xor t c) (bit_xor-bitwise 0 b) ∙ sym (bit_xor-bitwise 0 (bit_xor b c))
bit_xor_assoc_fuel zero (suc a) b c h = absurd (omega arith)
bit_xor_assoc_fuel (suc n) a b c h = omega (
  arith,
  bit_xor-digit (bit_xor a b) c,
  bit_xor-digit a (bit_xor b c),
  bit_xor-parity a b,
  bit_xor-parity b c,
  ap (λ t. bit_xor t (c / 2)) (bit_xor-half a b),
  ap (λ t. bit_xor (a / 2) t) (bit_xor-half b c),
  bit_xor_assoc_fuel n (a / 2) (b / 2) (c / 2) (omega arith),
)

pub bit_xor_assoc : (a b c : ℕ) → bit_xor (bit_xor a b) c ≡ bit_xor a (bit_xor b c)
bit_xor_assoc a b c = bit_xor_assoc_fuel (a + b + c) a b c (omega arith)

-- A number is its low digits and its high digits, put together.
pub bit_xor_above : (k low q : ℕ) → low < 2 ^ k → bit_xor low (q * 2 ^ k) ≡ low + q * 2 ^ k
bit_xor_above zero low q fits =
    let e : low ≡ 0 = omega arith in ground (arith, bit_xor-bitwise 0 (q * 2 ^ zero))
bit_xor_above (suc k) low q fits = ground (
  arith,
  bit_xor-digit low (q * 2 ^ suc k),
  ap (λ (t : ℕ). q * t) (pow-suc 2 k),
  pow-suc 2 k,
  bit_xor_above k (low / 2) q (omega (arith, pow-suc 2 k)),
)

div-pow_suc : (a k : ℕ) → a / 2 ^ suc k ≡ a / 2 / 2 ^ k
div-pow_suc a k =
    ap (λ t. a / t) (omega (arith, pow-suc 2 k)) ∙ sym (div-div-eq-div-mul a 2 (2 ^ k))

-- A shift drops what an operand has below it.
pub bit_xor-below : (k a b : ℕ) → b < 2 ^ k → bit_xor a b / 2 ^ k ≡ a / 2 ^ k
bit_xor-below zero a b h =
    let e : b ≡ 0 = omega arith in
    ap (λ t. bit_xor a t / 2 ^ zero) e ∙ ap (λ t. t / 2 ^ zero) (bit_xor-zero a)
bit_xor-below (suc k) a b h =
    div-pow_suc (bit_xor a b) k
    ∙ ap (λ t. t / 2 ^ k) (bit_xor-half a b)
    ∙ bit_xor-below k (a / 2) (b / 2) (omega (arith, pow-suc 2 k))
    ∙ sym (div-pow_suc a k)

bit_and-digit : (a b : ℕ) → bit_and a b ≡ bit_and (a / 2) (b / 2) * 2 + min (a % 2) (b % 2)
bit_and-digit a b = omega (
  arith,
  bit_and-bitwise a b,
  bit_and-bitwise (a / 2) (b / 2),
  bitwise-digit (λ c. 0) min (λ c. omega arith) a b,
)

bit_and-nothing : (fuel a : ℕ) → a ≤ fuel → bit_and a 0 ≡ 0
bit_and-nothing zero a small =
    let none : a ≡ 0 = omega arith in omega (arith, ap (λ t. bit_and t 0) none, bit_and-bitwise 0 0)
bit_and-nothing (suc fuel) a small =
    omega (arith, bit_and-digit a 0, bit_and-nothing fuel (a / 2) (omega arith))

-- A mask of ones keeps the digits below it.
bit_and-ones_above : (k a m : ℕ) → m + 1 ≡ 2 ^ k → bit_and a m + a / 2 ^ k * 2 ^ k ≡ a
bit_and-ones_above zero a m e =
    let e0 : m ≡ 0 = omega arith in
    ap (λ t. bit_and a t + a / 2 ^ zero * 2 ^ zero) e0
    ∙ omega (arith, bit_and-nothing a a (omega arith))
bit_and-ones_above (suc k) a m e = ground (
  arith,
  bit_and-digit a m,
  div-pow_suc a k,
  ap (λ (t : ℕ). a / 2 / 2 ^ k * t) (pow-suc 2 k),
  ap (λ (t : ℕ). t * 2 ^ suc k) (div-pow_suc a k),
  pow-suc 2 k,
  bit_and-ones_above k (a / 2) (m / 2) (omega (arith, pow-suc 2 k)),
)

pub bit_and-ones : (k a m : ℕ) → m + 1 ≡ 2 ^ k → bit_and a m ≡ a % 2 ^ k
bit_and-ones k a m e = omega (arith, bit_and-ones_above k a m e, mod-add-div' a (2 ^ k))
