-- ===== src/Base/Bits.antt =====
-- `|=` of a field above the bits already set is a sum, at every width.
use Prim.Native.Nat.{
  ℕ, zero, suc, ◌+◌, ◌*◌, ◌/◌, ◌%◌, ◌^◌, ◌≤◌, ◌<◌, max, bit_or, digits, bitwise, bit_or-bitwise,
}
use mathlib.Core.Path.{◌≡◌, refl, ap}
use native.Mathlib.Nat.{pow-suc}
use native.Mathlib.Omega.{arith}

-- Any fuel from the left operand on reads all its digits.
digits-fuel :
    (rest : ℕ → ℕ) (on_digits : ℕ → ℕ → ℕ) (fuel least low high : ℕ)
    → low ≤ fuel
    → low ≤ least
    → digits rest on_digits fuel low high ≡ digits rest on_digits least low high
digits-fuel rest on_digits zero zero low high hf hg = refl
digits-fuel rest on_digits zero (suc least) zero high hf hg = refl
digits-fuel rest on_digits (suc fuel) zero zero high hf hg = refl
digits-fuel rest on_digits (suc fuel) (suc least) zero high hf hg = refl
digits-fuel rest on_digits zero (suc least) (suc low) high hf hg = absurd (omega arith)
digits-fuel rest on_digits (suc fuel) zero (suc low) high hf hg = absurd (omega arith)
digits-fuel rest on_digits (suc fuel) (suc least) (suc low) high hf hg =
    ap (λ upper. upper * 2 + on_digits (suc low % 2) (high % 2))
      (digits-fuel rest on_digits fuel least (suc low / 2) (high / 2) (omega arith) (omega arith))

-- An operation on digits, when it has a law for the digits above the left operand's, has it for all.
pub bitwise-digit :
    (rest : ℕ → ℕ) (on_digits : ℕ → ℕ → ℕ)
    → ((high : ℕ) → rest high ≡ rest (high / 2) * 2 + on_digits 0 (high % 2))
    → (low high : ℕ)
    → bitwise rest on_digits low high
      ≡ bitwise rest on_digits (low / 2) (high / 2) * 2 + on_digits (low % 2) (high % 2)
bitwise-digit rest on_digits law zero high = law high
bitwise-digit rest on_digits law (suc low) high =
    ap (λ upper. upper * 2 + on_digits (suc low % 2) (high % 2))
      (digits-fuel rest on_digits low (suc low / 2) (suc low / 2) (high / 2) (omega arith)
        (omega arith))

bit_or-digit :
    (low high : ℕ) → bit_or low high ≡ bit_or (low / 2) (high / 2) * 2 + max (low % 2) (high % 2)
bit_or-digit low high = omega (
  arith,
  bit_or-bitwise low high,
  bit_or-bitwise (low / 2) (high / 2),
  bitwise-digit (λ b. b) max (λ b. omega arith) low high,
)

-- `v |= q << k` adds where `v` has no bit from `k` on.
pub bit_or_above : (k low q : ℕ) → low < 2 ^ k → bit_or low (q * 2 ^ k) ≡ low + q * 2 ^ k
bit_or_above zero low q fits =
    let e : low ≡ 0 = omega arith in ground (arith, bit_or-bitwise 0 (q * 2 ^ zero))
bit_or_above (suc k) low q fits = ground (
  arith,
  bit_or-digit low (q * 2 ^ suc k),
  ap (λ (t : ℕ). q * t) (pow-suc 2 k),
  pow-suc 2 k,
  bit_or_above k (low / 2) q (omega (arith, pow-suc 2 k)),
)
