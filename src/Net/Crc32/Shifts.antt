-- ===== src/Net/Crc32/Shifts.antt =====
-- src/net/Crc32.h against the shift register that CRC-32 is defined by, which knows no table.
use Prim.Native.Nat.{bit_and, bit_xor}
use native.Mathlib.Nat.{pow-suc}
use retro_park.Base.{
  ℕ, zero, suc, ◌+◌, ◌*◌, ◌/◌, ◌%◌, ◌^◌, ◌<◌, ◌≡◌, refl, sym, ap, ap₂, ◌∙◌, List, [], ◌∷◌, ◌++◌,
  All, get_or, ◌==◌, if◌then◌else◌, arith,
}
use retro_park.Base.Xor.{
  bit_xor-half, bit_xor-parity, bit_xor-zero, bit_xor_assoc, bit_xor_above, bit_xor-below,
  bit_and-ones,
}
use retro_park.Net.Crc32.{crc_round, crc_rounds, crc_table_from, crc_table, crc_bytes, crc32}

abbrev polynomial : ℕ
polynomial = 0xEDB88320

-- One bit of the message shifts into the register.
shift_bit : ℕ → ℕ → ℕ
shift_bit r b = if r % 2 == b then r / 2 else bit_xor polynomial (r / 2)

shift_bits : List ℕ → ℕ → ℕ
unfolding shift_bit
shift_bits [] r = r
shift_bits (b ∷ bits) r = shift_bits bits (shift_bit r b)

-- The lowest digits of a number, the lowest first
bits_of : ℕ → ℕ → List ℕ
bits_of zero m = []
bits_of (suc n) m = m % 2 ∷ bits_of n (m / 2)

message_bits : List ℕ → List ℕ
unfolding bits_of
message_bits [] = []
message_bits (b ∷ bytes) = bits_of 8 b ++ message_bits bytes

-- The CRC-32 of a message, by its bits
pub crc32_of_bits : List ℕ → ℕ
unfolding shift_bits message_bits
crc32_of_bits bytes = bit_xor (shift_bits (message_bits bytes) 0xFFFFFFFF) 0xFFFFFFFF

crc_round-parity : (c : ℕ) → crc_round c ≡ shift_bit c 0
unfolding crc_round shift_bit
crc_round-parity c = ground (arith, bit_and-ones 1 c 1 refl)

crc_round-apart : (r m : ℕ) → crc_round (bit_xor r m) ≡ bit_xor (shift_bit r (m % 2)) (m / 2)
unfolding shift_bit
crc_round-apart r m = ground (
  arith,
  crc_round-parity (bit_xor r m),
  bit_xor-parity r m,
  bit_xor-half r m,
  bit_xor_assoc polynomial (r / 2) (m / 2),
)

-- Digits above the ones that the rounds shift out come through.
crc_rounds-above : (n r q : ℕ) → crc_rounds n (bit_xor r (q * 2 ^ n)) ≡ bit_xor (crc_rounds n r) q
unfolding crc_rounds
crc_rounds-above zero r q = ap (bit_xor r) (omega arith)
crc_rounds-above (suc n) r q =
    ap (crc_rounds n) (
      crc_round-apart r (q * 2 ^ suc n)
      ∙ ap₂ (λ b m. bit_xor (shift_bit r b) m) low high
      ∙ ap (λ t. bit_xor t (q * 2 ^ n)) (sym (crc_round-parity r)))
    ∙ crc_rounds-above n (crc_round r) q
  where
    low : q * 2 ^ suc n % 2 ≡ 0
    low = ground (arith, ap (λ (t : ℕ). q * t) (pow-suc 2 n))

    high : q * 2 ^ suc n / 2 ≡ q * 2 ^ n
    high = ground (arith, ap (λ (t : ℕ). q * t) (pow-suc 2 n))

-- Rounds on a register with a byte put in are shifts of its bits.
crc_rounds-shift_bits :
    (n r m : ℕ) → m < 2 ^ n → crc_rounds n (bit_xor r m) ≡ shift_bits (bits_of n m) r
unfolding crc_rounds shift_bits bits_of
crc_rounds-shift_bits zero r m h = let e : m ≡ 0 = omega arith in ap (bit_xor r) e ∙ bit_xor-zero r
crc_rounds-shift_bits (suc n) r m h =
    ap (crc_rounds n) (crc_round-apart r m)
    ∙ crc_rounds-shift_bits n (shift_bit r (m % 2)) (m / 2) (omega (arith, pow-suc 2 n))

get-crc_table_from : (n i k : ℕ) → k < n → get_or (crc_table_from n i) k 0 ≡ crc_rounds 8 (i + k)
unfolding crc_table_from
get-crc_table_from zero i k h = absurd (omega arith)
get-crc_table_from (suc n) i zero h = ap (crc_rounds 8) (omega arith)
get-crc_table_from (suc n) i (suc k) h =
    get-crc_table_from n (i + 1) k (omega arith) ∙ ap (crc_rounds 8) (omega arith)

get-crc_table : (k : ℕ) → k < 256 → get_or crc_table k 0 ≡ crc_rounds 8 k
unfolding crc_table
get-crc_table k h =
    ap (λ t. get_or t k 0) whole ∙ get-crc_table_from 256 0 k h ∙ ap (crc_rounds 8) (omega arith)
  where
    whole : crc_table ≡ crc_table_from 256 0
    whole = refl

-- A step by the table is eight rounds.
table-step : (x : ℕ) → bit_xor (get_or crc_table (bit_and x 0xFF) 0) (x / 2 ^ 8) ≡ crc_rounds 8 x
table-step x =
    ap (λ t. bit_xor t (x / 2 ^ 8))
      (get-crc_table (bit_and x 0xFF) (omega (arith, low)) ∙ ap (crc_rounds 8) low)
    ∙ sym (crc_rounds-above 8 (x % 2 ^ 8) (x / 2 ^ 8))
    ∙ ap (crc_rounds 8) (bit_xor_above 8 (x % 2 ^ 8) (x / 2 ^ 8) (omega arith) ∙ omega arith)
  where
    low : bit_and x 0xFF ≡ x % 2 ^ 8
    low = bit_and-ones 8 x 0xFF refl

shift_bits-append :
    (xs ys : List ℕ) (r : ℕ) → shift_bits (xs ++ ys) r ≡ shift_bits ys (shift_bits xs r)
unfolding shift_bits
shift_bits-append [] ys r = refl
shift_bits-append (x ∷ xs) ys r = shift_bits-append xs ys (shift_bit r x)

byte-step :
    (crc b : ℕ)
    → b < 256
    → bit_xor (get_or crc_table (bit_and (bit_xor crc b) 0xFF) 0) (crc / 2 ^ 8)
      ≡ shift_bits (bits_of 8 b) crc
byte-step crc b h =
    ap (λ t. bit_xor (get_or crc_table (bit_and (bit_xor crc b) 0xFF) 0) t)
      (sym (bit_xor-below 8 crc b h))
    ∙ table-step (bit_xor crc b)
    ∙ crc_rounds-shift_bits 8 crc b h

crc_bytes-shift_bits :
    (bytes : List ℕ) (crc : ℕ)
    → All (λ b. b < 256) bytes
    → crc_bytes bytes crc ≡ shift_bits (message_bits bytes) crc
unfolding crc_bytes message_bits shift_bits
crc_bytes-shift_bits [] crc h = refl
crc_bytes-shift_bits (b ∷ bytes) crc h =
    ap (crc_bytes bytes) (byte-step crc b h.0)
    ∙ crc_bytes-shift_bits bytes (shift_bits (bits_of 8 b) crc) h.1
    ∙ sym (shift_bits-append (bits_of 8 b) (message_bits bytes) crc)

-- For bytes, the table-driven checksum is that of the shift register which takes the message's bits
-- one at a time, the lowest of each byte first.
pub crc32-crc32_of_bits :
    (bytes : List ℕ) → All (λ b. b < 256) bytes → crc32 bytes ≡ crc32_of_bits bytes
unfolding crc32 crc32_of_bits
crc32-crc32_of_bits bytes h =
    ap (λ t. bit_xor t 0xFFFFFFFF) (crc_bytes-shift_bits bytes 0xFFFFFFFF h)
