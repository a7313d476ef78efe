-- ===== src/Cores/Word.antt =====
-- A `uint32_t` of a reference core, and its four bytes as `memcpy` moves them on a little-endian machine.
use std.HLevel.{Σ_prop_path}
use native.Mathlib.Bridge.{le_prop}
use retro_park.Base.{
  ℕ, zero, suc, ◌+◌, ◌*◌, ◌/◌, ◌%◌, ◌^◌, ◌<◌, ◌≡◌, arith, List, [], ◌∷◌, ◌++◌, get_or,
}

abbrev pub Word : Type 0
Word = (n : ℕ) × (n < 2 ^ 32)

pub low-bound : (n : ℕ) → n % 2 ^ 32 < 2 ^ 32
low-bound n = omega arith

abbrev pub word : ℕ → Word
word n = (n % 2 ^ 32, low-bound n)

abbrev pub word_bytes : Word → List ℕ
word_bytes (n, h) = n % 256 ∷ n / 2 ^ 8 % 256 ∷ n / 2 ^ 16 % 256 ∷ n / 2 ^ 24 % 256 ∷ []

abbrev pub read_word : List ℕ → Word
read_word b =
    word (get_or b 0 0 + get_or b 1 0 * 2 ^ 8 + get_or b 2 0 * 2 ^ 16 + get_or b 3 0 * 2 ^ 24)

pub read_word-word_bytes : (x : Word) → read_word (word_bytes x) ≡ x
read_word-word_bytes (n, h) = Σ_prop_path (λ m. le_prop) (omega arith)

-- `n` pixels of one colour
unfoldable pub fill : ℕ → List ℕ → List ℕ
fill zero pixel = []
fill (suc n) pixel = pixel ++ fill n pixel
