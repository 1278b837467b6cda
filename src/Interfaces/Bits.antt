-- ===== src/Interfaces/Bits.antt =====
-- The bits of a netmask.
use android_sdk_custom.Prelude.{
  ℕ, zero, suc, ◌+◌, ◌*◌, ◌%◌, ◌-◌, ◌≤◌, ◌<◌, ◌≡◌, refl, ◌∙◌, List, [], ◌∷◌, ◌++◌, Bool, true,
  false, ◌&&◌, ◌==◌, Bool-cases, inl, inr, arith, All,
}
use android_sdk_custom.Interfaces.Prefix.{Run, value, aborted, high_bit}

-- The k highest bits of a byte, the highest first.
unfoldable pub bits : ℕ → ℕ → List Bool
bits zero b = []
bits (suc k) b = high_bit b ∷ bits k (2 * b % 256)

unfoldable pub mask_bits : List ℕ → List Bool
unfolding bits
mask_bits [] = []
mask_bits (b ∷ bs) = bits 8 b ++ mask_bits bs

-- A byte string.
abbrev pub IsBytes : List ℕ → Type 0
IsBytes = All (λ b. b < 256)

abbrev pub clear : List Bool → Bool
clear [] = true
clear (true ∷ xs) = false
clear (false ∷ xs) = clear xs

-- The number of ones in front, which no one may follow.
abbrev pub counted : ℕ → List Bool → Run ℕ
counted n [] = value n
counted n (true ∷ xs) = counted (n + 1) xs
counted n (false ∷ xs) = elim (clear xs) [ true ↦ value n | false ↦ aborted ]

abbrev pub all_ones : List Bool → Bool
all_ones [] = true
all_ones (true ∷ xs) = all_ones xs
all_ones (false ∷ xs) = false

unfoldable pub shifted : ℕ → ℕ → ℕ
shifted zero b = b
shifted (suc k) b = shifted k (2 * b % 256)

pub shifted_8 : (b : ℕ) → b < 256 → shifted 8 b ≡ 0
unfolding shifted
shifted_8 b lt = omega arith

pub high : (b : ℕ) → b < 256 → high_bit b ≡ true → (128 ≤ b) × (2 * b % 256 ≡ 2 * b - 256)
high b lt e = (ground arith, ground arith)

pub low : (b : ℕ) → b < 256 → high_bit b ≡ false → (b < 128) × (2 * b % 256 ≡ 2 * b)
low b lt e = (ground arith, ground arith)

pub clear-bits : (k b : ℕ) → b < 256 → shifted k b ≡ 0 → clear (bits k b) ≡ (b == 0)
unfolding bits shifted
clear-bits zero b lt e = ground arith
clear-bits (suc k) b lt e = elim (Bool-cases (high_bit b)) [
  | inl h ↦ rw h (ground (arith, high b lt h))
  | inr h ↦ rw h (clear-bits k (2 * b % 256) (omega arith) e ∙ ground (arith, low b lt h))
]

pub clear-++ : (xs ys : List Bool) → clear (xs ++ ys) ≡ (clear xs && clear ys)
clear-++ [] ys = refl
clear-++ (true ∷ xs) ys = refl
clear-++ (false ∷ xs) ys = clear-++ xs ys

pub mask_bits_cons : (b : ℕ) (bs : List ℕ) → mask_bits (b ∷ bs) ≡ (bits 8 b ++ mask_bits bs)
unfolding mask_bits
mask_bits_cons b bs = refl

pub clear-mask_bits :
    (b : ℕ) (bs : List ℕ)
    → b < 256
    → clear (mask_bits (b ∷ bs)) ≡ ((b == 0) && clear (mask_bits bs))
clear-mask_bits b bs lt =
    rw (mask_bits_cons b bs, clear-++ (bits 8 b) (mask_bits bs), clear-bits 8 b lt (shifted_8 b lt))
      refl
