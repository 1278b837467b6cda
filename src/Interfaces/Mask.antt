-- ===== src/Interfaces/Mask.antt =====
-- ToPrefixLength against the bits of the mask.
use mathlib.Core.Path.{subst}
use android_sdk_custom.Prelude.{
  branches, ℕ, zero, suc, ◌+◌, ◌*◌, ◌%◌, ◌-◌, ◌<◌, ◌≡◌, ◌≢◌, refl, sym, ap, ◌∙◌, List, [], ◌∷◌,
  ◌++◌, Bool, true, false, ◌&&◌, ◌==◌, Bool-cases, inl, inr, arith, length, ==_iff,
}
use android_sdk_custom.Interfaces.Bits.{
  bits, mask_bits, IsBytes, clear, counted, all_ones, shifted, shifted_8, high, low, clear-bits,
  clear-++, mask_bits_cons, clear-mask_bits,
}
use android_sdk_custom.Interfaces.Prefix.{
  Run, value, aborted, and_then, high_bit, ones_loop, shift_loop, zeros_loop, checked, partial_byte,
  to_prefix_length, shift_fuel,
}

-- What is left after the ones.
abbrev rest : Bool → ℕ → Run ℕ
rest c n = elim c [ true ↦ value n | false ↦ aborted ]

rest_lem :
    (c d : Bool) (z : Run ℕ) (n : ℕ)
    → z ≡ rest d n
    → elim c as (λ _. Run ℕ) [ true ↦ z | false ↦ aborted ] ≡ rest (c && d) n
rest_lem true d z n e = e
rest_lem false d z n e = refl

zeros_loop_lem :
    (bs : List ℕ) (n : ℕ) → IsBytes bs → zeros_loop bs n ≡ rest (clear (mask_bits bs)) n
unfolding zeros_loop mask_bits
zeros_loop_lem [] n h = refl
zeros_loop_lem (b ∷ bs) n h =
    rest_lem (b == 0) (clear (mask_bits bs)) (zeros_loop bs n) n (zeros_loop_lem bs n h.1)
    ∙ ap (λ c. rest c n) (sym (clear-mask_bits b bs h.0))

checked_lem :
    (b : ℕ) (bs : List ℕ) (n : ℕ)
    → IsBytes bs
    → checked bs (b, n) ≡ rest ((b == 0) && clear (mask_bits bs)) n
checked_lem b bs n h =
    rest_lem (b == 0) (clear (mask_bits bs)) (zeros_loop bs n) n (zeros_loop_lem bs n h)

shift_step :
    (c : Bool) (b n : ℕ) (bs : List ℕ) (z : Run (ℕ × ℕ)) (xs : List Bool)
    → (c ≡ true → and_then z (checked bs) ≡ counted (n + 1) xs)
    → (c ≡ false → checked bs (b, n) ≡ rest (clear xs) n)
    → and_then (elim c as (λ _. Run (ℕ × ℕ)) [ true ↦ z | false ↦ value (b, n) ]) (checked bs)
      ≡ counted n (c ∷ xs)
shift_step true b n bs z xs t f = t refl
shift_step false b n bs z xs t f = f refl

clear-tail :
    (k b : ℕ) (bs : List ℕ)
    → b < 256
    → shifted k (2 * b % 256) ≡ 0
    → high_bit b ≡ false
    → clear (bits k (2 * b % 256) ++ mask_bits bs) ≡ ((b == 0) && clear (mask_bits bs))
clear-tail k b bs lt e f =
    let tail = 2 * b % 256 in
    clear-++ (bits k tail) (mask_bits bs)
    ∙ ap (λ c. c && clear (mask_bits bs))
        (clear-bits k tail (omega arith) e ∙ ground (arith, low b lt f))

shift_loop_lem :
    (k fuel b n : ℕ) (bs : List ℕ)
    → k < fuel
    → b < 256
    → shifted k b ≡ 0
    → all_ones (bits k b) ≡ false
    → n + k < 256
    → IsBytes bs
    → and_then (shift_loop fuel b n) (checked bs) ≡ counted n (bits k b ++ mask_bits bs)
unfolding shift_loop bits shifted
shift_loop_lem zero fuel b n bs le lt e o s h = ground (arith, o)
shift_loop_lem (suc k) zero b n bs le lt e o s h = ground (arith, le)
shift_loop_lem (suc k) (suc fuel) b n bs le lt e o s h =
    let tail = 2 * b % 256 in
    let next : (n + 1) % 256 ≡ n + 1 = omega arith in
    shift_step (high_bit b) b n bs (shift_loop fuel tail ((n + 1) % 256))
      (bits k tail ++ mask_bits bs)
      (λ t. rw next (
        shift_loop_lem k fuel tail (n + 1) bs (omega (arith, le)) (omega arith) e
          (subst (λ c. all_ones (c ∷ bits k tail) ≡ false) t o) (omega (arith, s)) h))
      (λ f. checked_lem b bs n h ∙ ap (λ c. rest c n) (sym (clear-tail k b bs lt e f)))

unfoldable room : ℕ → ℕ → ℕ
room zero x = x
room (suc k) x = room k (2 * x + 1)

all_ones-room : (k b : ℕ) → b < 256 → all_ones (bits k b) ≡ true → room k (255 - b) < 256
unfolding bits room
all_ones-room zero b lt o = omega arith
all_ones-room (suc k) b lt o = elim (Bool-cases (high_bit b)) [
  | inl t ↦
      let tail = 2 * b % 256 in
      let eq : 255 - tail ≡ 2 * (255 - b) + 1 = omega (arith, high b lt t) in
      subst (λ x. room k x < 256) eq
        (all_ones-room k tail (omega arith) (subst (λ c. all_ones (c ∷ bits k tail) ≡ true) t o))
  | inr f ↦ ground (arith, subst (λ c. all_ones (c ∷ bits k (2 * b % 256)) ≡ true) f o)
]

-- Only 255 has eight ones.
all_ones_byte : (b : ℕ) → b < 256 → b ≢ 255 → all_ones (bits 8 b) ≡ false
unfolding room
all_ones_byte b lt ne = elim (Bool-cases (all_ones (bits 8 b))) [
  | inl t ↦ ground (arith, all_ones-room 8 b lt t, ne)
  | inr f ↦ f
]

ones_byte : (xs : List Bool) (n : ℕ) → counted n (bits 8 255 ++ xs) ≡ counted (n + 8) xs
unfolding bits
ones_byte xs n = ap (λ m. counted m xs) (omega arith)

zero_bits : (xs : List Bool) (n : ℕ) → counted n (bits 8 0 ++ xs) ≡ rest (clear xs) n
unfolding bits
zero_bits xs n = refl

mask_nil : (n : ℕ) → rest (clear (mask_bits [])) n ≡ counted n (mask_bits [])
unfolding mask_bits
mask_nil n = refl

zero_byte :
    (b : ℕ) (bs : List ℕ) (n : ℕ)
    → (b == 0) ≡ true
    → IsBytes (b ∷ bs)
    → zeros_loop (b ∷ bs) n ≡ counted n (mask_bits (b ∷ bs))
zero_byte b bs n t h =
    let e = (==_iff b 0).0 t in
    zeros_loop_lem (b ∷ bs) n h
    ∙ rw (clear-mask_bits b bs h.0, mask_bits_cons b bs, t, e, zero_bits (mask_bits bs) n) refl

-- A byte that the loop over the ones stopped at.
stopped_lem :
    (b : ℕ) (bs : List ℕ) (n : ℕ)
    → b < 256
    → b ≢ 255
    → IsBytes bs
    → n + 8 < 256
    → partial_byte (b ∷ bs, n) ≡ counted n (mask_bits (b ∷ bs))
stopped_lem b bs n lt ne h s =
    branches (λ r. r ≡ counted n (mask_bits (b ∷ bs))) (b == 0) (zeros_loop (b ∷ bs) n)
      (and_then (shift_loop shift_fuel b n) (checked bs)) (λ t. zero_byte b bs n t (lt, h))
      (λ f. rw (mask_bits_cons b bs) (
        shift_loop_lem 8 shift_fuel b n bs (omega arith) lt (shifted_8 b lt) (all_ones_byte b lt ne)
          s h))

partial_byte_lem :
    (bs : List ℕ) (n : ℕ)
    → IsBytes bs
    → n + 8 * length bs < 256
    → partial_byte (ones_loop bs n) ≡ counted n (mask_bits bs)
unfolding ones_loop
partial_byte_lem [] n h s = zeros_loop_lem [] n h ∙ mask_nil n
partial_byte_lem (b ∷ bs) n h s =
    let next : (n + 8) % 256 ≡ n + 8 = omega (arith, s) in
    branches (λ p. partial_byte p ≡ counted n (mask_bits (b ∷ bs))) (b == 255)
      (ones_loop bs ((n + 8) % 256)) (b ∷ bs, n)
      (λ t.
        rw (next, mask_bits_cons b bs, (==_iff b 255).0 t, ones_byte (mask_bits bs) n)
          (partial_byte_lem bs (n + 8) h.1 (omega (arith, s))))
      (λ f. stopped_lem b bs n h.0 (λ e. ground (arith, f, e)) h.1 (omega (arith, s)))

-- For a mask of bytes, short enough that eight times its length is below 256, ToPrefixLength returns
-- the number of ones in front of the first zero bit when no one follows it, and fails its check when
-- one does; the loops end.
pub to_prefix_length_lem :
    (netmask : List ℕ)
    → IsBytes netmask
    → 8 * length netmask < 256
    → to_prefix_length netmask ≡ counted 0 (mask_bits netmask)
unfolding to_prefix_length
to_prefix_length_lem netmask h s = partial_byte_lem netmask 0 h (omega (arith, s))
