-- ===== src/Interfaces/Prefix.antt =====
-- ToPrefixLength of patches/sources/openscreen_network_interface_bsd.cc; bytes are numbers below 256.
use android_sdk_custom.Prelude.{
  ℕ, zero, suc, ◌+◌, ◌*◌, ◌/◌, ◌%◌, List, [], ◌∷◌, Bool, true, false, ◌==◌,
}

-- What a call comes to: a value, a failed OSP_CHECK, or a loop whose fuel ran out.
pub data Run (A : Type 0) : Type 0 where
  value : A → Run A
  aborted exhausted : Run A

abbrev pub and_then : {A B : Type 0} → Run A → (A → Run B) → Run B
and_then (value a) f = f a
and_then aborted f = aborted
and_then exhausted f = exhausted

-- `last_byte & 0x80`
abbrev pub high_bit : ℕ → Bool
high_bit b = b / 128 % 2 == 1

-- The bytes of ones in front, with the bytes that are left.
unfoldable pub ones_loop : List ℕ → ℕ → List ℕ × ℕ
ones_loop [] result = ([], result)
ones_loop (b ∷ bs) result = elim (b == 255) [
  | true ↦ ones_loop bs ((result + 8) % 256)
  | false ↦ (b ∷ bs, result)
]

-- The byte that is left when its high bit is not set, with the count.
unfoldable pub shift_loop : ℕ → ℕ → ℕ → Run (ℕ × ℕ)
shift_loop zero b result = exhausted
shift_loop (suc fuel) b result = elim (high_bit b) [
  | true ↦ shift_loop fuel (2 * b % 256) ((result + 1) % 256)
  | false ↦ value (b, result)
]

unfoldable pub zeros_loop : List ℕ → ℕ → Run ℕ
zeros_loop [] result = value result
zeros_loop (b ∷ bs) result = elim (b == 0) [ true ↦ zeros_loop bs result | false ↦ aborted ]

-- The check between the loops.
abbrev pub checked : List ℕ → ℕ × ℕ → Run ℕ
checked bs (b, result) = elim (b == 0) [ true ↦ zeros_loop bs result | false ↦ aborted ]

abbrev pub shift_fuel : ℕ
shift_fuel = 9

abbrev pub partial_byte : List ℕ × ℕ → Run ℕ
partial_byte ([], result) = zeros_loop [] result
partial_byte (b ∷ bs, result) = elim (b == 0) [
  | true ↦ zeros_loop (b ∷ bs) result
  | false ↦ and_then (shift_loop shift_fuel b result) (checked bs)
]

unfoldable pub to_prefix_length : List ℕ → Run ℕ
unfolding ones_loop shift_loop zeros_loop
to_prefix_length netmask = partial_byte (ones_loop netmask 0)
