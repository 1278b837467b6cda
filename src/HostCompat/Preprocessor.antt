-- ===== src/HostCompat/Preprocessor.antt =====
-- What the C preprocessor makes of a header: macros are defined under conditions, and functions and
-- types are declared. Headers of the system are a parameter.
use Prim.Native.String.{String}
use text.Mathlib.Text.{◌==◌}
use android_sdk_custom.Prelude.{
  ℕ, List, [], ◌∷◌, Option, none, some, Bool, true, false, not, ◌&&◌, ◌||◌, ltb, if◌then◌else◌,
}

-- What a macro stands for: a number, or the text behind its name.
pub data Body : Type 0 where
  number : ℕ → Body
  tokens : String → Body

-- The condition of an `#if`; `below n k` is `n < k`.
pub data Condition : Type 0 where
  defined : String → Condition
  below : String → ℕ → Condition
  negation : Condition → Condition
  both either : Condition → Condition → Condition

-- The lines of a header; `choose` is `#if ... #else ... #endif`, and `declare` stands for the
-- definition of a function or a type. `◌▸◌` puts a line in front of others.
infixr 20 ◌▸◌
mutual
  pub data Line : Type 0 where
    define : String → Body → Line
    declare : String → Line
    include : String → Line
    choose : Condition → Lines → Lines → Line

  pub data Lines : Type 0 where
    done : Lines
    ◌▸◌ : Line → Lines → Lines

-- The macros, the newest first, and the names declared.
pub record Macros : Type 0 where
  pub macros : List (String × Body)
  pub declared : List String

abbrev pub lookup_in : String → List (String × Body) → Option Body
lookup_in n [] = none
lookup_in n ((m, b) ∷ ms) = if m == n then some b else lookup_in n ms

abbrev pub lookup : String → Macros → Option Body
lookup n s = lookup_in n s.macros

abbrev pub is_some : Option Body → Bool
is_some none = false
is_some (some b) = true

-- An identifier that is left stands for 0.
-- A macro that is defined through another one counts as 0, without a second expansion.
abbrev pub number_of : Option Body → ℕ
number_of none = 0
number_of (some (number k)) = k
number_of (some (tokens t)) = 0

unfoldable pub holds : Condition → Macros → Bool
holds (defined n) s = is_some (lookup n s)
holds (below n k) s = ltb (number_of (lookup n s)) k
holds (negation c) s = not (holds c s)
holds (both c d) s = holds c s && holds d s
holds (either c d) s = holds c s || holds d s

abbrev pub with_macro : String → Body → Macros → Macros
with_macro n b s = record s { macros = (n, b) ∷ s.macros }

abbrev pub with_name : String → Macros → Macros
with_name n s = record s { declared = n ∷ s.declared }

unfoldable mutual
  unfolding holds

  pub run_line : (String → Macros → Macros) → Line → Macros → Macros
  run_line system (define n b) s = with_macro n b s
  run_line system (declare n) s = with_name n s
  run_line system (include h) s = system h s
  run_line system (choose c a b) s = elim (holds c s) [
    | true ↦ run system a s
    | false ↦ run system b s
  ]

  pub run : (String → Macros → Macros) → Lines → Macros → Macros
  run system done s = s
  run system (l ▸ ls) s = run system ls (run_line system l s)

-- `#if`, without an `#else`.
abbrev pub when : Condition → Lines → Line
when c a = choose c a done

-- `#ifndef n`, `#define n b`, `#endif`.
abbrev pub define_new : String → Body → Line
define_new n b = when (negation (defined n)) (define n b ▸ done)
