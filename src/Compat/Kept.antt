-- ===== src/Compat/Kept.antt =====
-- What the small headers leave as it is.
use Prim.Native.String.{String}
use android_sdk_custom.Prelude.{◌≡◌, refl, List, [], ◌∷◌, some, true, false}
use android_sdk_custom.HostCompat.Preprocessor.{Body, Lines, Macros, lookup, run}
use android_sdk_custom.HostCompat.Analysis.{spares}
use android_sdk_custom.HostCompat.Guards.{elem, names_of, all_spared, header_keeps}
use android_sdk_custom.HostCompat.Once.{guarded_twice}
use android_sdk_custom.Compat.{
  byteswap, malloc, cdefs_guard, cdefs_sections, cdefs, int_l64_guard, int_ll64_sections,
  force_int_ll64, libcxx_transitive,
}

-- The five headers.
pub data Header : Type 0 where
  of_byteswap of_malloc of_cdefs of_int_ll64 of_libcxx : Header

abbrev pub lines : Header → Lines
lines of_byteswap = byteswap
lines of_malloc = malloc
lines of_cdefs = cdefs
lines of_int_ll64 = force_int_ll64
lines of_libcxx = libcxx_transitive

-- The macros that cdefs.h defines without a test.
abbrev pub brackets : List String
brackets = "__BEGIN_DECLS" ∷ "__END_DECLS" ∷ []

lines_spared : (h : Header) → all_spared brackets (lines h) (names_of (lines h)) ≡ true
unfolding names_of spares byteswap malloc cdefs force_int_ll64 libcxx_transitive
lines_spared of_byteswap = refl
lines_spared of_malloc = refl
lines_spared of_cdefs = refl
lines_spared of_int_ll64 = refl
lines_spared of_libcxx = refl

-- Each of the five headers leaves a macro that is defined as it is, where the system's headers do,
-- unless it is one of the two brackets of cdefs.h.
pub lines_keep :
    (system : String → Macros → Macros) (h : Header) (x : String) (b : Body) (s : Macros)
    → ((n : String) (t : Macros) → lookup x t ≡ some b → lookup x (system n t) ≡ some b)
    → elem x brackets ≡ false
    → lookup x s ≡ some b
    → lookup x (run system (lines h) s) ≡ some b
lines_keep system h x b s keeps t e =
    header_keeps brackets (lines h) system x b s (lines_spared h) keeps t e

-- A second reading of cdefs.h changes nothing; it includes no other header.
pub cdefs_twice :
    (system : String → Macros → Macros) (s : Macros)
    → ((b : Body) (h : String) (t : Macros)
        → lookup cdefs_guard t ≡ some b
        → lookup cdefs_guard (system h t) ≡ some b)
    → run system cdefs (run system cdefs s) ≡ run system cdefs s
unfolding cdefs spares
cdefs_twice system s keeps = guarded_twice cdefs_guard cdefs_sections system s refl keeps

pub force_int_ll64_twice :
    (system : String → Macros → Macros) (s : Macros)
    → ((b : Body) (h : String) (t : Macros)
        → lookup int_l64_guard t ≡ some b
        → lookup int_l64_guard (system h t) ≡ some b)
    → run system force_int_ll64 (run system force_int_ll64 s) ≡ run system force_int_ll64 s
unfolding force_int_ll64 spares
force_int_ll64_twice system s keeps =
    guarded_twice int_l64_guard int_ll64_sections system s refl keeps
