-- ===== src/HostCompat/Once.antt =====
-- Reading a header with an include guard twice.
use Prim.Native.String.{String}
use text.Mathlib.TextEquality.{eq_iff}
use mathlib.Core.Path.{subst}
use android_sdk_custom.Prelude.{
  ◌≡◌, refl, sym, ap, [], ◌∷◌, some, Bool, true, false, not, Bool-cases, inl, inr, if◌then◌else◌,
}
use android_sdk_custom.HostCompat.Preprocessor.{
  Body, tokens, Condition, define, choose, done, ◌▸◌, defined, negation, Lines, Macros, lookup,
  is_some, holds, run_line, run, with_macro, when,
}
use android_sdk_custom.HostCompat.Analysis.{spares}
use android_sdk_custom.HostCompat.Sound.{run-Holding}
use android_sdk_custom.HostCompat.Guards.{defined_Holding}

-- `#ifndef guard`, `#define guard`, the sections, `#endif`.
abbrev pub guarded : String → Lines → Lines
guarded guard sections =
    when (negation (defined guard)) (define guard (tokens "") ▸ sections) ▸ done

-- The test of the include guard.
abbrev guard_open : String → Macros → Bool
guard_open guard s = holds (negation (defined guard)) s

module _ (system : String → Macros → Macros) (s : Macros) where
  choose_first :
      (c : Condition) (a b : Lines)
      → holds c s ≡ true
      → run_line system (choose c a b) s ≡ run system a s
  unfolding run_line
  choose_first c a b e =
      subst (λ t. (elim t [ true ↦ run system a s | false ↦ run system b s ]) ≡ run system a s)
        (sym e) refl

  choose_second :
      (c : Condition) (a b : Lines)
      → holds c s ≡ false
      → run_line system (choose c a b) s ≡ run system b s
  unfolding run_line
  choose_second c a b e =
      subst (λ t. (elim t [ true ↦ run system a s | false ↦ run system b s ]) ≡ run system b s)
        (sym e) refl

module _ (guard : String) (sections : Lines) (system : String → Macros → Macros) where
  abbrev inside : Macros → Macros
  inside s = run system sections (with_macro guard (tokens "") s)

  second_read :
      (s : Macros) → guard_open guard s ≡ false → run system (guarded guard sections) s ≡ s
  unfolding run
  second_read s e =
      choose_second system s (negation (defined guard)) (define guard (tokens "") ▸ sections) done e

  first_read :
      (s : Macros) → guard_open guard s ≡ true → run system (guarded guard sections) s ≡ inside s
  unfolding run
  first_read s e =
      choose_first system s (negation (defined guard)) (define guard (tokens "") ▸ sections) done e

  -- Where the system's headers leave the guard alone once it is defined, and the sections do not
  -- define it, a second reading changes nothing.
  pub guarded_twice :
      (s : Macros)
      → spares ((guard, true) ∷ []) guard sections ≡ true
      → ((b : Body) (h : String) (t : Macros)
          → lookup guard t ≡ some b
          → lookup guard (system h t) ≡ some b)
      → run system (guarded guard sections) (run system (guarded guard sections) s)
        ≡ run system (guarded guard sections) s
  unfolding holds
  guarded_twice s spared keeps = elim (Bool-cases (guard_open guard s)) [
    | inr e ↦ rw (second_read s e) (second_read s e)
    | inl e ↦
        let after : Macros = inside s in
        let kept : lookup guard after ≡ some (tokens "") =
          (run-Holding ((guard, true) ∷ []) guard (some (tokens "")) system
            (λ h u k.
              defined_Holding guard (tokens "") (system h u) (keeps (tokens "") h u k.stands))
            sections (with_macro guard (tokens "") s) spared
            (defined_Holding guard (tokens "") (with_macro guard (tokens "") s) (
              subst (λ b. (if b then some (tokens "") else lookup guard s) ≡ some (tokens ""))
                (sym ((eq_iff guard guard).1 refl)) refl))).stands in
        let closed : guard_open guard after ≡ false = ap (λ o. not (is_some o)) kept in
        rw (first_read s e) (second_read after closed)
  ]
