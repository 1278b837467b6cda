-- ===== src/HostCompat/Sound.antt =====
-- The check of a header's lines is sound.
use Prim.Native.String.{String}
use text.Mathlib.Text.{◌==◌}
use text.Mathlib.TextEquality.{eq_iff}
use mathlib.Core.Path.{subst}
use android_sdk_custom.Prelude.{
  ◌≡◌, refl, Option, none, some, Bool, true, false, not, ◌&&◌, if◌then◌else◌, Bool-cases, inl, inr,
}
use android_sdk_custom.HostCompat.Preprocessor.{
  Body, Line, define, declare, include, choose, Lines, done, ◌▸◌, Macros, is_some, holds, run_line,
  run, with_macro,
}
use android_sdk_custom.HostCompat.Analysis.{
  Known, status, Answer, surely, never, unclear, judge, not_false, spares_line, spares, Matches,
  Holding, judge-Matches,
}

pub and_left : (b d : Bool) → (b && d) ≡ true → b ≡ true
and_left true d h = refl
and_left false d h = h

pub and_right : (b d : Bool) → (b && d) ≡ true → d ≡ true
and_right true d h = h
and_right false d h = cc

is_some-if :
    (b : Bool) (y : Body) (o : Option Body) → b ≡ true → is_some (if b then some y else o) ≡ true
is_some-if b y o e = rw e refl

true_if_not_false : (o : Option Bool) (d : Bool) → not_false o ≡ true → o ≡ some d → true ≡ d
true_if_not_false none d h e = cc
true_if_not_false (some true) d h e = cc
true_if_not_false (some false) d h e = cc

module _ (k : Known) (x : String) (v : Option Body) where
  define-Holding :
      (n : String) (b : Body) (s : Macros)
      → (not (n == x) && not_false (status n k)) ≡ true
      → Holding k x v s
      → Holding k x v (with_macro n b s)
  define-Holding n b s e h = record {
    agrees = λ m d q. elim (Bool-cases (n == m)) [
      | inl same ↦
          let p : n ≡ m = (eq_iff n m).0 same in
          rw same (
            true_if_not_false (status m k) d
              (subst (λ y. not_false (status y k) ≡ true) p (and_right (not (n == x)) _ e)) q)
      | inr other ↦ rw other (h.agrees m d q)
    ];
    stands = elim (Bool-cases (n == x)) [ inl same ↦ cc | inr other ↦ rw other h.stands ];
  }

  module _ (system : String → Macros → Macros)
      (keeps : (h : String) (s : Macros) → Holding k x v s → Holding k x v (system h s)) where
    branch :
        (a : Answer) (b : Bool) (p q : Bool) (P : Bool → Type 0)
        → Matches a b
        → (elim a [ surely ↦ p | never ↦ q | unclear ↦ p && q ]) ≡ true
        → (b ≡ true → p ≡ true → P b)
        → (b ≡ false → q ≡ true → P b)
        → P b
    branch surely b p q P m e f g = f m e
    branch never b p q P m e f g = g m e
    branch unclear true p q P m e f g = f refl (and_left p q e)
    branch unclear false p q P m e f g = g refl (and_right p q e)

    mutual
      unfolding spares_line run_line

      line_kept :
          (l : Line) (s : Macros)
          → spares_line k x l ≡ true
          → Holding k x v s
          → Holding k x v (run_line system l s)
      line_kept (define n b) s e h = define-Holding n b s e h
      line_kept (declare n) s e h = record { agrees = h.agrees; stands = h.stands }
      line_kept (include f) s e h = keeps f s h
      line_kept (choose c a b) s e h =
          branch (judge k c) (holds c s) (spares k x a) (spares k x b)
            (λ t. Holding k x v (elim t [ true ↦ run system a s | false ↦ run system b s ]))
            (judge-Matches k s c h.agrees) e (λ t p. rw t (lines_kept a s p h))
            (λ t p. rw t (lines_kept b s p h))

      lines_kept :
          (ls : Lines) (s : Macros)
          → spares k x ls ≡ true
          → Holding k x v s
          → Holding k x v (run system ls s)
      lines_kept done s e h = h
      lines_kept (l ▸ ls) s e h =
          lines_kept ls (run_line system l s) (and_right (spares_line k x l) (spares k x ls) e)
            (line_kept l s (and_left (spares_line k x l) (spares k x ls) e) h)

    -- A header that spares x leaves it as it was.
    pub run-Holding :
        (ls : Lines) (s : Macros)
        → spares k x ls ≡ true
        → Holding k x v s
        → Holding k x v (run system ls s)
    run-Holding ls s e h = lines_kept ls s e h
