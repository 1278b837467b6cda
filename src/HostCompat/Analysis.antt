-- ===== src/HostCompat/Analysis.antt =====
-- Which macros a header leaves alone, from what is known of the macros before it: a check of its
-- lines, and its soundness.
use mathlib.Core.Path.{subst}
use Prim.Native.String.{String}
use text.Mathlib.Text.{◌==◌}
use android_sdk_custom.Prelude.{
  ◌≡◌, refl, ap, List, [], ◌∷◌, Option, none, some, Bool, true, false, not, ◌&&◌, ◌||◌,
  if◌then◌else◌,
}
use android_sdk_custom.HostCompat.Preprocessor.{
  Body, Condition, defined, below, negation, both, either, Line, define, declare, include, choose,
  Lines, done, ◌▸◌, Macros, lookup, is_some, holds,
}

-- Names that are known to be defined (true) or not to be (false).
abbrev pub Known : Type 0
Known = List (String × Bool)

abbrev pub status : String → Known → Option Bool
status n [] = none
status n ((m, d) ∷ ks) = if m == n then some d else status n ks

pub data Answer : Type 0 where
  surely never unclear : Answer

abbrev pub opposite : Answer → Answer
opposite surely = never
opposite never = surely
opposite unclear = unclear

abbrev pub conjunction : Answer → Answer → Answer
conjunction never b = never
conjunction surely b = b
conjunction unclear never = never
conjunction unclear surely = unclear
conjunction unclear unclear = unclear

abbrev pub answer_of : Option Bool → Answer
answer_of none = unclear
answer_of (some true) = surely
answer_of (some false) = never

abbrev pub judge : Known → Condition → Answer
judge k (defined n) = answer_of (status n k)
judge k (below n j) = unclear
judge k (negation c) = opposite (judge k c)
judge k (both c d) = conjunction (judge k c) (judge k d)
judge k (either c d) = opposite (conjunction (opposite (judge k c)) (opposite (judge k d)))

abbrev pub not_false : Option Bool → Bool
not_false none = true
not_false (some true) = true
not_false (some false) = false

-- No line that may be read defines x, or a name that is known not to be defined.
unfoldable mutual
  pub spares_line : Known → String → Line → Bool
  spares_line k x (define n b) = not (n == x) && not_false (status n k)
  spares_line k x (declare n) = true
  spares_line k x (include h) = true
  spares_line k x (choose c a b) = elim (judge k c) [
    | surely ↦ spares k x a
    | never ↦ spares k x b
    | unclear ↦ spares k x a && spares k x b
  ]

  pub spares : Known → String → Lines → Bool
  spares k x done = true
  spares k x (l ▸ ls) = spares_line k x l && spares k x ls

abbrev pub Matches : Answer → Bool → Type 0
Matches surely b = b ≡ true
Matches never b = b ≡ false
Matches unclear b = Unit {0}

abbrev pub Agrees : Known → Macros → Type 0
Agrees k s = (n : String) (d : Bool) → status n k ≡ some d → is_some (lookup n s) ≡ d

-- The macros agree with what is known, and x stands for v.
pub record Holding (k : Known) (x : String) (v : Option Body) (s : Macros) : Type 0 where
  pub agrees : Agrees k s
  pub stands : lookup x s ≡ v

opposite-Matches : (a : Answer) (b : Bool) → Matches a b → Matches (opposite a) (not b)
opposite-Matches surely b m = ap not m
opposite-Matches never b m = ap not m
opposite-Matches unclear b m = tt

conjunction-Matches :
    (a c : Answer) (b d : Bool) → Matches a b → Matches c d → Matches (conjunction a c) (b && d)
conjunction-Matches never c b d m n = rw m refl
conjunction-Matches surely surely b d m n = rw (m, n) refl
conjunction-Matches surely never b d m n = rw (m, n) refl
conjunction-Matches surely unclear b d m n = tt
conjunction-Matches unclear surely b d m n = tt
conjunction-Matches unclear never true d m n = n
conjunction-Matches unclear never false d m n = refl
conjunction-Matches unclear unclear b d m n = tt

or_by_and : (b d : Bool) → not (not b && not d) ≡ (b || d)
or_by_and true d = refl
or_by_and false true = refl
or_by_and false false = refl

answer_of-Matches :
    (o : Option Bool) (b : Bool) → ((d : Bool) → o ≡ some d → b ≡ d) → Matches (answer_of o) b
answer_of-Matches none b h = tt
answer_of-Matches (some true) b h = h true refl
answer_of-Matches (some false) b h = h false refl

pub judge-Matches :
    (k : Known) (s : Macros) (c : Condition) → Agrees k s → Matches (judge k c) (holds c s)
unfolding holds
judge-Matches k s (defined n) g =
    answer_of-Matches (status n k) (is_some (lookup n s)) (λ d e. g n d e)
judge-Matches k s (below n j) g = tt
judge-Matches k s (negation c) g = opposite-Matches (judge k c) (holds c s) (judge-Matches k s c g)
judge-Matches k s (both c d) g =
    conjunction-Matches (judge k c) (judge k d) (holds c s) (holds d s) (judge-Matches k s c g)
      (judge-Matches k s d g)
judge-Matches k s (either c d) g =
    subst (λ b. Matches (judge k (either c d)) b) (or_by_and (holds c s) (holds d s))
      (opposite-Matches (conjunction (opposite (judge k c)) (opposite (judge k d))) _ (
        conjunction-Matches (opposite (judge k c)) (opposite (judge k d)) (not (holds c s))
          (not (holds d s)) (opposite-Matches (judge k c) (holds c s) (judge-Matches k s c g))
          (opposite-Matches (judge k d) (holds d s) (judge-Matches k s d g))))
