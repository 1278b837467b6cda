-- ===== src/HostCompat/Guards.antt =====
-- What host_compat.h does to the macros that are there before it.
use Prim.Native.String.{String}
use text.Mathlib.Text.{◌==◌}
use text.Mathlib.TextEquality.{eq_iff}
use mathlib.Core.Path.{subst}
use android_sdk_custom.Prelude.{
  ◌≡◌, refl, sym, ap, ◌∙◌, List, [], ◌∷◌, ◌++◌, none, some, Bool, true, false, not, ◌&&◌, ◌||◌,
  if◌then◌else◌, Bool-cases, inl, inr,
}
use android_sdk_custom.HostCompat.Preprocessor.{
  Body, Line, define, declare, include, choose, Lines, done, ◌▸◌, Macros, lookup, is_some, run,
}
use android_sdk_custom.HostCompat.Header.{host_compat}
use android_sdk_custom.HostCompat.Analysis.{
  status, Answer, surely, never, unclear, judge, not_false, spares_line, spares, Holding,
}
use android_sdk_custom.HostCompat.Sound.{run-Holding, and_left, and_right}

abbrev pub elem : String → List String → Bool
elem x [] = false
elem x (n ∷ ns) = (n == x) || elem x ns

-- The names that some line defines.
unfoldable mutual
  pub names_of_line : Line → List String
  names_of_line (define n b) = n ∷ []
  names_of_line (declare n) = []
  names_of_line (include h) = []
  names_of_line (choose c a b) = names_of a ++ names_of b

  pub names_of : Lines → List String
  names_of done = []
  names_of (l ▸ ls) = names_of_line l ++ names_of ls

-- The macros that are defined without a test.
abbrev pub untested : List String
untested =
    "pthread_rwlockattr_setpshared" ∷ "pthread_mutexattr_setpshared" ∷ "pthread_condattr_setpshared"
    ∷ []

-- The name may be defined without a test, or the header leaves it alone where it is defined.
abbrev pub spared : List String → Lines → String → Bool
spared free header n = elem n free || spares ((n, true) ∷ []) n header

abbrev pub all_spared : List String → Lines → List String → Bool
all_spared free header [] = true
all_spared free header (n ∷ ns) = spared free header n && all_spared free header ns

elem-append : (x : String) (ns bs : List String) → elem x (ns ++ bs) ≡ (elem x ns || elem x bs)
elem-append x [] bs = refl
elem-append x (a ∷ ns) bs = elim (Bool-cases (a == x)) [
  | inl e ↦ rw e refl
  | inr e ↦ rw e (elem-append x ns bs)
]

or_left : (a b : Bool) → (a || b) ≡ false → a ≡ false
or_left true b h = h
or_left false b h = refl

or_right : (a b : Bool) → (a || b) ≡ false → b ≡ false
or_right true b h = cc
or_right false b h = h

both_true : (a b : Bool) → a ≡ true → b ≡ true → (a && b) ≡ true
both_true a b p q = rw (p, q) refl

every_branch :
    (a : Answer) (p q : Bool)
    → p ≡ true
    → q ≡ true
    → (elim a [ surely ↦ p | never ↦ q | unclear ↦ p && q ]) ≡ true
every_branch surely p q e f = e
every_branch never p q e f = f
every_branch unclear p q e f = both_true p q e f

not_false-if : (b : Bool) → not_false (if b then some true else none) ≡ true
not_false-if true = refl
not_false-if false = refl

-- A name that no line defines is spared.
mutual
  unfolding spares_line names_of_line

  absent_line :
      (x : String) (l : Line)
      → elem x (names_of_line l) ≡ false
      → spares_line ((x, true) ∷ []) x l ≡ true
  absent_line x (define n b) e =
      both_true (not (n == x)) _ (rw (or_left (n == x) false e) refl) (not_false-if (x == n))
  absent_line x (declare n) e = refl
  absent_line x (include h) e = refl
  absent_line x (choose c a b) e =
      let split = sym (elem-append x (names_of a) (names_of b)) ∙ e in
      every_branch (judge ((x, true) ∷ []) c) (spares ((x, true) ∷ []) x a)
        (spares ((x, true) ∷ []) x b)
        (absent x a (or_left (elem x (names_of a)) (elem x (names_of b)) split))
        (absent x b (or_right (elem x (names_of a)) (elem x (names_of b)) split))

  absent :
      (x : String) (ls : Lines) → elem x (names_of ls) ≡ false → spares ((x, true) ∷ []) x ls ≡ true
  absent x done e = refl
  absent x (l ▸ ls) e =
      let split = sym (elem-append x (names_of_line l) (names_of ls)) ∙ e in
      both_true (spares_line ((x, true) ∷ []) x l) (spares ((x, true) ∷ []) x ls)
        (absent_line x l (or_left (elem x (names_of_line l)) (elem x (names_of ls)) split))
        (absent x ls (or_right (elem x (names_of_line l)) (elem x (names_of ls)) split))

spared_of_elem :
    (free : List String) (header : Lines) (x : String) (ns : List String)
    → all_spared free header ns ≡ true
    → elem x ns ≡ true
    → spared free header x ≡ true
spared_of_elem free header x [] a e = cc
spared_of_elem free header x (n ∷ ns) a e = elim (Bool-cases (n == x)) [
  | inl same ↦
      subst (λ y. spared free header y ≡ true) ((eq_iff n x).0 same)
        (and_left (spared free header n) (all_spared free header ns) a)
  | inr other ↦
      let later : elem x ns ≡ true = subst (λ b. (b || elem x ns) ≡ true) other e in
      spared_of_elem free header x ns
        (and_right (spared free header n) (all_spared free header ns) a) later
]

right_of_or : (a b : Bool) → a ≡ false → (a || b) ≡ true → b ≡ true
right_of_or true b e h = cc
right_of_or false b e h = h

tested_spares :
    (free : List String) (header : Lines) (x : String)
    → all_spared free header (names_of header) ≡ true
    → elem x free ≡ false
    → spares ((x, true) ∷ []) x header ≡ true
tested_spares free header x all t = elim (Bool-cases (elem x (names_of header))) [
  | inl e ↦ right_of_or (elem x free) _ t (spared_of_elem free header x (names_of header) all e)
  | inr e ↦ absent x header e
]

single_status :
    (x n : String) (d : Bool) → status n ((x, true) ∷ []) ≡ some d → (x ≡ n) × (d ≡ true)
single_status x n d e = elim (Bool-cases (x == n)) [
  | inl same ↦
      let q : some true ≡ some d = subst (λ b. (if b then some true else none) ≡ some d) same e in
      ((eq_iff x n).0 same, cc)
  | inr other ↦
      let q : none ≡ some d = subst (λ b. (if b then some true else none) ≡ some d) other e in cc
]

pub defined_Holding :
    (x : String) (b : Body) (s : Macros)
    → lookup x s ≡ some b
    → Holding ((x, true) ∷ []) x (some b) s
defined_Holding x b s e = record {
  agrees = λ n d q.
      let (p, t) = single_status x n d q in
      subst (λ m. is_some (lookup m s) ≡ d) p (ap is_some e ∙ sym t);
  stands = e;
}

-- A header whose names are all spared leaves a macro that is defined as it is, unless it is one of
-- those excepted.
pub header_keeps :
    (free : List String) (header : Lines) (system : String → Macros → Macros) (x : String)
    (b : Body) (s : Macros)
    → all_spared free header (names_of header) ≡ true
    → ((h : String) (t : Macros) → lookup x t ≡ some b → lookup x (system h t) ≡ some b)
    → elem x free ≡ false
    → lookup x s ≡ some b
    → lookup x (run system header s) ≡ some b
header_keeps free header system x b s all keeps t e =
    (run-Holding ((x, true) ∷ []) x (some b) system
      (λ h u k. defined_Holding x b (system h u) (keeps h u k.stands)) header s
      (tested_spares free header x all t) (defined_Holding x b s e)).stands

all_spared_check : all_spared untested host_compat (names_of host_compat) ≡ true
unfolding names_of host_compat spares
all_spared_check = refl

-- Of a macro that is defined before host_compat.h is read, and that the system's headers leave as it is
-- where it is defined: the header leaves it as it is too, unless it is one of the three
-- pthread_*attr_setpshared, which are defined without a test. This is so on every platform.
pub host_compat_keeps :
    (system : String → Macros → Macros) (x : String) (b : Body) (s : Macros)
    → ((h : String) (t : Macros) → lookup x t ≡ some b → lookup x (system h t) ≡ some b)
    → elem x untested ≡ false
    → lookup x s ≡ some b
    → lookup x (run system host_compat s) ≡ some b
host_compat_keeps system x b s keeps t e =
    header_keeps untested host_compat system x b s all_spared_check keeps t e
