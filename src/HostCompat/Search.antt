-- ===== src/HostCompat/Search.antt =====
-- Searches in lists: the first position, strstr and strchr.
use mathlib.Core.Path.{subst}
use mathlib.Core.Option.{some-injective}
use android_sdk_custom.HostCompat.Mount.{begins, later, begins_end, strstr, strchr, byte}
use android_sdk_custom.Prelude.{
  ◌⊎◌, ℕ, zero, suc, ◌+◌, ◌<◌, ◌≡◌, refl, sym, ap, ◌∙◌, List, [], ◌∷◌, Option, none, some, Bool,
  true, false, ◌==◌, drop, length, inl, inr, arith, if◌then◌else◌, drop_nil,
}

-- The first position of n from i on that has p.
abbrev pub first : (ℕ → Bool) → ℕ → ℕ → Option ℕ
first p i zero = none
first p i (suc n) = if p i then some i else first p (i + 1) n

abbrev pub Lacks : (ℕ → Bool) → ℕ → ℕ → Type 0
Lacks p i n = (j : ℕ) → j < n → p (i + j) ≡ false

tail_Lacks : (p : ℕ → Bool) (i n : ℕ) → Lacks p i (suc n) → Lacks p (i + 1) n
tail_Lacks p i n h j lt = subst (λ m. p m ≡ false) (omega arith) (h (suc j) (omega (arith, lt)))

pub no_first : (p : ℕ → Bool) (i n : ℕ) → p i ≡ false → first p i (suc n) ≡ first p (i + 1) n
no_first p i n e = rw e refl

pub first_skip : (p : ℕ → Bool) (k i n : ℕ) → Lacks p i k → first p i (k + n) ≡ first p (i + k) n
first_skip p zero i n h = ap (first p i) (omega arith) ∙ ap (λ m. first p m n) (omega arith)
first_skip p (suc k) i n h =
    let skipped : first p i (suc (k + n)) ≡ first p (i + 1) (k + n) =
      no_first p i (k + n) (subst (λ m. p m ≡ false) (omega arith) (h 0 (omega arith))) in
    let one_more : suc k + n ≡ suc (k + n) = omega arith in
    ap (first p i) one_more
    ∙ skipped
    ∙ first_skip p k (i + 1) n (tail_Lacks p i k h)
    ∙ ap (λ m. first p m n) (omega arith)

pub first-none : (p : ℕ → Bool) (n i : ℕ) → Lacks p i n → first p i n ≡ none
first-none p zero i h = refl
first-none p (suc n) i h =
    no_first p i n (subst (λ m. p m ≡ false) (omega arith) (h 0 (omega arith)))
    ∙ first-none p n (i + 1) (tail_Lacks p i n h)

pub byte-drop : (i j : ℕ) (s : List ℕ) → byte (drop i s) j ≡ byte s (i + j)
byte-drop zero j s = ap (byte s) (omega arith)
byte-drop (suc i) j [] = refl
byte-drop (suc i) j (c ∷ s) =
    let e : suc (i + j) ≡ suc i + j = omega arith in byte-drop i j s ∙ ap (byte (c ∷ s)) e

-- What a search finds.
pub record Found (p : ℕ → Bool) (n k : ℕ) : Type 0 where
  pub within : k < n
  pub here : p k ≡ true
  pub before : (j : ℕ) → j < k → p j ≡ false

later-none : (o : Option ℕ) → later o ≡ none → o ≡ none
later-none none e = refl
later-none (some k) e = cc

later-some : (o : Option ℕ) (k : ℕ) → later o ≡ some k → (m : ℕ) × ((o ≡ some m) × (k ≡ suc m))
later-some none k e = cc
later-some (some m) k e = (m, (refl, sym (some-injective (suc m) k e)))

begins_end-none : (b : Bool) → begins_end b ≡ none → b ≡ false
begins_end-none true e = cc
begins_end-none false e = refl

begins_end-some : (b : Bool) (k : ℕ) → begins_end b ≡ some k → (b ≡ true) × (k ≡ 0)
begins_end-some true k e = (refl, sym (some-injective 0 k e))
begins_end-some false k e = cc

choice_none :
    (b : Bool) (o : Option ℕ)
    → elim b as (λ _. Option ℕ) [ true ↦ some 0 | false ↦ later o ] ≡ none
    → (b ≡ false) × (o ≡ none)
choice_none true o e = cc
choice_none false o e = (refl, later-none o e)

choice_some :
    (b : Bool) (o : Option ℕ) (k : ℕ)
    → elim b as (λ _. Option ℕ) [ true ↦ some 0 | false ↦ later o ] ≡ some k
    → ((b ≡ true) × (k ≡ 0)) ⊎ ((b ≡ false) × ((m : ℕ) × ((o ≡ some m) × (k ≡ suc m))))
choice_some true o k e = inl (refl, sym (some-injective 0 k e))
choice_some false o k e = inr (refl, later-some o k e)

before_next :
    (p : ℕ → Bool) (m : ℕ)
    → p 0 ≡ false
    → ((j : ℕ) → j < m → p (suc j) ≡ false)
    → (j : ℕ) → j < suc m
    → p j ≡ false
before_next p m z f zero lt = z
before_next p m z f (suc j) lt = f j (omega (arith, lt))

next_Found :
    (p : ℕ → Bool) (n m : ℕ) → p 0 ≡ false → Found (λ j. p (suc j)) n m → Found p (suc n) (suc m)
next_Found p n m z f = record {
  within = omega (arith, f.within);
  here = f.here;
  before = λ j lt. before_next p m z f.before j lt;
}

first_Found : (p : ℕ → Bool) (n : ℕ) → p 0 ≡ true → Found p (suc n) 0
first_Found p n e = record {
  within = omega arith;
  here = e;
  before = λ j lt. absurd (omega (arith, lt));
}

pub strstr-none :
    (s opt : List ℕ) (j : ℕ)
    → strstr s opt ≡ none
    → j < suc (length s)
    → begins opt (drop j s) ≡ false
unfolding strstr
strstr-none [] opt j e lt = rw (drop_nil j) (begins_end-none (begins opt []) e)
strstr-none (d ∷ s) opt zero e lt = (choice_none (begins opt (d ∷ s)) (strstr s opt) e).0
strstr-none (d ∷ s) opt (suc j) e lt =
    strstr-none s opt j (choice_none (begins opt (d ∷ s)) (strstr s opt) e).1 (omega (arith, lt))

pub strstr-some :
    (s opt : List ℕ) (k : ℕ)
    → strstr s opt ≡ some k
    → Found (λ j. begins opt (drop j s)) (suc (length s)) k
unfolding strstr
strstr-some [] opt k e =
    let b = begins_end-some (begins opt []) k e in
    subst (Found (λ j. begins opt (drop j [])) 1) (sym b.1)
      (first_Found (λ j. begins opt (drop j [])) 0 b.0)
strstr-some (d ∷ s) opt k e =
    let p : ℕ → Bool = λ j. begins opt (drop j (d ∷ s)) in
    let n = suc (length s) in
    elim (choice_some (begins opt (d ∷ s)) (strstr s opt) k e) [
      | inl (t, z) ↦ subst (Found p (suc n)) (sym z) (first_Found p n t)
      | inr (f, (m, (q, z))) ↦
          subst (Found p (suc n)) (sym z) (next_Found p n m f (strstr-some s opt m q))
    ]

pub strchr-none :
    (s : List ℕ) (c j : ℕ) → strchr s c ≡ none → j < length s → (byte s j == c) ≡ false
unfolding strchr
strchr-none [] c j e lt = absurd (omega (arith, lt))
strchr-none (d ∷ s) c zero e lt = (choice_none (d == c) (strchr s c) e).0
strchr-none (d ∷ s) c (suc j) e lt =
    strchr-none s c j (choice_none (d == c) (strchr s c) e).1 (omega (arith, lt))

pub strchr-some :
    (s : List ℕ) (c k : ℕ) → strchr s c ≡ some k → Found (λ j. byte s j == c) (length s) k
unfolding strchr
strchr-some [] c k e = cc
strchr-some (d ∷ s) c k e =
    let p : ℕ → Bool = λ j. byte (d ∷ s) j == c in
    elim (choice_some (d == c) (strchr s c) k e) [
      | inl (t, z) ↦ subst (Found p (suc (length s))) (sym z) (first_Found p (length s) t)
      | inr (f, (m, (q, z))) ↦
          subst (Found p (suc (length s))) (sym z)
            (next_Found p (length s) m f (strchr-some s c m q))
    ]
