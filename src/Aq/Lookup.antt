-- ===== src/Aq/Lookup.antt =====
-- Finding a queue by its key and putting one back in its place.
use android_sdk_custom.Prelude.{
  ℕ, ◌+◌, ◌≡◌, refl, List, [], ◌∷◌, none, some, true, inl, inr, arith, All, Bool-cases, Bool, ◌⊎◌,
  ==_refl,
}
use mathlib.Core.Path.{subst}
use android_sdk_custom.Aq.State.{Queue, fresh, has_key, find, replace}
use android_sdk_custom.Aq.Handlers.{lookup_or_add}

-- No two queues have the same handle and endpoint.
abbrev pub Distinct : List Queue → Type 0
Distinct [] = Unit {0}
Distinct (q ∷ qs) = (find q.handle q.ep qs ≡ none) × Distinct qs

-- The sum of a weight over the queues.
unfoldable pub total : (Queue → ℕ) → List Queue → ℕ
total w [] = 0
total w (q ∷ qs) = w q + total w qs

-- q has the key that r has.
abbrev pub SameKey : Queue → Queue → Type 0
SameKey q r = (q.handle ≡ r.handle) × (q.ep ≡ r.ep)

pub find-key :
    (h e : ℕ) (qs : List Queue) (q : Queue) → find h e qs ≡ some q → (q.handle ≡ h) × (q.ep ≡ e)
unfolding find
find-key h e [] q f = cc
find-key h e (r ∷ qs) q f = ground (arith, find-key h e qs q)

pub find-All :
    (P : Queue → Type 0) (h e : ℕ) (qs : List Queue) (q : Queue)
    → find h e qs ≡ some q
    → All P qs
    → P q
unfolding find
find-All P h e [] q f a = cc
find-All P h e (r ∷ qs) q f a = elim (Bool-cases (has_key h e r)) [
  | inl b ↦ let same : r ≡ q = ground arith in subst P same a.0
  | inr b ↦ let rest : find h e qs ≡ some q = ground arith in find-All P h e qs q rest a.1
]

pub replace-All :
    (P : Queue → Type 0) (q : Queue) (qs : List Queue) → P q → All P qs → All P (replace q qs)
unfolding replace
replace-All P q [] h a = tt
replace-All P q (r ∷ qs) h a = elim (Bool-cases (has_key q.handle q.ep r)) [
  | inl b ↦ rw b (h, a.1)
  | inr b ↦ rw b (a.0, replace-All P q qs h a.1)
]

replace_keeps_missing :
    (h e : ℕ) (q : Queue) (qs : List Queue) → find h e qs ≡ none → find h e (replace q qs) ≡ none
unfolding find replace
replace_keeps_missing h e q [] f = refl
replace_keeps_missing h e q (r ∷ qs) f = ground (arith, replace_keeps_missing h e q qs)

find-cong :
    (q r : Queue) (qs : List Queue)
    → has_key q.handle q.ep r ≡ true
    → find q.handle q.ep qs ≡ find r.handle r.ep qs
find-cong q r qs b = let same : SameKey q r = ground arith in rw (same.0, same.1) refl

pub replace-Distinct : (q : Queue) (qs : List Queue) → Distinct qs → Distinct (replace q qs)
unfolding replace
replace-Distinct q [] d = tt
replace-Distinct q (r ∷ qs) d = elim (Bool-cases (has_key q.handle q.ep r)) [
  | inl b ↦ rw b (ground (arith, d.0, find-cong q r qs b), d.1)
  | inr b ↦ rw b (replace_keeps_missing r.handle r.ep q qs d.0, replace-Distinct q qs d.1)
]

pub total-replace :
    (w : Queue → ℕ) (q r : Queue) (qs : List Queue)
    → find q.handle q.ep qs ≡ some r
    → total w (replace q qs) + w r ≡ total w qs + w q
unfolding find replace total
total-replace w q r [] f = cc
total-replace w q r (x ∷ qs) f = ground (arith, total-replace w q r qs)

-- The queue that a submit works on: it has the transfer's key, and it is one of the old queues or a
-- fresh one.
pub lookup_or_add_cases :
    (allocated : Bool) (h e : ℕ) (qs : List Queue) (q : Queue) (qs' : List Queue)
    → lookup_or_add allocated h e qs ≡ some (q, qs')
    → (find h e qs' ≡ some q)
      × (((find h e qs ≡ some q) × (qs' ≡ qs))
          ⊎ ((find h e qs ≡ none) × (q ≡ fresh h e) × (qs' ≡ fresh h e ∷ qs)))
unfolding lookup_or_add find fresh
lookup_or_add_cases allocated h e qs q qs' l = ground (arith, ==_refl h, ==_refl e)
