-- ===== src/AdbScan/Counts.antt =====
-- How often a device stands in a list, and in the calls of a round.
use mathlib.Core.Bool.{or-false, or_assoc}
use mathlib.Core.Path.{subst}
use android_sdk_custom.AdbScan.{
  Call, listing, free_list, ref, unref, arrived, left, elem, arrive_loop,
}
use android_sdk_custom.Prelude.{
  ℕ, ◌+◌, ◌≤◌, ◌≡◌, refl, sym, ap, ◌∙◌, List, [], ◌∷◌, ◌++◌, true, false, ◌==◌, ◌||◌, if◌then◌else◌,
  branches, Bool-cases, inl, inr, arith, ==_iff,
}

-- 1 for the same device.
abbrev pub one : ℕ → ℕ → ℕ
one x d = if x == d then 1 else 0

abbrev pub count : ℕ → List ℕ → ℕ
count d [] = 0
count d (x ∷ xs) = one x d + count d xs

abbrev pub taken : ℕ → Call → ℕ
taken d (listing xs) = count d xs
taken d (ref x) = one x d
taken d _ = 0

abbrev pub dropped : ℕ → Call → ℕ
dropped d (free_list xs) = count d xs
dropped d (unref x) = one x d
dropped d _ = 0

abbrev pub arrival : ℕ → Call → ℕ
arrival d (arrived x) = one x d
arrival d _ = 0

abbrev pub departure : ℕ → Call → ℕ
departure d (left x) = one x d
departure d _ = 0

abbrev pub total : (Call → ℕ) → List Call → ℕ
total f [] = 0
total f (c ∷ cs) = f c + total f cs

pub total-++ : (f : Call → ℕ) (cs ds : List Call) → total f (cs ++ ds) ≡ total f cs + total f ds
total-++ f [] ds = omega arith
total-++ f (c ∷ cs) ds = omega (arith, total-++ f cs ds)

count-++ : (d : ℕ) (xs ys : List ℕ) → count d (xs ++ ys) ≡ count d xs + count d ys
count-++ d [] ys = omega arith
count-++ d (x ∷ xs) ys = omega (arith, count-++ d xs ys)

-- Whether a device is there, as a number.
abbrev pub present : ℕ → List ℕ → ℕ
present d xs = if elem d xs then 1 else 0

pub present-le : (d : ℕ) (xs : List ℕ) → present d xs ≤ count d xs
present-le d [] = omega arith
present-le d (x ∷ xs) = ground (arith, present-le d xs)

pub count_absent : (d : ℕ) (xs : List ℕ) → elem d xs ≡ false → count d xs ≡ 0
count_absent d [] e = refl
count_absent d (x ∷ xs) e = ground (arith, e, count_absent d xs)

elem-++ : (d : ℕ) (xs : List ℕ) (x : ℕ) → elem d (xs ++ (x ∷ [])) ≡ (elem d xs || (x == d))
elem-++ d [] x = or-false (x == d)
elem-++ d (y ∷ xs) x =
    ap (λ b. (y == d) || b) (elem-++ d xs x) ∙ sym (or_assoc (y == d) (elem d xs) (x == d))

-- What the first loop does, for a device d.
pub record Arrived (d : ℕ) (now known : List ℕ) (r : List ℕ × List Call) : Type 0 where
  pub refs : count d r.0 ≡ count d known + total (taken d) r.1
  pub drops : total (dropped d) r.1 ≡ 0
  pub arrivals : total (arrival d) r.1 ≡ total (taken d) r.1
  pub departures : total (departure d) r.1 ≡ 0
  pub there : count d r.0 ≡ (if elem d known then count d known else present d now)

there_old :
    (d x n : ℕ) (now known : List ℕ)
    → elem x known ≡ true
    → n ≡ (if elem d known then count d known else present d now)
    → n ≡ (if elem d known then count d known else present d (x ∷ now))
there_old d x n now known t e = elim (Bool-cases (x == d)) [
  | inl q ↦
      let k : elem d known ≡ true = subst (λ y. elem y known ≡ true) ((==_iff x d).0 q) t in
      ground (arith, e, k)
  | inr q ↦ ground (arith, e, q)
]

there_new :
    (d x n : ℕ) (now known : List ℕ)
    → elem x known ≡ false
    → n ≡ (if elem d (known ++ (x ∷ [])) then count d (known ++ (x ∷ [])) else present d now)
    → n ≡ (if elem d known then count d known else present d (x ∷ now))
there_new d x n now known t e = elim (Bool-cases (x == d)) [
  | inl q ↦
      let k : elem d known ≡ false = subst (λ y. elem y known ≡ false) ((==_iff x d).0 q) t in
      ground (arith, e, k, q, elem-++ d known x, count-++ d known (x ∷ []), count_absent d known k)
  | inr q ↦ ground (arith, e, q, elem-++ d known x, count-++ d known (x ∷ []))
]

pub arrive_loop-Arrived : (d : ℕ) (now known : List ℕ) → Arrived d now known (arrive_loop now known)
unfolding arrive_loop
arrive_loop-Arrived d [] known = record {
  refs = omega arith;
  drops = refl;
  arrivals = refl;
  departures = refl;
  there = ground (arith, count_absent d known);
}
arrive_loop-Arrived d (x ∷ now) known =
    let more = arrive_loop now (known ++ (x ∷ [])) in
    branches (Arrived d (x ∷ now) known) (elem x known) (arrive_loop now known)
      (more.0, ref x ∷ arrived x ∷ more.1)
      (λ t.
        let old = arrive_loop-Arrived d now known in
        record {
          refs = old.refs;
          drops = old.drops;
          arrivals = old.arrivals;
          departures = old.departures;
          there = there_old d x (count d (arrive_loop now known).0) now known t old.there;
        })
      (λ t.
        let new = arrive_loop-Arrived d now (known ++ (x ∷ [])) in
        record {
          refs = omega (arith, new.refs, count-++ d known (x ∷ []));
          drops = omega (arith, new.drops);
          arrivals = omega (arith, new.arrivals);
          departures = omega (arith, new.departures);
          there = there_new d x (count d more.0) now known t new.there;
        })
