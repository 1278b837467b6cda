-- ===== src/AdbScan/Known.antt =====
-- What one round of the scan does to the devices known and to their references.
use mathlib.Core.Path.{subst}
use android_sdk_custom.AdbScan.{Call, unref, Scan, elem, leave, leave_loop}
use android_sdk_custom.AdbScan.Counts.{
  one, count, taken, dropped, arrival, departure, total, present, count_absent,
}
use android_sdk_custom.Prelude.{
  ℕ, ◌+◌, ◌≤◌, ◌≡◌, refl, List, [], ◌∷◌, Bool, true, false, not, map, ◌==◌, ◌&&◌, if◌then◌else◌,
  Bool-cases, inl, inr, arith, ==_iff,
}

-- What the second loop does, for a device d.
pub record Left (d : ℕ) (now known : List ℕ) (r : List ℕ × List ℕ × List Call) : Type 0 where
  pub kept : count d r.0 + count d r.1 ≡ count d known
  pub refs : total (taken d) r.2 ≡ 0
  pub drops : total (dropped d) r.2 ≡ 0
  pub arrivals : total (arrival d) r.2 ≡ 0
  pub departures : total (departure d) r.2 ≡ count d r.1
  pub there : count d r.0 ≡ (if elem d now then count d known else 0)

there_kept :
    (d x n m : ℕ) (now : List ℕ)
    → elem x now ≡ true
    → n ≡ (if elem d now then m else 0)
    → one x d + n ≡ (if elem d now then one x d + m else 0)
there_kept d x n m now t e = elim (Bool-cases (x == d)) [
  | inl q ↦ ground (arith, e, q, subst (λ y. elem y now ≡ true) ((==_iff x d).0 q) t)
  | inr q ↦ ground (arith, e, q)
]

there_left :
    (d x n m : ℕ) (now : List ℕ)
    → elem x now ≡ false
    → n ≡ (if elem d now then m else 0)
    → n ≡ (if elem d now then one x d + m else 0)
there_left d x n m now t e = elim (Bool-cases (x == d)) [
  | inl q ↦ ground (arith, e, q, subst (λ y. elem y now ≡ false) ((==_iff x d).0 q) t)
  | inr q ↦ ground (arith, e, q)
]

leave-Left :
    (d x : ℕ) (now known : List ℕ) (r : List ℕ × List ℕ × List Call) (b : Bool)
    → elem x now ≡ b
    → Left d now known r
    → Left d now (x ∷ known) (leave x b r)
leave-Left d x now known (k, rel, cs) true e h = record {
  kept = omega (arith, h.kept);
  refs = h.refs;
  drops = h.drops;
  arrivals = h.arrivals;
  departures = h.departures;
  there = there_kept d x (count d k) (count d known) now e h.there;
}
leave-Left d x now known (k, rel, cs) false e h = record {
  kept = omega (arith, h.kept);
  refs = omega (arith, h.refs);
  drops = omega (arith, h.drops);
  arrivals = omega (arith, h.arrivals);
  departures = omega (arith, h.departures);
  there = there_left d x (count d k) (count d known) now e h.there;
}

pub leave_loop-Left : (d : ℕ) (now known : List ℕ) → Left d now known (leave_loop now known)
unfolding leave_loop
leave_loop-Left d now [] = record {
  kept = refl;
  refs = refl;
  drops = refl;
  arrivals = refl;
  departures = refl;
  there = ground arith;
}
leave_loop-Left d now (x ∷ known) =
    leave-Left d x now known (leave_loop now known) (elem x now) refl (leave_loop-Left d now known)

-- From s to s' with these calls: the references and the events of a device d.
pub record Balanced (d : ℕ) (s s' : Scan) (calls : List Call) : Type 0 where
  pub refs :
      count d s.known + count d s.released + total (taken d) calls
      ≡ count d s'.known + count d s'.released + total (dropped d) calls
  pub events :
      count d s.known + total (arrival d) calls ≡ count d s'.known + total (departure d) calls
  pub once : count d s'.known ≤ 1

pub unref_all :
    (d : ℕ) (xs : List ℕ)
    → (total (dropped d) (map unref xs) ≡ count d xs)
      × (total (taken d) (map unref xs) ≡ 0)
      × (total (arrival d) (map unref xs) ≡ 0)
      × (total (departure d) (map unref xs) ≡ 0)
unref_all d [] = (refl, refl, refl, refl)
unref_all d (x ∷ xs) =
    let h = unref_all d xs in
    (omega (arith, h.0), omega (arith, h.1), omega (arith, h.2), omega (arith, h.3))

pub there_compared :
    (i k : Bool) (n m c : ℕ)
    → m ≡ (if k then c else (if i then 1 else 0))
    → n ≡ (if i then m else 0)
    → n ≡ (if i then (if k then c else 1) else 0)
there_compared i k n m c e f = ground (arith, e, f)

pub arrivals_compared :
    (d : ℕ) (now known : List ℕ) (n m : ℕ)
    → m ≡ (if elem d known then count d known else present d now)
    → m ≡ count d known + n
    → n ≡ (if elem d now && not (elem d known) then 1 else 0)
arrivals_compared d now known n m e f = ground (arith, e, f, count_absent d known)
