-- ===== src/AdbScan/Rounds.antt =====
-- What rounds of the scan do: references and events balance.
use android_sdk_custom.AdbScan.{
  Call, free_list, unref, Scan, start, elem, arrive_loop, leave_loop, compared, scanned, round, run,
}
use android_sdk_custom.AdbScan.Counts.{
  count, taken, dropped, arrival, departure, total, total-++, count_absent, arrive_loop-Arrived,
  present-le,
}
use android_sdk_custom.Prelude.{
  ℕ, ◌+◌, ◌≤◌, ◌≡◌, ap, ◌∙◌, List, [], ◌∷◌, ◌++◌, Option, none, some, Bool, false, not, map, ◌&&◌,
  if◌then◌else◌, arith,
}
use android_sdk_custom.AdbScan.Known.{
  Balanced, leave_loop-Left, unref_all, there_compared, arrivals_compared,
}

known_after :
    (i k : Bool) {n c : ℕ}
    → (if k then 1 else 0) ≤ c
    → c ≤ 1
    → n ≡ (if i then (if k then c else 1) else 0)
    → n ≡ (if i then 1 else 0)
known_after i k p le e = ground (arith, p, le, e)

departed :
    (i k : Bool) {n c a b : ℕ}
    → (if k then 1 else 0) ≤ c
    → c ≤ 1
    → (k ≡ false → c ≡ 0)
    → n ≡ (if i then 1 else 0)
    → a ≡ (if i && not k then 1 else 0)
    → c + a ≡ n + b
    → b ≡ (if k && not i then 1 else 0)
departed i k p le z e f g = ground (arith, p, le, z, e, f, g)

-- A round over the devices that are there now, for a device d.
record Compared (d : ℕ) (now known : List ℕ) (r : Scan × List Call) : Type 0 where
  pub refs :
      count d known + total (taken d) r.1
      ≡ count d r.0.known + count d r.0.released + total (dropped d) r.1
  pub events : count d known + total (arrival d) r.1 ≡ count d r.0.known + total (departure d) r.1
  pub there :
      count d r.0.known ≡ (if elem d now then (if elem d known then count d known else 1) else 0)
  pub arrivals : total (arrival d) r.1 ≡ (if elem d now && not (elem d known) then 1 else 0)

compared-Compared : (d : ℕ) (now known : List ℕ) → Compared d now known (compared now known)
compared-Compared d now known =
    let a = arrive_loop now known in
    let l = leave_loop now a.0 in
    let first = arrive_loop-Arrived d now known in
    let second = leave_loop-Left d now a.0 in
    let end = free_list now ∷ [] in
    let sum : (f : Call → ℕ)
        → total f (a.1 ++ (l.2 ++ end)) ≡ total f a.1 + (total f l.2 + total f end) =
      λ f. total-++ f a.1 (l.2 ++ end) ∙ ap (λ n. total f a.1 + n) (total-++ f l.2 end) in
    record {
      refs = omega (
        arith,
        sum (taken d),
        sum (dropped d),
        first.refs,
        first.drops,
        second.kept,
        second.refs,
        second.drops,
      );
      events = omega (
        arith,
        sum (arrival d),
        sum (departure d),
        first.refs,
        first.arrivals,
        first.departures,
        second.kept,
        second.arrivals,
        second.departures,
      );
      there =
          there_compared (elem d now) (elem d known) (count d l.0) (count d a.0) (count d known)
            first.there second.there;
      arrivals =
          omega (arith, sum (arrival d), first.arrivals, second.arrivals)
          ∙ arrivals_compared d now known (total (taken d) a.1) (count d a.0) first.there
              first.refs;
    }

scanned-Scanned :
    (d : ℕ) (known : List ℕ) (found : Option (List ℕ))
    → count d known ≤ 1
    → let r = scanned known found in
      (count d known + total (taken d) r.1
        ≡ count d r.0.known + count d r.0.released + total (dropped d) r.1)
      × (count d known + total (arrival d) r.1 ≡ count d r.0.known + total (departure d) r.1)
      × (count d r.0.known ≤ 1)
scanned-Scanned d known none le = (omega arith, omega arith, le)
scanned-Scanned d known (some now) le =
    let c = compared-Compared d now known in (c.refs, c.events, ground (arith, le, c.there))

-- A round, from any state that knows no device twice.
round-Balanced :
    (d : ℕ) (s : Scan) (found : Option (List ℕ))
    → count d s.known ≤ 1
    → Balanced d s (round s found).0 (round s found).1
unfolding round
round-Balanced d s found le =
    let r = scanned s.known found in
    let h = scanned-Scanned d s.known found le in
    let u = unref_all d s.released in
    let sum : (f : Call → ℕ)
        → total f (map unref s.released ++ r.1) ≡ total f (map unref s.released) + total f r.1 =
      λ f. total-++ f (map unref s.released) r.1 in
    record {
      refs = omega (arith, sum (taken d), sum (dropped d), h.0, u.0, u.1);
      events = omega (arith, sum (arrival d), sum (departure d), h.1, u.2, u.3);
      once = h.2;
    }

run-Balanced :
    (d : ℕ) (rounds : List (Option (List ℕ))) (s : Scan)
    → count d s.known ≤ 1
    → Balanced d s (run rounds s).0 (run rounds s).1
unfolding run
run-Balanced d [] s le = record { refs = omega arith; events = omega arith; once = le }
run-Balanced d (found ∷ rest) s le =
    let r = round s found in
    let later = run rest r.0 in
    let h = round-Balanced d s found le in
    let k = run-Balanced d rest r.0 h.once in
    let sum : (f : Call → ℕ) → total f (r.1 ++ later.1) ≡ total f r.1 + total f later.1 =
      λ f. total-++ f r.1 later.1 in
    record {
      refs = omega (arith, sum (taken d), sum (dropped d), h.refs, k.refs);
      events = omega (arith, sum (arrival d), sum (departure d), h.events, k.events);
      once = k.once;
    }

-- After any rounds from the start, of every device as many references were taken as were dropped, and
-- one more for each of its places among the known and the released; and it arrived as often as it
-- left, and once more when it is known, which it is once at most.
pub run-start_counts :
    (rounds : List (Option (List ℕ))) (d : ℕ)
    → let (s, calls) = run rounds start in
      (total (taken d) calls ≡ total (dropped d) calls + (count d s.known + count d s.released))
      × (total (arrival d) calls ≡ total (departure d) calls + count d s.known)
      × (count d s.known ≤ 1)
run-start_counts rounds d =
    let b = run-Balanced d rounds start (omega arith) in
    (omega (arith, b.refs), omega (arith, b.events), b.once)

-- A round that finds devices and starts with none known twice knows exactly these afterwards, once
-- each; it reports the arrival of the ones that were not known, and the departure of those that are
-- not there any more, once each.
pub round_lem :
    (s : Scan) (now : List ℕ) (d : ℕ)
    → count d s.known ≤ 1
    → let (s', calls) = round s (some now) in
      (count d s'.known ≡ (if elem d now then 1 else 0))
      × (total (arrival d) calls ≡ (if elem d now && not (elem d s.known) then 1 else 0))
      × (total (departure d) calls ≡ (if elem d s.known && not (elem d now) then 1 else 0))
unfolding round
round_lem s now d le =
    let c = compared-Compared d now s.known in
    let r = compared now s.known in
    let u = unref_all d s.released in
    let present_count = present-le d s.known in
    let n : count d r.0.known ≡ (if elem d now then 1 else 0) =
      known_after (elem d now) (elem d s.known) present_count le c.there in
    let sum : (f : Call → ℕ)
        → total f (map unref s.released ++ r.1) ≡ total f (map unref s.released) + total f r.1 =
      λ f. total-++ f (map unref s.released) r.1 in
    (
      n,
      omega (arith, sum (arrival d), u.2) ∙ c.arrivals,
      omega (arith, sum (departure d), u.3)
          ∙ departed (elem d now) (elem d s.known) present_count le (count_absent d s.known) n
              c.arrivals c.events,
    )
