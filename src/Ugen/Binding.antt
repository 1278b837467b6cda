-- ===== src/Ugen/Binding.antt =====
-- Which endpoint each slot is bound to.
use android_sdk_custom.Prelude.{
  ℕ, zero, suc, ◌+◌, ◌≤◌, ◌<◌, ◌≡◌, ◌≢◌, refl, ap, ◌∙◌, List, [], ◌∷◌, Option, none, some, inl, inr,
  ◌⊎◌, ◌==◌, if◌then◌else◌, get_or, get_elem?, length, arith, Bool-cases, length-set,
  get_elem?-set_self, get_elem?-set_ne, ==_iff, All, ==_refl, ==_ne,
}
use mathlib.Core.Path.{subst}
use native.Mathlib.Decide.{ℕ_discrete}
use android_sdk_custom.Ugen.Errors.{Errno, Reply, failed, answered}
use android_sdk_custom.Ugen.Slots.{
  nfsep, HandlePriv, Driver, FsOpen, scan, clamp, open_slot, release_slot, reopen,
}

-- The outcome r of the loop over the slots from index i on, where `free` is the free slot so far.
pub data Scanned (ep i : ℕ) (free : Option ℕ) (es : List ℕ) (r : Option ℕ × Option ℕ) : Type 0 where
  bound :
      (m : ℕ) (f : Option ℕ)
      → get_elem? es m ≡ some ep
      → r ≡ (some (i + m), f)
      → Scanned ep i free es r
  unbound :
      (m : ℕ)
      → All (λ e. e ≢ ep) es
      → get_elem? es m ≡ some 0
      → free ≡ none
      → r ≡ (none, some (i + m))
      → Scanned ep i free es r
  kept :
      All (λ e. e ≢ ep) es
      → ((free ≡ none) → All (λ e. e ≢ 0) es)
      → r ≡ (none, free)
      → Scanned ep i free es r

module _ (ep i e : ℕ) (es : List ℕ) (r : Option ℕ × Option ℕ) (ne : e ≢ ep) where
  next_bound :
      (free f : Option ℕ) (m : ℕ)
      → get_elem? es m ≡ some ep
      → r ≡ (some (i + 1 + m), f)
      → Scanned ep i free (e ∷ es) r
  next_bound free f m h q = bound (suc m) f h (ground arith)

  next_some : (f : ℕ) → Scanned ep (i + 1) (some f) es r → Scanned ep i (some f) (e ∷ es) r
  next_some f (bound m g h q) = next_bound (some f) g m h q
  next_some f (unbound m a z n q) = cc
  next_some f (kept a b q) = kept (ne, a) (λ n. cc) q

  next_free : e ≡ 0 → Scanned ep (i + 1) (some i) es r → Scanned ep i none (e ∷ es) r
  next_free z (bound m g h q) = next_bound none g m h q
  next_free z (unbound m a y n q) = cc
  next_free z (kept a b q) = unbound 0 (ne, a) (ap some z) refl (ground arith)

  next_taken : e ≢ 0 → Scanned ep (i + 1) none es r → Scanned ep i none (e ∷ es) r
  next_taken z (bound m g h q) = next_bound none g m h q
  next_taken z (unbound m a y n q) = unbound (suc m) (ne, a) y refl (ground arith)
  next_taken z (kept a b q) = kept (ne, a) (λ _. (z, b refl)) q

  next :
      (free free' : Option ℕ)
      → free' ≡ (elim free [ some f ↦ some f | none ↦ if e == 0 then some i else none ])
      → Scanned ep (i + 1) free' es r
      → Scanned ep i free (e ∷ es) r
  next (some f) free' q s = next_some f (subst (λ x. Scanned ep (i + 1) x es r) q s)
  next none free' q s = elim (ℕ_discrete e 0) [
    | yes z ↦
        let q' : free' ≡ some i = ground arith in
        next_free z (subst (λ x. Scanned ep (i + 1) x es r) q' s)
    | no z ↦
        let q' : free' ≡ none = ground arith in
        next_taken z (subst (λ x. Scanned ep (i + 1) x es r) q' s)
  ]

pub scan-Scanned :
    (ep i : ℕ) (free : Option ℕ) (es : List ℕ) → Scanned ep i free es (scan ep i free es)
unfolding scan
scan-Scanned ep i free [] = kept tt (λ _. tt) refl
scan-Scanned ep i free (e ∷ es) = elim (ℕ_discrete e ep) [
  | yes same ↦ rw (same, ==_refl ep) (bound 0 free refl (ground arith))
  | no ne ↦ rw (==_ne e ep ne) (next ep i e es _ ne free _ refl (scan-Scanned ep (i + 1) _ es))
]

-- The lists of a handle have an entry for each slot, and no endpoint but 0 is bound to two slots.
pub record IsValid (h : HandlePriv) : Type 0 where
  pub slots : length h.ep_no ≡ nfsep
  pub sizes : length h.ep_bufsize ≡ nfsep
  pub unique :
      (i j e : ℕ) → get_elem? h.ep_no i ≡ some e → get_elem? h.ep_no j ≡ some e → e ≢ 0 → i ≡ j

-- A driver that grants at least the size that it is asked for.
abbrev pub Grants : {K : Type 0} → Driver K → Type 0
Grants {K} d =
    (k : K) (r : FsOpen) (granted : ℕ)
    → (d.fs_open k r).1 ≡ answered granted
    → r.max_bufsize ≤ granted

-- Every slot but one is bound as before.
abbrev pub SameBut : ℕ → HandlePriv → HandlePriv → Type 0
SameBut i h g = (j : ℕ) → i ≢ j → get_elem? g.ep_no j ≡ get_elem? h.ep_no j

-- What releasing slot i leaves: the slot is free, and all else about the binding as it was.
record Released (i : ℕ) (h g : HandlePriv) : Type 0 where
  pub slots : length g.ep_no ≡ length h.ep_no
  pub sizes : g.ep_bufsize ≡ h.ep_bufsize
  pub same : SameBut i h g
  free : get_elem? g.ep_no i ≡ some 0

-- What reopening slot i for ep leaves, where the driver's answer is given: it is bound to ep with the
-- size that the driver granted, or free if the driver refused.
pub record Reopened (answer : Reply ℕ) (i ep least : ℕ) (h g : HandlePriv) (r : Reply ℕ)
    : Type 0 where
  pub slots : length g.ep_no ≡ length h.ep_no
  pub sizes : length g.ep_bufsize ≡ length h.ep_bufsize
  pub same : SameBut i h g
  pub outcome :
      ((granted : ℕ) × (answer ≡ answered granted)
        × (r ≡ answered i)
        × (get_elem? g.ep_no i ≡ some ep)
        × (get_elem? g.ep_bufsize i ≡ some granted)
        × (least ≤ granted))
      ⊎ ((e : Errno) × (answer ≡ failed e) × (r ≡ failed e) × (get_elem? g.ep_no i ≡ some 0))

pub get_or-get_elem? : (xs : List ℕ) (i : ℕ) → i < length xs → get_elem? xs i ≡ some (get_or xs i 0)
get_or-get_elem? [] i lt = absurd (omega arith)
get_or-get_elem? (x ∷ xs) zero lt = refl
get_or-get_elem? (x ∷ xs) (suc i) lt = get_or-get_elem? xs i (omega arith)

module _ {K : Type 0} (d : Driver K) where
  release_slot-Released :
      (i : ℕ) (h : HandlePriv) (k : K) → i < length h.ep_no → Released i h (release_slot d i h k).0
  unfolding release_slot
  release_slot-Released i h k lt = elim (Bool-cases (get_or h.ep_no i 0 == 0)) [
    | inl b ↦
        rw (b, release_slot)
          (record {
            slots = refl;
            sizes = refl;
            same = λ j ne. refl;
            free = get_or-get_elem? h.ep_no i lt ∙ ap some ((==_iff (get_or h.ep_no i 0) 0).0 b);
          })
    | inr b ↦
        rw (b, release_slot)
          (record {
            slots = length-set h.ep_no i 0;
            sizes = refl;
            same = λ j ne. get_elem?-set_ne h.ep_no i j 0 ne;
            free = get_elem?-set_self h.ep_no i 0 lt;
          })
  ]

  open_slot-Reopened :
      (i ep need least : ℕ) (h g : HandlePriv) (r : K × Reply ℕ)
      → Released i h g
      → i < length h.ep_no
      → i < length h.ep_bufsize
      → ((granted : ℕ) → r.1 ≡ answered granted → least ≤ granted)
      → Reopened r.1 i ep least h (open_slot d i ep need g r).0 (open_slot d i ep need g r).2
  unfolding open_slot
  open_slot-Reopened i ep need least h g (k, failed e) v lt lt' grant = record {
    slots = v.slots;
    sizes = ap length v.sizes;
    same = v.same;
    outcome = inr (e, refl, refl, v.free);
  }
  open_slot-Reopened i ep need least h g (k, answered granted) v lt lt' grant = record {
    slots = length-set g.ep_no i ep ∙ v.slots;
    sizes = length-set g.ep_bufsize i granted ∙ ap length v.sizes;
    same = λ j ne. get_elem?-set_ne g.ep_no i j ep ne ∙ v.same j ne;
    outcome = inl (
      granted,
      refl,
      refl,
      get_elem?-set_self g.ep_no i ep (omega (arith, v.slots)),
      get_elem?-set_self g.ep_bufsize i granted (omega (arith, ap length v.sizes)),
      grant granted refl,
    );
  }

  -- What the driver answers where slot i is released and opened for ep.
  abbrev pub open_answer : ℕ → ℕ → ℕ → HandlePriv → K → Reply ℕ
  open_answer i ep size h k =
      let request : FsOpen = record { ep_index = i; ep_no = ep; max_bufsize = size } in
      (d.fs_open (release_slot d i h k).1 request).1

  module _ (grants : Grants d) where
    pub reopen-Reopened :
        (i ep need : ℕ) (h : HandlePriv) (k : K)
        → i < length h.ep_no
        → i < length h.ep_bufsize
        → Reopened
            (open_answer i ep (clamp d.fs_max_bufsize need) h k)
            i
            ep
            (clamp d.fs_max_bufsize need)
            h
            (reopen d i ep need h k).0
            (reopen d i ep need h k).2
    unfolding reopen
    reopen-Reopened i ep need h k lt lt' =
        let (g, k') = release_slot d i h k in
        let request : FsOpen = record {
          ep_index = i;
          ep_no = ep;
          max_bufsize = clamp d.fs_max_bufsize need;
        } in
        open_slot-Reopened i ep need (clamp d.fs_max_bufsize need) h g (d.fs_open k' request)
          (release_slot-Released i h k lt) lt lt' (λ granted e. grants k' request granted e)
