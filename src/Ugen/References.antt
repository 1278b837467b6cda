-- ===== src/Ugen/References.antt =====
-- The references to devices that fbsd_get_device_list takes and drops.
use mathlib.Core.Path.{subst}
use android_sdk_custom.Prelude.{
  ap, ◌≤◌, ◌<◌, Bool-cases, inl, inr, ℕ, ◌+◌, List, [], ◌∷◌, Bool, true, false, ◌&&◌, ◌==◌,
  if◌then◌else◌, Option, none, some, ◌≡◌, refl, arith,
}
use android_sdk_custom.Ugen.Errors.{Reply, failed, answered, LibusbSpeed, fbsd_speed}
use android_sdk_custom.Ugen.Listing.{
  Node, Entry, skipped, node, Context, session_of, added, checked, with_new, with_known, visit,
  list_loop, fbsd_get_device_list,
}

abbrev pub one : ℕ → ℕ → ℕ
one p t = if p == t then 1 else 0

-- What is relied on of libusb: a device that is found or allocated has one reference more, and
-- libusb_unref_device drops one, which is not below none. A list takes a reference for each device
-- that it lists; where it cannot grow, it may drop what it lists together with the references.
pub record Counts {L : Type 0} (c : Context L) : Type 0 where
  pub refs : L → ℕ → ℕ
  pub listed : L → ℕ → ℕ
  pub get_refs :
      (l : L) (s dev y : ℕ)
      → (c.get_device l s).1 ≡ some dev
      → refs (c.get_device l s).0 y ≡ refs l y + one dev y
  pub get_refs_none :
      (l : L) (s y : ℕ) → (c.get_device l s).1 ≡ none → refs (c.get_device l s).0 y ≡ refs l y
  pub get_listed : (l : L) (s y : ℕ) → listed (c.get_device l s).0 y ≡ listed l y
  pub alloc_refs :
      (l : L) (s dev y : ℕ)
      → (c.alloc_device l s).1 ≡ some dev
      → refs (c.alloc_device l s).0 y ≡ refs l y + one dev y
  pub alloc_refs_none :
      (l : L) (s y : ℕ) → (c.alloc_device l s).1 ≡ none → refs (c.alloc_device l s).0 y ≡ refs l y
  pub alloc_listed : (l : L) (s y : ℕ) → listed (c.alloc_device l s).0 y ≡ listed l y
  pub set_refs :
      (l : L) (dev b a y : ℕ) (p : LibusbSpeed) → refs (c.set_device l dev b a p) y ≡ refs l y
  pub set_listed :
      (l : L) (dev b a y : ℕ) (p : LibusbSpeed) → listed (c.set_device l dev b a p) y ≡ listed l y
  pub unref_refs :
      (l : L) (dev y : ℕ) → 1 ≤ refs l dev → refs (c.unref_device l dev) y + one dev y ≡ refs l y
  pub unref_listed : (l : L) (dev y : ℕ) → listed (c.unref_device l dev) y ≡ listed l y
  pub append_balance :
      (l : L) (dev y : ℕ)
      → refs (c.append l dev).0 y + listed l y ≡ refs l y + listed (c.append l dev).0 y
  pub append_floor : (l : L) (dev : ℕ) → listed l dev < refs l dev → 1 ≤ refs (c.append l dev).0 dev

one_refl : (p : ℕ) → one p p ≡ 1
one_refl p = ground arith

floor : (r l r' l' : ℕ) → r + l' ≡ r' + l + 1 → l' ≤ r' → l < r
floor r l r' l' e h = omega arith

module _ {L : Type 0} (c : Context L) (counts : Counts c) where
  -- No device is listed more often than it is referenced.
  abbrev pub Covered : L → Type 0
  Covered l = (z : ℕ) → counts.listed l z ≤ counts.refs l z

  -- Each device gained as many references as places in the list, and `extra` more.
  abbrev Gained : (ℕ → ℕ) → L → L → Type 0
  Gained extra l m =
      (z : ℕ) → counts.refs m z + counts.listed l z ≡ counts.refs l z + counts.listed m z + extra z

  abbrev nothing : ℕ → ℕ
  nothing z = 0

  unref-Gained :
      (l m : L) (dev : ℕ)
      → 1 ≤ counts.refs m dev
      → Gained (one dev) l m
      → Gained nothing l (c.unref_device m dev)
  unref-Gained l m dev h g z =
      omega (arith, counts.unref_refs m dev z h, counts.unref_listed m dev z, g z)

  append-Gained : (l m : L) (dev : ℕ) → Gained (one dev) l m → Gained (one dev) l (c.append m dev).0
  append-Gained l m dev g z = omega (arith, counts.append_balance m dev z, g z)

  one_held :
      (l m : L) (dev : ℕ)
      → Covered l
      → Gained (one dev) l m
      → counts.listed m dev < counts.refs m dev
  one_held l m dev v g = omega (arith, g dev, v dev, one_refl dev)

  added-Gained :
      (l m : L) (dev : ℕ)
      → Covered l
      → Gained (one dev) l m
      → Gained nothing l (added c dev (c.append m dev)).0
  added-Gained l m dev v g =
      unref-Gained l (c.append m dev).0 dev (counts.append_floor m dev (one_held l m dev v g))
        (append-Gained l m dev g)

  checked-Gained :
      (l m : L) (dev : ℕ) (good : Bool)
      → Covered l
      → Gained (one dev) l m
      → Gained nothing l (checked c dev good m).0
  checked-Gained l m dev true v g = added-Gained l m dev v g
  checked-Gained l m dev false v g = unref-Gained l m dev (omega (arith, one_held l m dev v g)) g

  with_new-Gained :
      (n : Node) (l m : L) (r : L × Option ℕ)
      → c.alloc_device m (session_of n) ≡ r
      → Covered l
      → Gained nothing l m
      → Gained nothing l (with_new c n r).0
  with_new-Gained n l m (k, none) e v g = λ z.
      let q : (c.alloc_device m (session_of n)).0 ≡ k = ap (λ x. x.0) e in
      let refs : counts.refs k z ≡ counts.refs m z =
        subst (λ x. counts.refs x z ≡ counts.refs m z) q
          (counts.alloc_refs_none m (session_of n) z (ap (λ x. x.1) e)) in
      let listed : counts.listed k z ≡ counts.listed m z =
        subst (λ x. counts.listed x z ≡ counts.listed m z) q
          (counts.alloc_listed m (session_of n) z) in
      omega (arith, refs, listed, g z)
  with_new-Gained n l m (k, some dev) e v g =
      let q : (c.alloc_device m (session_of n)).0 ≡ k = ap (λ x. x.0) e in
      checked-Gained l (c.set_device k dev n.bus n.addr (fbsd_speed n.speed)) dev
        (n.described && (n.cached && n.sane)) v
        (λ z.
          let refs : counts.refs k z ≡ counts.refs m z + one dev z =
            subst (λ x. counts.refs x z ≡ counts.refs m z + one dev z) q
              (counts.alloc_refs m (session_of n) dev z (ap (λ x. x.1) e)) in
          let listed : counts.listed k z ≡ counts.listed m z =
            subst (λ x. counts.listed x z ≡ counts.listed m z) q
              (counts.alloc_listed m (session_of n) z) in
          omega (
            arith,
            refs,
            listed,
            g z,
            counts.set_refs k dev n.bus n.addr z (fbsd_speed n.speed),
            counts.set_listed k dev n.bus n.addr z (fbsd_speed n.speed),
          ))

  with_known-Gained :
      (n : Node) (l : L) (r : L × Option ℕ)
      → c.get_device l (session_of n) ≡ r
      → Covered l
      → Gained nothing l (with_known c n r).0
  with_known-Gained n l (k, none) e v =
      let q : (c.get_device l (session_of n)).0 ≡ k = ap (λ x. x.0) e in
      with_new-Gained n l k (c.alloc_device k (session_of n)) refl v (λ z.
        let refs : counts.refs k z ≡ counts.refs l z =
          subst (λ x. counts.refs x z ≡ counts.refs l z) q
            (counts.get_refs_none l (session_of n) z (ap (λ x. x.1) e)) in
        let listed : counts.listed k z ≡ counts.listed l z =
          subst (λ x. counts.listed x z ≡ counts.listed l z) q
            (counts.get_listed l (session_of n) z) in
        omega (arith, refs, listed))
  with_known-Gained n l (k, some dev) e v =
      let q : (c.get_device l (session_of n)).0 ≡ k = ap (λ x. x.0) e in
      added-Gained l k dev v (λ z.
        let refs : counts.refs k z ≡ counts.refs l z + one dev z =
          subst (λ x. counts.refs x z ≡ counts.refs l z + one dev z) q
            (counts.get_refs l (session_of n) dev z (ap (λ x. x.1) e)) in
        let listed : counts.listed k z ≡ counts.listed l z =
          subst (λ x. counts.listed x z ≡ counts.listed l z) q
            (counts.get_listed l (session_of n) z) in
        omega (arith, refs, listed))

  visit-Gained : (e : Entry) (l : L) → Covered l → Gained nothing l (visit c e l).0
  unfolding visit
  visit-Gained skipped l v = λ z. omega arith
  visit-Gained (node n) l v = with_known-Gained n l (c.get_device l (session_of n)) refl v

  Gained-Covered : (l m : L) → Gained nothing l m → Covered l → Covered m
  Gained-Covered l m g v z = omega (arith, g z, v z)

  Gained-trans : (l m n : L) → Gained nothing l m → Gained nothing m n → Gained nothing l n
  Gained-trans l m n g h z = omega (arith, g z, h z)

  list_loop-Gained : (es : List Entry) (l : L) → Covered l → Gained nothing l (list_loop c es l).0
  unfolding list_loop
  list_loop-Gained [] l v = λ z. omega arith
  list_loop-Gained (e ∷ es) l v =
      let m = (visit c e l).0 in
      let g = visit-Gained e l v in
      elim (Bool-cases (visit c e l).1) [
        | inl b ↦
            rw (b, list_loop)
              (Gained-trans l m (list_loop c es m).0 g
                (list_loop-Gained es m (Gained-Covered l m g v)))
        | inr b ↦ rw (b, list_loop) g
      ]

  -- Where no device is listed more often than it is referenced, the listing of the devices changes,
  -- on every path and also where it fails, the references of each device by exactly as much as the
  -- number of times that it is listed: no reference is leaked and none is dropped twice.
  pub fbsd_get_device_list_lem :
      (answer : Reply (List Entry)) (l : L) (dev : ℕ)
      → Covered l
      → let (m, e) = fbsd_get_device_list c answer l in
        counts.refs m dev + counts.listed l dev ≡ counts.refs l dev + counts.listed m dev
  unfolding fbsd_get_device_list
  fbsd_get_device_list_lem (failed e) l dev v = refl
  fbsd_get_device_list_lem (answered es) l dev v = omega (arith, list_loop-Gained es l v dev)
