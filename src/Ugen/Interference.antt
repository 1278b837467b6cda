-- ===== src/Ugen/Interference.antt =====
-- What the sections of other transfers leave of a slot.
use android_sdk_custom.Ugen.Others.{Holds, DrainHolds, drain-Holds}
use mathlib.Core.Option.{some-injective}
use native.Mathlib.Nat.{zero-add}
use android_sdk_custom.Prelude.{
  ℕ, ◌<◌, ◌≡◌, ◌≢◌, ◌⊎◌, inl, inr, refl, sym, ap, ◌∙◌, List, [], ◌∷◌, Option, none, some, Bool,
  false, arith, Bool-cases, get_or, get_elem?, set, length-set, get_or-set_ne, get_elem?-set_ne,
  leb, not, ◌==◌, All, if_both, ◌&&◌,
}
use android_sdk_custom.Ugen.Errors.{Reply, failed, answered, Errno}
use android_sdk_custom.Ugen.Slots.{
  HandlePriv, Driver, FsOpen, fs_drain, nfsep, choose, release_slot, reopen, open_slot, fs_slot,
  slot_reply, clamp, SlotResult, slot_error, slot_of,
}
use android_sdk_custom.Ugen.Transfer.{Request, idle, start, start_on, prepare}
use android_sdk_custom.Ugen.Drain.{Drains}
use android_sdk_custom.Ugen.Binding.{bound, unbound, kept, scan-Scanned}
use android_sdk_custom.Ugen.Threads.{
  unstarted, running, finished, Port, Later, Ports, Section, starts, looks, stops, looked, section,
  sections, finished,
}
use android_sdk_custom.Ugen.Ready.{Sized, SameAt, Ready-later}

-- A section of a transfer on another endpoint or slot.
abbrev pub Apart : ℕ → ℕ → Section → Type 0
Apart i ep (starts r) = r.endpoint ≢ ep
Apart i ep (looks j) = j ≢ i
Apart i ep (stops j) = j ≢ i

Reply-cases :
    {A : Type 0} (r : Reply A) → ((e : Errno) × (r ≡ failed e)) ⊎ ((a : A) × (r ≡ answered a))
Reply-cases (failed e) = inl (e, refl)
Reply-cases (answered a) = inr (a, refl)

Later-refl : (p : Port) → Later p p
Later-refl unstarted = refl
Later-refl running = λ e. cc
Later-refl (finished s n) = refl

untouched : (i : ℕ) (h : HandlePriv) → SameAt i h h
untouched i h = record { done = refl; cstatus = refl; cactlen = refl }

module _ {K : Type 0} (d : Driver K) (ports : Ports d) (i s n ep : ℕ) where
  abbrev At : HandlePriv → K → Type 0
  At h k = Holds d ports i s n ep h k

  -- A call that leaves the tables and may change the binding of another slot.
  rebound-Holds :
      (h g : HandlePriv) (k m : K)
      → SameAt i h g
      → Sized g
      → get_elem? g.ep_no i ≡ get_elem? h.ep_no i
      → Later (ports.port k i) (ports.port m i)
      → At h k
      → At g m
  rebound-Holds h g k m same z b later a = record {
    sized = z;
    bound = b ∙ a.bound;
    ready = Ready-later i s n h g (ports.port k i) (ports.port m i) same later a.ready;
  }

  idle-Holds : (j : ℕ) (h : HandlePriv) (k : K) → j ≢ i → At h k → At (idle j h) k
  idle-Holds j h k ne a =
      rebound-Holds h (idle j h) k k
        (record { done = get_or-set_ne h.done j i false false ne; cstatus = refl; cactlen = refl })
        (record {
          done = length-set h.done j false ∙ a.sized.done;
          cstatus = a.sized.cstatus;
          cactlen = a.sized.cactlen;
          status = a.sized.status;
          plen = a.sized.plen;
        })
        refl (Later-refl (ports.port k i)) a

  prepare-Holds :
      (j : ℕ) (r : Request) (h : HandlePriv) (k : K) → j ≢ i → At h k → At (prepare d j r h) k
  unfolding prepare
  prepare-Holds j r h k ne a =
      rebound-Holds h (prepare d j r h) k k
        (record { done = get_or-set_ne h.done j i false false ne; cstatus = refl; cactlen = refl })
        (record {
          done = length-set h.done j false ∙ a.sized.done;
          cstatus = a.sized.cstatus;
          cactlen = a.sized.cactlen;
          status = length-set h.fs_status j 0 ∙ a.sized.status;
          plen = length-set h.plen j r.length ∙ a.sized.plen;
        })
        refl (Later-refl (ports.port k i)) a

  -- A call of the kernel, with the tables as they are.
  called-Holds :
      (h : HandlePriv) (k m : K) → Later (ports.port k i) (ports.port m i) → At h k → At h m
  called-Holds h k m later a = rebound-Holds h h k m (untouched i h) a.sized refl later a

  resized :
      (h : HandlePriv) (es ns : List ℕ) → Sized h → Sized (record h { ep_no = es; ep_bufsize = ns })
  resized h es ns z = record {
    done = z.done;
    cstatus = z.cstatus;
    cactlen = z.cactlen;
    status = z.status;
    plen = z.plen;
  }

  release_slot-Holds :
      (j : ℕ) (h : HandlePriv) (k : K)
      → j ≢ i
      → At h k
      → At (release_slot d j h k).0 (release_slot d j h k).1
  unfolding release_slot
  release_slot-Holds j h k ne a = elim (Bool-cases (get_or h.ep_no j 0 == 0)) [
    | inl b ↦ rw (b, release_slot) a
    | inr b ↦
        rw (b, release_slot)
          (rebound-Holds h (record h { ep_no = set h.ep_no j 0 }) k (d.fs_close k j)
            (record { done = refl; cstatus = refl; cactlen = refl })
            (resized h (set h.ep_no j 0) h.ep_bufsize a.sized) (get_elem?-set_ne h.ep_no j i 0 ne)
            (ports.at_close k j i ne) a)
  ]

  -- What _fs_slot gives: a slot is not i.
  abbrev Elsewhere : HandlePriv × K × SlotResult → Type 0
  Elsewhere (h, k, slot_of j) = At h k × (j ≢ i)
  Elsewhere (h, k, slot_error e) = At h k

  open_slot-Elsewhere :
      (j e need : ℕ) (h : HandlePriv) (r : K × Reply ℕ)
      → j ≢ i
      → At h r.0
      → Elsewhere (slot_reply (open_slot d j e need h r))
  unfolding open_slot
  open_slot-Elsewhere j e need h (k, failed err) ne a = a
  open_slot-Elsewhere j e need h (k, answered granted) ne a = (
    rebound-Holds h (record h { ep_no = set h.ep_no j e; ep_bufsize = set h.ep_bufsize j granted })
        k k (record { done = refl; cstatus = refl; cactlen = refl })
        (resized h (set h.ep_no j e) (set h.ep_bufsize j granted) a.sized)
        (get_elem?-set_ne h.ep_no j i e ne) (Later-refl (ports.port k i)) a,
    ne,
  )

  reply-Elsewhere :
      (j e need : ℕ) (h : HandlePriv) (k : K)
      → j ≢ i
      → At h k
      → Elsewhere (slot_reply (reopen d j e need h k))
  unfolding reopen
  reply-Elsewhere j e need h k ne a =
      let (g, k') = release_slot d j h k in
      let request : FsOpen = record {
        ep_index = j;
        ep_no = e;
        max_bufsize = clamp d.fs_max_bufsize need;
      } in
      open_slot-Elsewhere j e need g (d.fs_open k' request) ne (
        called-Holds g k' (d.fs_open k' request).0 (ports.at_open k' request i ne)
          (release_slot-Holds j h k ne a))

  choose-Elsewhere :
      (e need j : ℕ) (free : Option ℕ) (h : HandlePriv) (k : K)
      → j ≢ i
      → At h k
      → Elsewhere (choose d e need h k (some j, free))
  choose-Elsewhere e need j free h k ne a = elim (Bool-cases (leb need (get_or h.ep_bufsize j 0))) [
    | inl b ↦ rw b (a, ne)
    | inr b ↦ rw b (reply-Elsewhere j e need h k ne a)
  ]

  other_slot :
      (h : HandlePriv) (k : K) (m e : ℕ) → get_elem? h.ep_no m ≡ some e → e ≢ ep → At h k → m ≢ i
  other_slot h k m e g ne a same =
      let q : some e ≡ some ep = sym g ∙ ap (get_elem? h.ep_no) same ∙ a.bound in
      ne (some-injective e ep q)

  fs_slot-Elsewhere :
      (e need : ℕ) (h : HandlePriv) (k : K)
      → e ≢ ep
      → ep ≢ 0
      → At h k
      → Elsewhere (fs_slot d h k e need)
  unfolding fs_slot
  fs_slot-Elsewhere e need h k ne real a = elim (scan-Scanned e 0 none h.ep_no) [
    | bound m f at q ↦
        rw (q, zero-add m) (choose-Elsewhere e need m f h k (other_slot h k m e at ne a) a)
    | unbound m others at z q ↦
        rw (q, zero-add m)
          (reply-Elsewhere m e need h k (other_slot h k m 0 at (λ x. real (sym x)) a) a)
    | kept others full q ↦ rw q a
  ]

  start_on-Holds :
      (r : Request) (o : HandlePriv × K × SlotResult)
      → Elsewhere o
      → At (start_on d r o).0 (start_on d r o).1
  unfolding start_on
  start_on-Holds r (h, k, slot_error e) a = a
  start_on-Holds r (h, k, slot_of j) a =
      let started =
        called-Holds (prepare d j r h) k (d.fs_start k j).0 (ports.at_start k j i a.1)
          (prepare-Holds j r h k a.1 a.0) in
      elim (Reply-cases (d.fs_start k j).1) [
        | inl (e, q) ↦ rw (q, start_on) started
        | inr (u, q) ↦ rw (q, start_on) started
      ]

  start-Holds :
      (r : Request) (h : HandlePriv) (k : K)
      → r.endpoint ≢ ep
      → ep ≢ 0
      → At h k
      → At (start d r h k).0 (start d r h k).1
  unfolding start
  start-Holds r h k ne real a =
      if_both (λ (o : HandlePriv × K × SlotResult). At o.0 o.1) (not h.fs_inited) a
        (start_on-Holds r (fs_slot d h k r.endpoint r.length)
          (fs_slot-Elsewhere r.endpoint r.length h k ne real a))

  module _ (lt : i < nfsep) (drains : Drains d) (fuel : ℕ) (enough : nfsep < fuel)
      (real : ep ≢ 0) where
    pub drained :
        (h : HandlePriv) (k : K) → At h k → DrainHolds d ports i s n ep (fs_drain d fuel h k)
    drained h k a =
        drain-Holds d ports i s n lt drains ep fuel h k (omega (arith, enough, drains.bounded k)) a

    abbrev SectionHolds : Option (HandlePriv × K) → Type 0
    SectionHolds o = (r : HandlePriv × K) × ((o ≡ some r) × At r.0 r.1)

    looked-Holds :
        (j : ℕ) (r : HandlePriv × K × Bool) → j ≢ i → At r.0 r.1 → SectionHolds (looked d fuel j r)
    looked-Holds j (h, k, ok) ne a =
        if_both (λ r. SectionHolds (some r)) (ok && get_or h.done j false)
          ((idle j h, k), (refl, idle-Holds j h k ne a)) ((h, k), (refl, a))

    section-Holds :
        (a : Section) (h : HandlePriv) (k : K)
        → Apart i ep a
        → At h k
        → SectionHolds (section d fuel a h k)
    unfolding section
    section-Holds (starts r) h k ne a =
        (((start d r h k).0, (start d r h k).1), (refl, start-Holds r h k ne real a))
    section-Holds (looks j) h k ne a =
        let r = drained h k a in rw (r.ends, section) (looked-Holds j r.result ne r.holds)
    section-Holds (stops j) h k ne a =
        let r =
          drained h (d.fs_stop k j) (called-Holds h k (d.fs_stop k j) (ports.at_stop k j i ne) a) in
        rw (r.ends, section)
          ((idle j r.result.0, r.result.1), (refl, idle-Holds j r.result.0 r.result.1 ne r.holds))

    pub sections-Holds :
        (as' : List Section) (h : HandlePriv) (k : K)
        → All (Apart i ep) as'
        → At h k
        → SectionHolds (sections d fuel as' h k)
    unfolding sections
    sections-Holds [] h k apart a = ((h, k), (refl, a))
    sections-Holds (x ∷ xs) h k apart a =
        let (r, (e, b)) = section-Holds x h k apart.0 a in
        rw (e, sections) (sections-Holds xs r.0 r.1 apart.1 b)
