-- ===== src/Ugen/Ready.antt =====
-- A completion of a slot, and what the sections of other threads do to it.
use mathlib.Core.Path.{subst}
use native.Mathlib.Decide.{ℕ_discrete}
use android_sdk_custom.Prelude.{
  ℕ, ◌<◌, ◌≡◌, ◌≢◌, ◌⊎◌, inl, inr, refl, sym, ap, ◌∙◌, true, false, arith, Bool-cases, get_or,
  length, length-set, get_or-set_self, get_or-set_ne, lt→ltb, ltb,
}
use android_sdk_custom.Ugen.Errors.{answered}
use android_sdk_custom.Ugen.Slots.{HandlePriv, Driver, Completion, complete_one, nfsep}
use android_sdk_custom.Ugen.Threads.{Port, unstarted, finished, Later, HandedOver, Ports}

-- The tables have an entry for each slot.
pub record Sized (h : HandlePriv) : Type 0 where
  pub done : length h.done ≡ nfsep
  pub cstatus : length h.cstatus ≡ nfsep
  pub cactlen : length h.cactlen ≡ nfsep
  pub status : length h.fs_status ≡ nfsep
  pub plen : length h.plen ≡ nfsep

-- The completion of slot i with status s and length n is in the table, or the kernel has it.
pub record Recorded (i s n : ℕ) (h : HandlePriv) (p : Port) : Type 0 where
  pub done : get_or h.done i false ≡ true
  pub status : get_or h.cstatus i 0 ≡ s
  pub actlen : get_or h.cactlen i 0 ≡ n
  pub port : p ≡ unstarted

pub record Kept (i s n : ℕ) (h : HandlePriv) (p : Port) : Type 0 where
  pub done : get_or h.done i false ≡ false
  pub port : p ≡ finished s n

abbrev pub Ready : ℕ → ℕ → ℕ → HandlePriv → Port → Type 0
Ready i s n h p = Kept i s n h p ⊎ Recorded i s n h p

-- Nothing of slot i in the tables is different.
pub record SameAt (i : ℕ) (h g : HandlePriv) : Type 0 where
  pub done : get_or g.done i false ≡ get_or h.done i false
  pub cstatus : get_or g.cstatus i 0 ≡ get_or h.cstatus i 0
  pub cactlen : get_or g.cactlen i 0 ≡ get_or h.cactlen i 0

module _ (i s n : ℕ) where
  pub Ready-later :
      (h g : HandlePriv) (p q : Port) → SameAt i h g → Later p q → Ready i s n h p → Ready i s n g q
  Ready-later h g p q same later (inl k) =
      inl (record { done = same.done ∙ k.done; port = subst (λ x. Later x q) k.port later })
  Ready-later h g p q same later (inr r) = inr (record {
    done = same.done ∙ r.done;
    status = same.cstatus ∙ r.status;
    actlen = same.cactlen ∙ r.actlen;
    port = subst (λ x. Later x q) r.port later;
  })

  -- A completion of another slot.
  pub complete_one-SameAt :
      (h : HandlePriv) (c : Completion) → c.ep_index ≢ i → SameAt i h (complete_one h c)
  unfolding complete_one
  complete_one-SameAt h c ne = elim (Bool-cases (ltb c.ep_index nfsep)) [
    | inl b ↦
        rw (b, complete_one)
          (record {
            done = get_or-set_ne h.done c.ep_index i true false ne;
            cstatus = get_or-set_ne h.cstatus c.ep_index i _ 0 ne;
            cactlen = get_or-set_ne h.cactlen c.ep_index i _ 0 ne;
          })
    | inr b ↦ rw (b, complete_one) (record { done = refl; cstatus = refl; cactlen = refl })
  ]

  pub complete_one-Recorded :
      (h : HandlePriv) (c : Completion)
      → Sized h
      → i < nfsep
      → c.ep_index ≡ i
      → c.status ≡ s
      → c.length ≡ n
      → Recorded i s n (complete_one h c) unstarted
  unfolding complete_one
  complete_one-Recorded h c z lt at st ln =
      rw (at, lt→ltb i nfsep lt, complete_one)
        (record {
          done = get_or-set_self h.done i true false (omega (arith, lt, z.done));
          status =
              get_or-set_self h.cstatus i _ 0 (omega (arith, lt, z.cstatus))
              ∙ get_or-set_self h.fs_status i c.status 0 (omega (arith, lt, z.status))
              ∙ st;
          actlen =
              get_or-set_self h.cactlen i _ 0 (omega (arith, lt, z.cactlen))
              ∙ get_or-set_self h.plen i c.length 0 (omega (arith, lt, z.plen))
              ∙ ln;
          port = refl;
        })

pub complete_one-Sized : (h : HandlePriv) (c : Completion) → Sized h → Sized (complete_one h c)
unfolding complete_one
complete_one-Sized h c z = elim (Bool-cases (ltb c.ep_index nfsep)) [
  | inl b ↦
      rw (b, complete_one)
        (record {
          done = length-set h.done c.ep_index true ∙ z.done;
          cstatus = length-set h.cstatus c.ep_index _ ∙ z.cstatus;
          cactlen = length-set h.cactlen c.ep_index _ ∙ z.cactlen;
          status = length-set h.fs_status c.ep_index c.status ∙ z.status;
          plen = length-set h.plen c.ep_index c.length ∙ z.plen;
        })
  | inr b ↦
      rw (b, complete_one)
        (record {
          done = z.done;
          cstatus = z.cstatus;
          cactlen = z.cactlen;
          status = length-set h.fs_status c.ep_index c.status ∙ z.status;
          plen = length-set h.plen c.ep_index c.length ∙ z.plen;
        })
]

module _ {K : Type 0} (d : Driver K) (ports : Ports d) (i s n : ℕ) (lt : i < nfsep) where
  -- A completion that USB_FS_COMPLETE hands over.
  pub complete_one-Ready :
      (h : HandlePriv) (k : K) (c : Completion)
      → Sized h
      → (d.fs_complete k).1 ≡ answered c
      → Ready i s n h (ports.port k i)
      → Ready i s n (complete_one h c) (ports.port (d.fs_complete k).0 i)
  complete_one-Ready h k c z e (inl kept) = elim (ℕ_discrete c.ep_index i) [
    | yes at ↦
        let own = ports.own k c e in
        let p : ports.port k c.ep_index ≡ finished s n = ap (ports.port k) at ∙ kept.port in
        let over : (c.status ≡ s) × (c.length ≡ n) = subst (λ x. HandedOver x c) p own.0 in
        let q : ports.port (d.fs_complete k).0 i ≡ unstarted =
          ap (ports.port (d.fs_complete k).0) (sym at) ∙ own.1 in
        rw q (inr (complete_one-Recorded i s n h c z lt at over.0 over.1))
    | no ne ↦
        Ready-later i s n h (complete_one h c) _ _ (complete_one-SameAt i s n h c ne)
          (ports.other k c i e ne) (inl kept)
  ]
  complete_one-Ready h k c z e (inr r) = elim (ℕ_discrete c.ep_index i) [
    | yes at ↦
        let p : ports.port k c.ep_index ≡ unstarted = ap (ports.port k) at ∙ r.port in
        absurd (subst (λ x. HandedOver x c) p (ports.own k c e).0)
    | no ne ↦
        Ready-later i s n h (complete_one h c) _ _ (complete_one-SameAt i s n h c ne)
          (ports.other k c i e ne) (inr r)
  ]
