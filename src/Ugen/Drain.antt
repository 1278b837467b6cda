-- ===== src/Ugen/Drain.antt =====
-- _fs_drain ends, and what it leaves alone.
use native.Mathlib.Decide.{ℕ_discrete}
use android_sdk_custom.Ugen.Ready.{
  Sized, complete_one-SameAt, complete_one-Recorded, complete_one-Sized,
}
use android_sdk_custom.Prelude.{
  ℕ, zero, suc, ◌≤◌, ◌<◌, ◌≡◌, refl, ◌∙◌, Option, some, Bool, arith, length, length-set, Bool-cases,
  ltb, inl, inr, get_or, sym, false, true,
}
use android_sdk_custom.Ugen.Errors.{Reply, failed, answered}
use android_sdk_custom.Ugen.Slots.{nfsep, HandlePriv, Driver, Completion, complete_one, fs_drain}

-- USB_FS_COMPLETE hands over each completion once, and a slot has one at most.
pub record Drains {K : Type 0} (d : Driver K) : Type 0 where
  pub pending : K → ℕ
  pub falls :
      (k : K) (c : Completion)
      → (d.fs_complete k).1 ≡ answered c
      → pending (d.fs_complete k).0 < pending k
  pub bounded : (k : K) → pending k ≤ nfsep

-- USB_FS_COMPLETE handed over a completion of the slot with status s and length n.
abbrev pub CompletionOf : {K : Type 0} → Driver K → ℕ → ℕ → ℕ → Type 0
CompletionOf {K} d slot s n =
    (k : K) × (c : Completion) × ((d.fs_complete k).1 ≡ answered c)
    × (c.ep_index ≡ slot)
    × (c.status ≡ s)
    × (c.length ≡ n)

-- Where the slot is marked as done, the table has the status and length of a completion of it.
abbrev pub Sourced : {K : Type 0} → Driver K → ℕ → HandlePriv → Type 0
Sourced d slot h =
    get_or h.done slot false ≡ true
    → CompletionOf d slot (get_or h.cstatus slot 0) (get_or h.cactlen slot 0)

complete_one-Sourced :
    {K : Type 0} (d : Driver K) (slot : ℕ) (h : HandlePriv) (k : K) (c : Completion)
    → slot < nfsep
    → (d.fs_complete k).1 ≡ answered c
    → Sized h
    → Sourced d slot h
    → Sourced d slot (complete_one h c)
complete_one-Sourced d slot h k c lt e z old = elim (ℕ_discrete c.ep_index slot) [
  | yes at ↦
      let r = complete_one-Recorded slot c.status c.length h c z lt at refl refl in
      λ t. (k, c, e, at, sym r.status, sym r.actlen)
  | no ne ↦
      let s = complete_one-SameAt slot 0 0 h c ne in
      λ t. rw (s.cstatus, s.cactlen) (old (sym s.done ∙ t))
]

-- What a drain keeps: the size of the tables, the binding of the slots, and where the entries of the
-- table come from.
pub record Keeps {K : Type 0} (d : Driver K) (h g : HandlePriv) : Type 0 where
  pub sized : Sized h → Sized g
  pub sourced : (slot : ℕ) → slot < nfsep → Sized h → Sourced d slot h → Sourced d slot g
  pub size : length g.done ≡ length h.done
  pub bound : g.ep_no ≡ h.ep_no
  pub sizes : g.ep_bufsize ≡ h.ep_bufsize
  pub inited : g.fs_inited ≡ h.fs_inited

complete_one-Same :
    (h : HandlePriv) (c : Completion)
    → (length (complete_one h c).done ≡ length h.done)
      × ((complete_one h c).ep_no ≡ h.ep_no)
      × ((complete_one h c).ep_bufsize ≡ h.ep_bufsize)
      × ((complete_one h c).fs_inited ≡ h.fs_inited)
unfolding complete_one
complete_one-Same h c = elim (Bool-cases (ltb c.ep_index nfsep)) [
  | inl b ↦ rw (b, complete_one) (length-set h.done c.ep_index _, refl, refl, refl)
  | inr b ↦ rw (b, complete_one) (refl, refl, refl, refl)
]

complete_one-Keeps :
    {K : Type 0} (d : Driver K) (h : HandlePriv) (k : K) (c : Completion)
    → (d.fs_complete k).1 ≡ answered c
    → Keeps d h (complete_one h c)
complete_one-Keeps d h k c e = record {
  sized = complete_one-Sized h c;
  sourced = λ slot lt z old. complete_one-Sourced d slot h k c lt e z old;
  size = (complete_one-Same h c).0;
  bound = (complete_one-Same h c).1;
  sizes = (complete_one-Same h c).2;
  inited = (complete_one-Same h c).3;
}

Keeps-trans :
    {K : Type 0} (d : Driver K) (f g h : HandlePriv) → Keeps d f g → Keeps d g h → Keeps d f h
Keeps-trans d f g h a b = record {
  sized = λ z. b.sized (a.sized z);
  sourced = λ slot lt z old. b.sourced slot lt (a.sized z) (a.sourced slot lt z old);
  size = b.size ∙ a.size;
  bound = b.bound ∙ a.bound;
  sizes = b.sizes ∙ a.sizes;
  inited = b.inited ∙ a.inited;
}

-- The drain came to an end, in a state that keeps what h has.
pub record Drained {K : Type 0} (d : Driver K) (h : HandlePriv) (o : Option (HandlePriv × K × Bool))
    : Type 0 where
  pub result : HandlePriv × K × Bool
  pub ends : o ≡ some result
  pub keeps : Keeps d h result.0

module _ {K : Type 0} (d : Driver K) (drains : Drains d) where
  drain-Drained :
      (fuel : ℕ) (h : HandlePriv) (k : K)
      → drains.pending k < fuel
      → Drained d h (fs_drain d fuel h k)
  unfolding fs_drain
  drain-Drained zero h k lt = absurd (omega arith)
  drain-Drained (suc fuel) h k lt =
      by_reply (d.fs_complete k).1 refl
        (λ c less. drain-Drained fuel (complete_one h c) (d.fs_complete k).0 (omega arith))
    where
      by_reply :
          (r : Reply Completion)
          → (d.fs_complete k).1 ≡ r
          → ((c : Completion)
              → drains.pending (d.fs_complete k).0 < drains.pending k
              → Drained d
                  (complete_one h c)
                  (fs_drain d fuel (complete_one h c) (d.fs_complete k).0))
          → Drained d h (fs_drain d (suc fuel) h k)
      by_reply (failed e) q rest =
          rw (q, fs_drain)
            (record {
              result = _;
              ends = refl;
              keeps = record {
                sized = λ z. z;
                sourced = λ slot lt z old. old;
                size = refl;
                bound = refl;
                sizes = refl;
                inited = refl;
              };
            })
      by_reply (answered c) q rest =
          let r = rest c (drains.falls k c q) in
          rw (q, fs_drain)
            (record {
              result = r.result;
              ends = r.ends;
              keeps =
                  Keeps-trans d h (complete_one h c) r.result.0 (complete_one-Keeps d h k c q)
                    r.keeps;
            })

  -- With as much fuel as there are slots, and one, every drain ends.
  pub drain_ends :
      (fuel : ℕ) (h : HandlePriv) (k : K) → nfsep < fuel → Drained d h (fs_drain d fuel h k)
  drain_ends fuel h k lt = drain-Drained fuel h k (omega (arith, drains.bounded k))
