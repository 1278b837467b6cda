-- ===== src/Ugen/Others.antt =====
-- Other threads' sections leave a slot's completion where its waiter finds it.
use mathlib.Core.Path.{subst}
use android_sdk_custom.Prelude.{
  ℕ, zero, suc, ◌<◌, ◌≡◌, inl, inr, refl, ap, ◌∙◌, Option, some, Bool, true, false, arith,
  get_elem?, ◌≢◌,
}
use android_sdk_custom.Ugen.Errors.{
  Reply, failed, answered, ebusy, Errno, eio, eacces, enoent, enxio, enomem, etimedout, einval,
  another,
}
use android_sdk_custom.Ugen.Slots.{HandlePriv, Driver, Completion, complete_one, fs_drain, nfsep}
use android_sdk_custom.Ugen.Drain.{Drains}
use android_sdk_custom.Ugen.Threads.{Later, Ports}
use android_sdk_custom.Ugen.Ready.{
  Sized, Recorded, Ready, Ready-later, complete_one-Sized, complete_one-Ready,
}

module _ {K : Type 0} (d : Driver K) (ports : Ports d) (i s n : ℕ) where
  -- A state in which slot i belongs to endpoint ep and has its completion in the table or the kernel.
  pub record Holds (ep : ℕ) (h : HandlePriv) (k : K) : Type 0 where
    pub sized : Sized h
    pub bound : get_elem? h.ep_no i ≡ some ep
    pub ready : Ready i s n h (ports.port k i)

  -- USB_FS_COMPLETE failed with another error than EBUSY.
  abbrev pub Gone : Type 0
  Gone = (k : K) × (e : Errno) × ((d.fs_complete k).1 ≡ failed e) × (e ≢ ebusy)

  pub record DrainHolds (ep : ℕ) (o : Option (HandlePriv × K × Bool)) : Type 0 where
    pub result : HandlePriv × K × Bool
    pub ends : o ≡ some result
    pub holds : Holds ep result.0 result.1
    pub seen : result.2 ≡ true → Recorded i s n result.0 (ports.port result.1 i)
    pub gone : result.2 ≡ false → Gone

  -- After EBUSY the completion must be in the table.
  busy_seen :
      (ep : ℕ) (h : HandlePriv) (k : K) (e : Errno)
      → (d.fs_complete k).1 ≡ failed e
      → Holds ep h k
      → (elim e as (λ _. Bool) [ ebusy ↦ true | _ ↦ false ]) ≡ true
      → Recorded i s n h (ports.port (d.fs_complete k).0 i)
  busy_seen ep h k ebusy q a t = elim a.ready [
    | inl w ↦ absurd (ports.busy k i s n q w.port)
    | inr r ↦ record {
      done = r.done;
      status = r.status;
      actlen = r.actlen;
      port =
          subst (λ x. Later x (ports.port (d.fs_complete k).0 i)) r.port
            (ports.refused k ebusy i q);
    }
  ]
  busy_seen ep h k eio q a t = cc
  busy_seen ep h k eacces q a t = cc
  busy_seen ep h k enoent q a t = cc
  busy_seen ep h k enxio q a t = cc
  busy_seen ep h k enomem q a t = cc
  busy_seen ep h k etimedout q a t = cc
  busy_seen ep h k einval q a t = cc
  busy_seen ep h k (another m) q a t = cc

  not_busy :
      (k : K) (e : Errno)
      → (d.fs_complete k).1 ≡ failed e
      → (elim e as (λ _. Bool) [ ebusy ↦ true | _ ↦ false ]) ≡ false
      → Gone
  not_busy k e q f =
      (k, e, q, λ b. cc (ap (λ x. elim x as (λ _. Bool) [ ebusy ↦ true | _ ↦ false ]) b, f))

  module _ (lt : i < nfsep) (drains : Drains d) where
    drain_step :
        (ep fuel : ℕ) (h : HandlePriv) (k : K) (r : Reply Completion)
        → (d.fs_complete k).1 ≡ r
        → Holds ep h k
        → ((c : Completion)
            → (d.fs_complete k).1 ≡ answered c
            → DrainHolds ep (fs_drain d fuel (complete_one h c) (d.fs_complete k).0))
        → DrainHolds ep (fs_drain d (suc fuel) h k)
    unfolding fs_drain
    drain_step ep fuel h k (failed e) q a rest =
        rw (q, fs_drain)
          (record {
            result = _;
            ends = refl;
            holds = record {
              sized = a.sized;
              bound = a.bound;
              ready =
                  Ready-later i s n h h _ _ (record { done = refl; cstatus = refl; cactlen = refl })
                    (ports.refused k e i q) a.ready;
            };
            seen = busy_seen ep h k e q a;
            gone = not_busy k e q;
          })
    drain_step ep fuel h k (answered c) q a rest =
        let r = rest c q in
        rw (q, fs_drain)
          (record {
            result = r.result;
            ends = r.ends;
            holds = r.holds;
            seen = r.seen;
            gone = r.gone;
          })

    complete_one-bound : (h : HandlePriv) (c : Completion) → (complete_one h c).ep_no ≡ h.ep_no
    unfolding complete_one
    complete_one-bound h c = ground arith

    pub drain-Holds :
        (ep fuel : ℕ) (h : HandlePriv) (k : K)
        → drains.pending k < fuel
        → Holds ep h k
        → DrainHolds ep (fs_drain d fuel h k)
    drain-Holds ep zero h k less a = absurd (omega (arith, less))
    drain-Holds ep (suc fuel) h k less a = drain_step ep fuel h k (d.fs_complete k).1 refl a (λ c q.
        drain-Holds ep fuel (complete_one h c) (d.fs_complete k).0
          (omega (arith, less, drains.falls k c q))
          (record {
            sized = complete_one-Sized h c a.sized;
            bound = ap (λ xs. get_elem? xs i) (complete_one-bound h c) ∙ a.bound;
            ready = complete_one-Ready d ports i s n lt h k c a.sized q a.ready;
          }))
