-- ===== src/Examples/Kernel.antt =====
-- A kernel with one completion for the first slot, and a handle that waits for it.
use mathlib.Core.Path.{subst, ap}
use android_sdk_custom.Prelude.{
  ℕ, zero, suc, ◌<◌, ◌≤◌, ◌≡◌, ◌≢◌, inl, refl, sym, List, [], ◌∷◌, some, Bool, true, false, arith,
  if◌then◌else◌,
}
use android_sdk_custom.Ugen.Errors.{failed, answered, ebusy, Errno}
use android_sdk_custom.Ugen.Slots.{nfsep, HandlePriv, Driver, Completion}
use android_sdk_custom.Ugen.Drain.{Drains}
use android_sdk_custom.Ugen.Transfer.{Look}
use android_sdk_custom.Ugen.Threads.{
  Port, unstarted, running, finished, Later, HandedOver, Ports, Section, starts, looks, stops,
}
use android_sdk_custom.Ugen.Others.{Holds}

-- The Boolean says whether slot 0 has a completion.
abbrev pub kernel : Driver Bool
kernel = record {
  fs_open = λ k r. (k, answered r.max_bufsize);
  fs_close = λ k i. k;
  fs_start = λ k i. (k, answered tt);
  fs_stop = λ k i. k;
  fs_complete = λ k. (
    false,
    if k then answered (record { ep_index = 0; status = 0; length = 10 }) else failed ebusy,
  );
  fs_max_bufsize = 65536;
  err_timeout = 16;
  err_stalled = 17;
  single_short_ok = 1;
}

abbrev pending_of : Bool → ℕ
pending_of true = 1
pending_of false = 0

kernel-falls :
    (k : Bool) (c : Completion)
    → (kernel.fs_complete k).1 ≡ answered c
    → pending_of (kernel.fs_complete k).0 < pending_of k
kernel-falls true c e = omega arith
kernel-falls false c e = cc

kernel-bounded : (k : Bool) → pending_of k ≤ nfsep
kernel-bounded true = omega arith
kernel-bounded false = omega arith

pub kernel-Drains : Drains kernel
kernel-Drains = record { pending = pending_of; falls = kernel-falls; bounded = kernel-bounded }

abbrev port_of : Bool → ℕ → Port
port_of true zero = finished 0 10
port_of k _ = unstarted

pub same_later : (p : Port) → Later p p
same_later unstarted = refl
same_later running = λ e. cc
same_later (finished s n) = refl

abbrev ten : Completion
ten = record { ep_index = 0; status = 0; length = 10 }

answered-injective : (a b : Completion) → answered a ≡ answered b → a ≡ b
answered-injective a b e = ap (λ r. elim r as (λ _. Completion) [ failed _ ↦ a | answered x ↦ x ]) e

pub kernel-own :
    (k : Bool) (c : Completion)
    → (kernel.fs_complete k).1 ≡ answered c
    → HandedOver (port_of k c.ep_index) c × (port_of false c.ep_index ≡ unstarted)
kernel-own true c e =
    subst (λ x. HandedOver (port_of true x.ep_index) x × (port_of false x.ep_index ≡ unstarted))
      (answered-injective ten c e) ((refl, refl), refl)
kernel-own false c e = cc

pub kernel-other :
    (k : Bool) (c : Completion) (j : ℕ)
    → (kernel.fs_complete k).1 ≡ answered c
    → c.ep_index ≢ j
    → Later (port_of k j) (port_of false j)
kernel-other true c zero e ne =
    absurd (ne (sym (ap (λ x. x.ep_index) (answered-injective ten c e))))
kernel-other true c (suc j) e ne = refl
kernel-other false c j e ne = cc

pub kernel-refused :
    (k : Bool) (e : Errno) (j : ℕ)
    → (kernel.fs_complete k).1 ≡ failed e
    → Later (port_of k j) (port_of false j)
kernel-refused true e j q = cc
kernel-refused false e j q = refl

pub kernel-busy :
    (k : Bool) (j s n : ℕ) → (kernel.fs_complete k).1 ≡ failed ebusy → port_of k j ≢ finished s n
kernel-busy true j s n q = cc
kernel-busy false j s n q = λ e. cc

abbrev pub kernel_ports : Ports kernel
kernel_ports = record {
  port = port_of;
  own = kernel-own;
  other = kernel-other;
  refused = kernel-refused;
  busy = kernel-busy;
  at_start = λ k i j ne. same_later (port_of k j);
  at_stop = λ k i j ne. same_later (port_of k j);
  at_open = λ k r j ne. same_later (port_of k j);
  at_close = λ k i j ne. same_later (port_of k j);
}

-- Slot 0 is bound to endpoint 129.
abbrev pub reading : HandlePriv
reading = record {
  fd = some 3;
  fs_inited = true;
  fs_status = 0 ∷ 0 ∷ 0 ∷ 0 ∷ [];
  fs_timeout = 0 ∷ 0 ∷ 0 ∷ 0 ∷ [];
  fs_flags = 0 ∷ 0 ∷ 0 ∷ 0 ∷ [];
  ppbuf = 0 ∷ 0 ∷ 0 ∷ 0 ∷ [];
  plen = 0 ∷ 0 ∷ 0 ∷ 0 ∷ [];
  ep_no = 129 ∷ 0 ∷ 0 ∷ 0 ∷ [];
  ep_bufsize = 512 ∷ 0 ∷ 0 ∷ 0 ∷ [];
  done = false ∷ false ∷ false ∷ false ∷ [];
  cstatus = 0 ∷ 0 ∷ 0 ∷ 0 ∷ [];
  cactlen = 0 ∷ 0 ∷ 0 ∷ 0 ∷ [];
}

pub reading-Holds : Holds kernel kernel_ports 0 0 10 129 reading true
reading-Holds = record {
  sized = record { done = refl; cstatus = refl; cactlen = refl; status = refl; plen = refl };
  bound = refl;
  ready = inl (record { done = refl; port = refl });
}

abbrev pub writing : List Section
writing =
    starts (record { endpoint = 2; length = 64; timeout = 0; short_not_ok = false; buffer = 9 })
    ∷ looks 1
    ∷ stops 1
    ∷ []

abbrev pub quiet : Look
quiet = record { hangup = false; flagged = false; ms = 0 }
