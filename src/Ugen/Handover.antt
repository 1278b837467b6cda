-- ===== src/Ugen/Handover.antt =====
-- A completion reaches the thread that waits for it.
use android_sdk_custom.Prelude.{
  ℕ, ◌<◌, ◌≡◌, ◌≢◌, ◌⊎◌, inl, inr, refl, List, some, Bool, true, false, arith, get_or,
  get_or-set_self, All, if◌then◌else◌, ◌>>=◌, ◌==◌, not,
}
use android_sdk_custom.Libusb.{no_device, timed_out, pipe, io}
use android_sdk_custom.Ugen.Slots.{HandlePriv, Driver, nfsep}
use android_sdk_custom.Ugen.Transfer.{
  Look, Waited, ended, transferred, idle, outcome, wait_round, drained_round,
}
use android_sdk_custom.Ugen.Drain.{Drains}
use android_sdk_custom.Ugen.Threads.{Ports, Section, sections}
use android_sdk_custom.Ugen.Ready.{Recorded}
use android_sdk_custom.Ugen.Others.{Holds, Gone}
use android_sdk_custom.Ugen.Interference.{Apart, sections-Holds, drained}

-- What a transfer comes to whose completion has this status and length.
abbrev pub judged : {K : Type 0} → Driver K → ℕ → ℕ → Waited
judged d s n =
    if s == d.err_timeout
    then ended timed_out
    else if s == d.err_stalled
    then ended pipe
    else if not (s == 0)
    then ended io
    else transferred n

module _ {K : Type 0} (d : Driver K) (ports : Ports d) (drains : Drains d) (fuel : ℕ)
    (enough : nfsep < fuel) (i s n ep : ℕ) (lt : i < nfsep) (real : ep ≢ 0) where
  -- The end of a wait: USB_FS_COMPLETE says that the device is gone, or the completion was taken.
  abbrev pub Taken : HandlePriv × K × Waited → Type 0
  Taken (h, k, w) =
      ((w ≡ ended no_device) × Gone d ports i s n)
      ⊎ ((w ≡ judged d s n) × (get_or h.done i false ≡ false))

  outcome-judged :
      (h : HandlePriv)
      → get_or h.cstatus i 0 ≡ s
      → get_or h.cactlen i 0 ≡ n
      → outcome d i h ≡ judged d s n
  unfolding outcome
  outcome-judged h e f = rw (e, f) refl

  drained_round-Taken :
      (timeout : ℕ) (look : Look) (r : HandlePriv × K × Bool)
      → Holds d ports i s n ep r.0 r.1
      → (r.2 ≡ true → Recorded i s n r.0 (ports.port r.1 i))
      → (r.2 ≡ false → Gone d ports i s n)
      → (o : HandlePriv × K × Waited) × ((drained_round d fuel i timeout look r ≡ some o) × Taken o)
  drained_round-Taken timeout look (h, k, false) a seen gone =
      ((h, k, ended no_device), (refl, inl (refl, gone refl)))
  drained_round-Taken timeout look (h, k, true) a seen gone =
      let r = seen refl in
      rw (r.done, drained_round)
        (
          (idle i h, k, outcome d i h),
          (
            refl,
            inr (
              outcome-judged h r.status r.actlen,
              get_or-set_self h.done i false false (omega (arith, lt, a.sized.done)),
            ),
          ),
        )

  -- On a kernel and fuel as described: when a completion of slot i is ready, in the table or in the
  -- kernel, and the slot is bound to ep, then whatever sections other transfers on other endpoints run,
  -- the next round of the slot's waiter that sees neither a hangup nor an interrupt ends, with the
  -- status and length of that completion and the slot idle; or it ends with LIBUSB_ERROR_NO_DEVICE,
  -- and then USB_FS_COMPLETE failed with another error than EBUSY.
  pub completion_kept :
      (h : HandlePriv) (k : K) (others : List Section) (timeout : ℕ) (look : Look)
      → Holds d ports i s n ep h k
      → All (Apart i ep) others
      → look.hangup ≡ false
      → look.flagged ≡ false
      → (r : HandlePriv × K × Waited) × (((sections d fuel others h k >>= λ p.
              wait_round d fuel i timeout p.0 p.1 look)
            ≡ some r)
          × Taken r)
  unfolding wait_round
  completion_kept h k others timeout look a apart u f =
      let (p, (e, b)) =
        sections-Holds d ports i s n ep lt drains fuel enough real others h k apart a in
      let c = drained d ports i s n ep lt drains fuel enough real p.0 p.1 b in
      rw (e, u, f, c.ends, wait_round)
        (drained_round-Taken timeout look c.result c.holds c.seen c.gone)
