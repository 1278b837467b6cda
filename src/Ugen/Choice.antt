-- ===== src/Ugen/Choice.antt =====
-- What _fs_slot chooses.
use mathlib.Core.Path.{subst}
use native.Mathlib.Nat.{zero-add}
use native.Mathlib.Decide.{ℕ_discrete}
use android_sdk_custom.Prelude.{
  zero, leb→le, ℕ, ◌≡◌, ◌≢◌, ◌≤◌, ◌<◌, refl, sym, ◌∙◌, List, [], ◌∷◌, Option, none, some, arith,
  get_elem?, length, All, ◌⊎◌, inl, inr, ◌∷◌, suc, Bool-cases, leb, get_or,
}
use android_sdk_custom.Libusb.{no_mem}
use android_sdk_custom.Ugen.Errors.{Errno, Reply, failed, errno_to_libusb}
use android_sdk_custom.Ugen.Slots.{
  HandlePriv, Driver, clamp, SlotResult, slot_error, slot_of, slot_reply, choose, fs_slot,
}
use android_sdk_custom.Ugen.Binding.{
  IsValid, Grants, SameBut, Reopened, reopen-Reopened, open_answer, bound, unbound, kept,
  scan-Scanned, get_or-get_elem?,
}

All-get {κ} : (P : ℕ → Type κ) (es : List ℕ) (m e : ℕ) → All P es → get_elem? es m ≡ some e → P e
All-get P [] m e a g = cc
All-get P (x ∷ es) zero e a g = let q : x ≡ e = cc in subst P q a.0
All-get P (x ∷ es) (suc m) e a g = All-get P es m e a.1 g

length-get : (es : List ℕ) (m e : ℕ) → get_elem? es m ≡ some e → m < length es
length-get [] m e g = cc
length-get (x ∷ es) zero e g = omega arith
length-get (x ∷ es) (suc m) e g = omega (arith, length-get es m e g)

module _ {K : Type 0} (d : Driver K) (ep need : ℕ) (h : HandlePriv) (k : K) (g : HandlePriv) where
  -- Of a slot: it is bound to ep, with a buffer of the size that was asked for (or of the largest
  -- size that a slot can have), and every other slot is bound as before. Of an error: either each
  -- slot is bound to another endpoint, and nothing changed; or a slot was released, the driver refused
  -- with this error to open it for ep, it is free then, and every other slot is bound as before.
  abbrev pub Outcome : SlotResult → Type 0
  Outcome (slot_of i) =
      (n : ℕ) × (get_elem? g.ep_no i ≡ some ep)
      × (get_elem? g.ep_bufsize i ≡ some n)
      × ((need ≤ n) ⊎ (clamp d.fs_max_bufsize need ≤ n))
      × SameBut i h g
  Outcome (slot_error err) =
      ((err ≡ no_mem) × (g ≡ h) × All (λ e. e ≢ ep) h.ep_no × All (λ e. e ≢ 0) h.ep_no)
      ⊎ ((i : ℕ) × (e : Errno) × (open_answer d i ep (clamp d.fs_max_bufsize need) h k ≡ failed e)
          × (err ≡ errno_to_libusb e)
          × (get_elem? g.ep_no i ≡ some 0)
          × SameBut i h g)

  Reopened-unique :
      (a : Reply ℕ) (i : ℕ) (r : Reply ℕ)
      → Reopened a i ep (clamp d.fs_max_bufsize need) h g r
      → IsValid h
      → ((j : ℕ) → i ≢ j → get_elem? h.ep_no j ≢ some ep)
      → (e : ℕ) → get_elem? g.ep_no i ≡ some e
      → e ≢ 0
      → (j : ℕ) → get_elem? g.ep_no j ≡ some e
      → i ≡ j
  Reopened-unique a i r p v alone e gi ne j gj = elim (ℕ_discrete i j) [
    | yes same ↦ same
    | no other ↦ absurd (elim p.outcome [
      | inl (granted, given, q, b, c, room) ↦ alone j other (sym (p.same j other) ∙ gj ∙ sym gi ∙ b)
      | inr (err, given, q, z) ↦ ne (cc (sym gi ∙ z))
    ])
  ]

module _ {K : Type 0} (d : Driver K) (grants : Grants d) (ep need : ℕ) (h : HandlePriv) (k : K)
    (real : ep ≢ 0) (v : IsValid h) where
  Chosen : HandlePriv × K × SlotResult → Type 0
  Chosen (g, k', r) = IsValid g × Outcome d ep need h k g r

  still-IsValid :
      (answer : Reply ℕ) (i : ℕ) (g : HandlePriv) (r : Reply ℕ)
      → Reopened answer i ep (clamp d.fs_max_bufsize need) h g r
      → ((j : ℕ) → i ≢ j → get_elem? h.ep_no j ≢ some ep)
      → IsValid g
  still-IsValid answer i g r p alone = record {
    slots = p.slots ∙ v.slots;
    sizes = p.sizes ∙ v.sizes;
    unique = λ a b e ga gb ne. elim (ℕ_discrete i a) [
      | yes at ↦ sym at ∙ only e (subst (λ x. get_elem? g.ep_no x ≡ some e) (sym at) ga) ne b gb
      | no na ↦ elim (ℕ_discrete i b) [
        | yes at ↦
            absurd (na (only e (subst (λ x. get_elem? g.ep_no x ≡ some e) (sym at) gb) ne a ga))
        | no nb ↦ v.unique a b e (sym (p.same a na) ∙ ga) (sym (p.same b nb) ∙ gb) ne
      ]
    ];
  }
    where
      only :
          (e : ℕ)
          → get_elem? g.ep_no i ≡ some e
          → e ≢ 0
          → (j : ℕ) → get_elem? g.ep_no j ≡ some e
          → i ≡ j
      only = Reopened-unique d ep need h k g answer i r p v alone

  reopened :
      (i : ℕ) (g : HandlePriv) (k' : K) (r : Reply ℕ)
      → Reopened
          (open_answer d i ep (clamp d.fs_max_bufsize need) h k)
          i
          ep
          (clamp d.fs_max_bufsize need)
          h
          g
          r
      → ((j : ℕ) → i ≢ j → get_elem? h.ep_no j ≢ some ep)
      → Chosen (slot_reply (g, k', r))
  unfolding Chosen
  reopened i g k' r p alone = elim p.outcome [
    | inl (granted, given, q, b, c, l) ↦
        subst (λ x. Chosen (slot_reply (g, k', x))) (sym q)
          (still-IsValid _ i g r p alone, (granted, b, c, inr l, p.same))
    | inr (e, given, q, z) ↦
        subst (λ x. Chosen (slot_reply (g, k', x))) (sym q)
          (still-IsValid _ i g r p alone, inr (i, e, given, refl, z, p.same))
  ]

  choose-bound :
      (i : ℕ) (free : Option ℕ)
      → get_elem? h.ep_no i ≡ some ep
      → Chosen (choose d ep need h k (some i, free))
  unfolding Chosen
  choose-bound i free at = elim (Bool-cases (leb need (get_or h.ep_bufsize i 0))) [
    | inl b ↦ rw b (
      v,
      (
        get_or h.ep_bufsize i 0,
        at,
        get_or-get_elem? h.ep_bufsize i (omega (arith, lt, v.slots, v.sizes)),
        inl (leb→le need (get_or h.ep_bufsize i 0) b),
        λ j ne. refl,
      ),
    )
    | inr b ↦ rw b (
        reopened i _ _ _
          (reopen-Reopened d grants i ep need h k lt (omega (arith, lt, v.slots, v.sizes)))
          (λ j ne e. ne (v.unique i j ep at e real)))
  ]
    where
      lt : i < length h.ep_no
      lt = length-get h.ep_no i ep at

  choose-unbound :
      (i : ℕ)
      → get_elem? h.ep_no i ≡ some 0
      → All (λ e. e ≢ ep) h.ep_no
      → Chosen (choose d ep need h k (none, some i))
  choose-unbound i at others =
      reopened i _ _ _
        (reopen-Reopened d grants i ep need h k lt (omega (arith, lt, v.slots, v.sizes)))
        (λ j ne e. All-get (λ x. x ≢ ep) h.ep_no j ep others e refl)
    where
      lt : i < length h.ep_no
      lt = length-get h.ep_no i 0 at

  fs_slot-Chosen : Chosen (fs_slot d h k ep need)
  unfolding fs_slot Chosen
  fs_slot-Chosen = elim (scan-Scanned ep 0 none h.ep_no) [
    | bound m f at q ↦ rw (q, zero-add m) (choose-bound m f at)
    | unbound m others at n q ↦ rw (q, zero-add m) (choose-unbound m at others)
    | kept others full q ↦ rw q (v, inl (refl, refl, others, full refl))
  ]

-- With a driver that grants the sizes it is asked for, on a valid handle and for an endpoint that is
-- not 0, _fs_slot keeps the handle valid (no endpoint is bound to two slots). Either it returns a
-- slot that is bound to the endpoint, with a buffer of the size needed or of the largest size, or
-- an error: out of slots with nothing changed, or the one with which the driver refused to open a
-- slot for the endpoint. No other slot's binding changes.
pub fs_slot_lem :
    {K : Type 0} (d : Driver K) (ep need : ℕ) (h : HandlePriv) (k : K)
    → Grants d
    → ep ≢ 0
    → IsValid h
    → let (g, k', r) = fs_slot d h k ep need in IsValid g × Outcome d ep need h k g r
unfolding fs_slot-Chosen Chosen
fs_slot_lem d ep need h k grants real v = fs_slot-Chosen d grants ep need h k real v
