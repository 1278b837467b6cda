-- ===== src/Musl/Faccessat/Answers.antt =====
-- Whose rights faccessat checks.
use android_sdk_custom.Prelude.{
  ◌≡◌, refl, ◌⊎◌, inl, inr, Bool, true, false, arith, Bool-cases, ◌&&◌, ◌==◌,
}
use android_sdk_custom.Musl.Faccessat.{
  Ids, err, at_eaccess, ebusy, enosys, is_enosys, Kernel, Helper, checker, by_helper, faccessat,
}

-- With AT_EACCESS alone the newer system call, where there is one, checks the effective ids.
abbrev pub ChecksEffective : {R : Type 0} → Kernel R → Type 0
ChecksEffective {R} kernel =
    (ids : Ids) (r : R)
    → (kernel.faccessat2 ids r at_eaccess ≡ err enosys)
      ⊎ (kernel.faccessat2 ids r at_eaccess ≡ kernel.check ids.euid ids.egid r)

-- Every call around the helper process succeeds.
abbrev pub runs : Helper → Bool
runs h = h.pipe && (h.clone && (h.setregid && (h.setreuid && h.read)))

module _ {R : Type 0} (kernel : Kernel R) (ids : Ids) (h : Helper) (r : R) where
  by_helper-false :
      (by_helper kernel false ids h r ≡ kernel.check ids.euid ids.egid r)
      ⊎ ((by_helper kernel false ids h r ≡ err ebusy) × (runs h ≡ false))
  unfolding by_helper checker
  by_helper-false = ground arith

  by_helper-true :
      (by_helper kernel true ids h r ≡ kernel.check ids.ruid ids.rgid r)
      ⊎ (by_helper kernel true ids h r ≡ err ebusy)
  unfolding by_helper checker
  by_helper-true = ground arith

  -- Without flags faccessat checks the rights of the real ids.
  pub faccessat_plain :
      (is_android : Bool) → faccessat kernel is_android ids h r 0 ≡ kernel.check ids.ruid ids.rgid r
  unfolding faccessat
  faccessat_plain true = refl
  faccessat_plain false = refl

  same_ids :
      (ids.ruid == ids.euid) && (ids.rgid == ids.egid) ≡ true
      → kernel.check ids.ruid ids.rgid r ≡ kernel.check ids.euid ids.egid r
  same_ids e =
      let u : ids.ruid ≡ ids.euid = ground arith in
      let g : ids.rgid ≡ ids.egid = ground arith in rw (u, g)

  -- Not on Android, on a kernel whose newer system call is missing or checks the effective ids:
  -- faccessat with AT_EACCESS gives what the check of the effective ids gives; or it gives EBUSY, and
  -- then one of the calls around the helper process (pipe, clone, setregid, setreuid, read) fails.
  pub faccessat_effective :
      ChecksEffective kernel
      → (faccessat kernel false ids h r at_eaccess ≡ kernel.check ids.euid ids.egid r)
        ⊎ ((faccessat kernel false ids h r at_eaccess ≡ err ebusy) × (runs h ≡ false))
  unfolding faccessat
  faccessat_effective law = elim (Bool-cases (is_enosys (kernel.faccessat2 ids r at_eaccess))) [
    | inl b ↦ elim (Bool-cases ((ids.ruid == ids.euid) && (ids.rgid == ids.egid))) [
      | inl same ↦ rw (b, same, faccessat) (inl (same_ids same))
      | inr different ↦ rw (b, different, faccessat) by_helper-false
    ]
    | inr b ↦ elim (law ids r) [ inl e ↦ cc | inr e ↦ rw (b, faccessat) (inl e) ]
  ]

  -- On Android, where no id is changed, faccessat with AT_EACCESS gives what the check of the real ids
  -- gives, or EBUSY if the helper process cannot be run.
  pub faccessat_android :
      (faccessat kernel true ids h r at_eaccess ≡ kernel.check ids.ruid ids.rgid r)
      ⊎ (faccessat kernel true ids h r at_eaccess ≡ err ebusy)
  unfolding faccessat
  faccessat_android = elim (Bool-cases ((ids.ruid == ids.euid) && (ids.rgid == ids.egid))) [
    | inl same ↦ rw (same, faccessat) (inl refl)
    | inr different ↦ rw (different, faccessat) by_helper-true
  ]
