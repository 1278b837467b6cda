-- ===== src/Musl/Faccessat.antt =====
-- unistd/faccessat.c: faccessat with AT_EACCESS, by the newer system call or by a helper process that
-- takes the effective ids for its real ones.
pub mod Answers
use android_sdk_custom.Prelude.{
  ℕ, Option, none, some, Bool, true, false, ◌&&◌, ◌||◌, not, ◌==◌, if◌then◌else◌,
}

pub record Ids : Type 0 where
  pub ruid : ℕ
  pub euid : ℕ
  pub rgid : ℕ
  pub egid : ℕ

-- 0, or -1 with this errno.
pub data Result : Type 0 where
  ok : Result
  err : ℕ → Result

-- Linux's values of the constants.
abbrev pub at_eaccess : ℕ
at_eaccess = 0x200

abbrev pub ebusy : ℕ
ebusy = 16

abbrev pub einval : ℕ
einval = 22

abbrev pub enosys : ℕ
enosys = 38

abbrev pub is_enosys : Result → Bool
is_enosys ok = false
is_enosys (err e) = e == enosys

-- The kernel's check for a real user and group, and the newer system call; a request R is a
-- descriptor, a name and a mode.
pub record Kernel (R : Type 0) : Type 0 where
  pub check : ℕ → ℕ → R → Result
  pub faccessat2 : Ids → R → ℕ → Result

-- Which of the calls around the helper succeed.
pub record Helper : Type 0 where
  pub pipe : Bool
  pub clone : Bool
  pub setregid : Bool
  pub setreuid : Bool
  pub read : Bool

module _ {R : Type 0} (kernel : Kernel R) (is_android : Bool) (ids : Ids) where
  -- SYS_faccessat uses the real ids.
  abbrev pub faccessat_as : Ids → R → Result
  faccessat_as i r = kernel.check i.ruid i.rgid r

  -- What the helper writes to the pipe, if it comes to that.
  unfoldable pub checker : Helper → R → Option Result
  checker h r =
      let with_group : Ids = record ids { rgid = ids.egid } in
      let switched : Ids = record with_group { ruid = with_group.euid } in
      if is_android
      then some (faccessat_as ids r)
      else (if h.setregid && h.setreuid then some (faccessat_as switched r) else none)

  unfoldable pub by_helper : Helper → R → Result
  unfolding checker
  by_helper h r =
      if h.pipe
      then elim (checker h r) [
        | none ↦ err ebusy
        | some ret ↦ if h.clone && h.read then ret else err ebusy
      ]
      else err ebusy

  -- `flag & ~AT_EACCESS`
  abbrev pub has_other_flags : ℕ → Bool
  has_other_flags flag = not (flag == 0 || flag == at_eaccess)

  unfoldable pub faccessat : Helper → R → ℕ → Result
  unfolding by_helper
  faccessat h r flag =
      let newer = kernel.faccessat2 ids r flag in
      if (not is_android && not (flag == 0)) && not (is_enosys newer)
      then newer
      else if has_other_flags flag
      then err einval
      else if (flag == 0) || ((ids.ruid == ids.euid) && (ids.rgid == ids.egid))
      then faccessat_as ids r
      else by_helper h r
