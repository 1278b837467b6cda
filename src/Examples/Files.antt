-- ===== src/Examples/Files.antt =====
-- A system on which every name is free, and a process with an effective id of its own.
use android_sdk_custom.Prelude.{
  ◌≡◌, refl, ℕ, List, [], ◌∷◌, ◌⊎◌, inl, Option, some, none, true, false, arith, ◌==◌,
  if◌then◌else◌, replicate, drop, IsText,
}
use android_sdk_custom.Musl.ResolvConf.{codes}
use android_sdk_custom.Musl.TempName.{System, candidate, tmpfile, tmpnam, tmpdir, tmpfile_middle}
use android_sdk_custom.Musl.TempName.Names.{candidate_overflow}
use android_sdk_custom.Musl.TempName.Files.{Laws, Named, tmpfile_lem, tmpnam_lem}
use android_sdk_custom.Musl.Faccessat.{Ids, ok, err, at_eaccess, ebusy, Kernel, Helper, faccessat}
use android_sdk_custom.Musl.Faccessat.Answers.{ChecksEffective, runs, faccessat_effective}

abbrev six_bytes : List ℕ
six_bytes = codes "AbCdEf"

-- The state is the list of names, the newest first.
abbrev system : System (List (List ℕ))
system = record {
  random = λ f. (f, six_bytes);
  open_excl = λ f s. (s ∷ f, some 3);
  unlink = λ f s. drop 1 f;
  fdopen = λ f fd. (f, true);
  close = λ f fd. f;
  is_absent = λ f s. true;
}

six_bytes-IsText : IsText six_bytes
six_bytes-IsText = (
  ground arith,
  (ground arith, (ground arith, (ground arith, (ground arith, (ground arith, tt))))),
)

tmp-IsText : IsText (codes "/tmp")
tmp-IsText = (ground arith, (ground arith, (ground arith, (ground arith, tt))))

system-Laws : Laws system
system-Laws = record {
  entries = λ f. f;
  six = λ f. refl;
  text = λ f. six_bytes-IsText;
  random_keeps = λ f. refl;
  opened = λ f s fd e. refl;
  refused = λ f s e. cc;
  unlinked = λ f s names e. rw e;
  fdopen_keeps = λ f fd. refl;
  close_keeps = λ f fd. refl;
}

abbrev a_buffer : List ℕ
a_buffer = replicate 256 1

tmpfile_lem_example :
    (r : List (List ℕ) × Option ℕ) × (tmpfile system a_buffer none [] ≡ some r)
    × (system-Laws.entries r.0 ≡ system-Laws.entries [])
unfolding tmpdir
tmpfile_lem_example = tmpfile_lem system system-Laws a_buffer none [] tmp-IsText (omega arith)

tmpnam_lem_example :
    (r : List (List ℕ) × Option (List ℕ)) × (tmpnam system a_buffer none [] ≡ some r)
    × Named system system-Laws a_buffer 18 r
unfolding tmpdir
tmpnam_lem_example = tmpnam_lem system system-Laws a_buffer none [] tmp-IsText (omega arith)

candidate_overflow_example : candidate a_buffer (replicate 242 97) tmpfile_middle six_bytes ≡ none
candidate_overflow_example =
    candidate_overflow a_buffer (replicate 242 97) tmpfile_middle six_bytes refl (omega arith)

-- Only user 0 has access, and the newer call is missing.
abbrev old_kernel : Kernel (Unit {0})
old_kernel = record {
  check = λ u g r. if u == 0 then ok else err 13;
  faccessat2 = λ ids r flag. err 38;
}

abbrev setuid_root : Ids
setuid_root = record { ruid = 1000; euid = 0; rgid = 100; egid = 100 }

abbrev all_succeed : Helper
all_succeed = record { pipe = true; clone = true; setregid = true; setreuid = true; read = true }

old_kernel-ChecksEffective : ChecksEffective old_kernel
old_kernel-ChecksEffective ids r = inl refl

faccessat_effective_example :
    (faccessat old_kernel false setuid_root all_succeed tt at_eaccess ≡ ok)
    ⊎ ((faccessat old_kernel false setuid_root all_succeed tt at_eaccess ≡ err ebusy)
        × (runs all_succeed ≡ false))
faccessat_effective_example =
    faccessat_effective old_kernel setuid_root all_succeed tt old_kernel-ChecksEffective
