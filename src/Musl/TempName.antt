-- ===== src/Musl/TempName.antt =====
-- stdio/tmpfile.c and stdio/tmpnam.c: names under $TMPDIR, tried up to 100 times. The local buffer is
-- a list of bytes and a pointer into it an index; an access outside of it gives no result.
pub mod Names
pub mod Files
use android_sdk_custom.Prelude.{
  ℕ, zero, suc, ◌+◌, ◌-◌, List, [], ◌∷◌, ◌++◌, Option, none, some, Bool, true, false, leb, ◌==◌,
  if◌then◌else◌, take, drop, length, ◌>>=◌,
}
use android_sdk_custom.Musl.ResolvConf.{codes}

abbrev pub max_tries : ℕ
max_tries = 100

abbrev pub l_tmpnam : ℕ
l_tmpnam = 20

-- `getenv("TMPDIR")`, or /tmp if it is not set or empty.
unfoldable pub tmpdir : Option (List ℕ) → List ℕ
tmpdir none = codes "/tmp"
tmpdir (some []) = codes "/tmp"
tmpdir (some (c ∷ cs)) = c ∷ cs

-- Bytes written from index i on.
unfoldable pub put : ℕ → List ℕ → List ℕ → Option (List ℕ)
put zero [] m = some m
put zero (b ∷ bytes) [] = none
put zero (b ∷ bytes) (c ∷ m) = put zero bytes m >>= λ r. some (b ∷ r)
put (suc i) bytes [] = none
put (suc i) bytes (c ∷ m) = put i bytes m >>= λ r. some (c ∷ r)

-- What snprintf leaves of a text where there is room for n bytes.
abbrev pub cut : ℕ → List ℕ → List ℕ
cut n text = take (n - 1) text

-- The C string at the start of a buffer.
unfoldable pub c_string : List ℕ → Option (List ℕ)
c_string [] = none
c_string (c ∷ cs) = let rest = c_string cs in if c == 0 then some [] else rest >>= λ s. some (c ∷ s)

-- `snprintf(s, sizeof s, "%s" middle "XXXXXX", tmpdir)` into the buffer, and `__randname` with these
-- random bytes behind the middle.
unfoldable pub candidate : List ℕ → List ℕ → List ℕ → List ℕ → Option (List ℕ)
unfolding put c_string
candidate buffer dir middle random =
    put 0 (cut (length buffer) (dir ++ (middle ++ codes "XXXXXX")) ++ 0 ∷ []) buffer >>= λ s.
    put (length dir + length middle) random s >>= c_string

-- The system, on a state of its own: __randname's bytes, open with O_CREAT and O_EXCL, unlink, close,
-- __fdopen (false without memory), and whether readlink fails with ENOENT.
pub record System (F : Type 0) : Type 0 where
  pub random : F → F × List ℕ
  pub open_excl : F → List ℕ → F × Option ℕ
  pub unlink : F → List ℕ → F
  pub fdopen : F → ℕ → F × Bool
  pub close : F → ℕ → F
  pub is_absent : F → List ℕ → Bool

abbrev pub tmpfile_middle : List ℕ
tmpfile_middle = codes "/tmpfile_"

abbrev pub tmpnam_middle : List ℕ
tmpnam_middle = codes "/tmpnam_"

module _ {F : Type 0} (d : System F) (buffer : List ℕ) where
  abbrev pub file_of : ℕ → F × Bool → F × Option ℕ
  file_of fd (f, true) = (f, some fd)
  file_of fd (f, false) = (d.close f fd, none)

  -- The tries that are left; the file, or null.
  unfoldable pub tmpfile_loop : ℕ → List ℕ → F → Option (F × Option ℕ)
  unfolding candidate
  tmpfile_loop zero dir f = some (f, none)
  tmpfile_loop (suc n) dir f =
      let (g, r) = d.random f in
      candidate buffer dir tmpfile_middle r >>= λ s.
      let (h, fd) = d.open_excl g s in
      let again = tmpfile_loop n dir h in
      elim fd [ none ↦ again | some fd ↦ some (file_of fd (d.fdopen (d.unlink h s) fd)) ]

  unfoldable pub tmpfile : Option (List ℕ) → F → Option (F × Option ℕ)
  unfolding tmpfile_loop tmpdir
  tmpfile env f = tmpfile_loop max_tries (tmpdir env) f

  -- The name that is written to the caller's buffer (or the static one), or null.
  unfoldable pub tmpnam_loop : ℕ → List ℕ → F → Option (F × Option (List ℕ))
  unfolding candidate
  tmpnam_loop zero dir f = some (f, none)
  tmpnam_loop (suc n) dir f =
      let (g, r) = d.random f in
      let again = tmpnam_loop n dir g in
      candidate buffer dir tmpnam_middle r >>= λ s.
      if d.is_absent g s then some (g, some (cut l_tmpnam s)) else again

  unfoldable pub tmpnam : Option (List ℕ) → F → Option (F × Option (List ℕ))
  unfolding tmpnam_loop tmpdir
  tmpnam env f = tmpnam_loop max_tries (tmpdir env) f
