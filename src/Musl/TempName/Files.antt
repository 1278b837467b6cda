-- ===== src/Musl/TempName/Files.antt =====
-- What tmpfile and tmpnam leave and return.
use android_sdk_custom.Prelude.{
  IsText, ℕ, zero, suc, ◌+◌, ◌<◌, ◌≡◌, refl, ◌∙◌, List, ◌∷◌, ◌++◌, Option, some, none, arith, Bool,
  true, false, length, length-append, Option-cases, Bool-cases, inl, inr,
}
use android_sdk_custom.Musl.TempName.{
  System, cut, l_tmpnam, max_tries, tmpdir, candidate, tmpfile_middle, tmpnam_middle, file_of,
  tmpfile_loop, tmpfile, tmpnam_loop, tmpnam,
}
use android_sdk_custom.Musl.TempName.Names.{candidate_lem}

-- What is relied on of the system: the random bytes are six, none of them the terminator; only open
-- and unlink change which names there are.
pub record Laws {F : Type 0} (d : System F) : Type 0 where
  pub entries : F → List (List ℕ)
  pub six : (f : F) → length (d.random f).1 ≡ 6
  pub text : (f : F) → IsText (d.random f).1
  pub random_keeps : (f : F) → entries (d.random f).0 ≡ entries f
  pub opened :
      (f : F) (s : List ℕ) (fd : ℕ)
      → (d.open_excl f s).1 ≡ some fd
      → entries (d.open_excl f s).0 ≡ s ∷ entries f
  pub refused :
      (f : F) (s : List ℕ) → (d.open_excl f s).1 ≡ none → entries (d.open_excl f s).0 ≡ entries f
  pub unlinked :
      (f : F) (s : List ℕ) (names : List (List ℕ))
      → entries f ≡ s ∷ names
      → entries (d.unlink f s) ≡ names
  pub fdopen_keeps : (f : F) (fd : ℕ) → entries (d.fdopen f fd).0 ≡ entries f
  pub close_keeps : (f : F) (fd : ℕ) → entries (d.close f fd) ≡ entries f

tmpfile_middle-IsText : IsText tmpfile_middle
tmpfile_middle-IsText = (
  ground arith,
  (
    ground arith,
    (
      ground arith,
      (
        ground arith,
        (ground arith, (ground arith, (ground arith, (ground arith, (ground arith, tt))))),
      ),
    ),
  ),
)

tmpnam_middle-IsText : IsText tmpnam_middle
tmpnam_middle-IsText = (
  ground arith,
  (
    ground arith,
    (
      ground arith,
      (ground arith, (ground arith, (ground arith, (ground arith, (ground arith, tt))))),
    ),
  ),
)

module _ {F : Type 0} (d : System F) (laws : Laws d) (buffer : List ℕ) where
  file_of-entries :
      (fd : ℕ) (r : F × Bool) → laws.entries (file_of d buffer fd r).0 ≡ laws.entries r.0
  file_of-entries fd (f, true) = refl
  file_of-entries fd (f, false) = laws.close_keeps f fd

  -- A result, with the same names as before.
  abbrev Clean : F → Option (F × Option ℕ) → Type 0
  Clean f o = (r : F × Option ℕ) × (o ≡ some r) × (laws.entries r.0 ≡ laws.entries f)

  tmpfile_loop-Clean :
      (n : ℕ) (dir : List ℕ) (f : F)
      → IsText dir
      → length dir + 15 < length buffer
      → Clean f (tmpfile_loop d buffer n dir f)
  unfolding tmpfile_loop
  tmpfile_loop-Clean zero dir f t h = ((f, none), refl, refl)
  tmpfile_loop-Clean (suc n) dir f t h =
      let g = (d.random f).0 in
      let r = (d.random f).1 in
      let s = (dir ++ tmpfile_middle) ++ r in
      let tried : candidate buffer dir (tmpfile_middle) r ≡ some s =
        candidate_lem buffer dir (tmpfile_middle) r t tmpfile_middle-IsText (laws.text f)
          (laws.six f) (omega arith) in
      elim (Option-cases (d.open_excl g s).1) [
        | inl e ↦
            let (x, q, c) = tmpfile_loop-Clean n dir (d.open_excl g s).0 t h in
            (x, rw (tried, e, tmpfile_loop) q, c ∙ laws.refused g s e ∙ laws.random_keeps f)
        | inr (fd, e) ↦
            let u = d.unlink (d.open_excl g s).0 s in
            (
              file_of d buffer fd (d.fdopen u fd),
              rw (tried, e, tmpfile_loop) refl,
              file_of-entries fd (d.fdopen u fd)
                  ∙ laws.fdopen_keeps u fd
                  ∙ laws.unlinked (d.open_excl g s).0 s (laws.entries g) (laws.opened g s fd e)
                  ∙ laws.random_keeps f,
            )
      ]

  -- On a system whose file names change only by open and unlink, and with a $TMPDIR (or /tmp) that
  -- leaves room in the local buffer, tmpfile has a result after at most 100 tries, touches nothing
  -- outside of the buffer, and leaves the names of files as they were: the file it returns has none.
  pub tmpfile_lem :
      (env : Option (List ℕ)) (f : F)
      → IsText (tmpdir env)
      → length (tmpdir env) + 15 < length buffer
      → (r : F × Option ℕ) × (tmpfile d buffer env f ≡ some r) × (laws.entries r.0 ≡ laws.entries f)
  unfolding tmpfile
  tmpfile_lem env f t h = tmpfile_loop-Clean max_tries (tmpdir env) f t h

  -- Null, or a name that is cut from one that was absent.
  abbrev pub Named : ℕ → F × Option (List ℕ) → Type 0
  Named size (g, none) = Unit {0}
  Named size (g, some name) =
      (s : List ℕ) × (d.is_absent g s ≡ true) × (length s ≡ size) × (name ≡ cut l_tmpnam s)

  tmpnam_loop-Named :
      (n : ℕ) (dir : List ℕ) (f : F)
      → IsText dir
      → length dir + 14 < length buffer
      → (r : F × Option (List ℕ)) × (tmpnam_loop d buffer n dir f ≡ some r)
        × Named (length dir + 14) r
  unfolding tmpnam_loop
  tmpnam_loop-Named zero dir f t h = ((f, none), refl, tt)
  tmpnam_loop-Named (suc n) dir f t h =
      let g = (d.random f).0 in
      let r = (d.random f).1 in
      let s = (dir ++ tmpnam_middle) ++ r in
      let tried : candidate buffer dir tmpnam_middle r ≡ some s =
        candidate_lem buffer dir tmpnam_middle r t tmpnam_middle-IsText (laws.text f) (laws.six f)
          (omega arith) in
      let size : length s ≡ length dir + 14 = omega (
        arith,
        length-append (dir ++ tmpnam_middle) r,
        length-append dir tmpnam_middle,
        laws.six f,
      ) in
      elim (Bool-cases (d.is_absent g s)) [
        | inl e ↦ ((g, some (cut l_tmpnam s)), rw (tried, e, tmpnam_loop) refl, (s, e, size, refl))
        | inr e ↦
            let (x, q, c) = tmpnam_loop-Named n dir g t h in (x, rw (tried, e, tmpnam_loop) q, c)
      ]

  -- With a $TMPDIR (or /tmp) that leaves room in the local buffer, tmpnam has a result after at most
  -- 100 tries. It is null, or the first 19 bytes of a name that was absent, which is 14 bytes longer
  -- than the directory: the whole name only if the directory has five bytes at most.
  pub tmpnam_lem :
      (env : Option (List ℕ)) (f : F)
      → IsText (tmpdir env)
      → length (tmpdir env) + 14 < length buffer
      → (r : F × Option (List ℕ)) × (tmpnam d buffer env f ≡ some r)
        × Named (length (tmpdir env) + 14) r
  unfolding tmpnam
  tmpnam_lem env f t h = tmpnam_loop-Named max_tries (tmpdir env) f t h
