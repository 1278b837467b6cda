-- ===== src/Strl/Append.antt =====
-- What strlcat leaves in the destination and returns.
use android_sdk_custom.Prelude.{
  IsText, ℕ, zero, suc, ◌+◌, ◌-◌, ◌≤◌, ◌<◌, ◌≡◌, refl, List, [], ◌∷◌, ◌++◌, some, arith, ==_ne,
  length, take, length-append,
}
use android_sdk_custom.Strl.{end_loop, strlen, append_loop, strlcat}
use android_sdk_custom.Strl.Copy.{copied, store-at, snoc, length-snoc}

append_loop-copied :
    (n : ℕ) (pre text rest mid : List ℕ)
    → IsText text
    → n < length mid
    → append_loop (text ++ 0 ∷ rest) n (pre ++ mid) (length pre)
      ≡ some (pre ++ copied text mid n, length text)
unfolding append_loop
append_loop-copied n pre text rest [] h lt = absurd (omega arith)
append_loop-copied zero pre [] rest (m ∷ mid) h lt = rw (store-at pre m mid 0)
append_loop-copied (suc n) pre [] rest (m ∷ mid) h lt = rw (store-at pre m mid 0)
append_loop-copied zero pre (c ∷ text) rest (m ∷ mid) h lt =
    rw (==_ne c 0 h.0, append_loop-copied zero pre text rest (m ∷ mid) h.1 lt)
append_loop-copied (suc n) pre (c ∷ text) rest (m ∷ mid) h lt = rw (
  store-at pre m mid c,
  ==_ne c 0 h.0,
  snoc pre c mid,
  snoc pre c (copied text mid n),
  ← length-snoc pre c,
  append_loop-copied n (pre ++ c ∷ []) text rest mid h.1 (omega arith),
)

end_loop-text :
    (n : ℕ) (text rest : List ℕ)
    → IsText text
    → length text < n
    → end_loop n (text ++ 0 ∷ rest) ≡ some (length text)
unfolding end_loop
end_loop-text zero text rest h lt = absurd (omega arith)
end_loop-text (suc n) [] rest h lt = refl
end_loop-text (suc n) (c ∷ text) rest h lt =
    rw (==_ne c 0 h.0, end_loop-text n text rest h.1 (omega arith))

end_loop-full :
    (n : ℕ) (dst : List ℕ) → IsText (take n dst) → n ≤ length dst → end_loop n dst ≡ some n
unfolding end_loop
end_loop-full zero dst h le = refl
end_loop-full (suc n) [] h le = absurd (omega arith)
end_loop-full (suc n) (c ∷ dst) h le = rw (==_ne c 0 h.0, end_loop-full n dst h.1 (omega arith))

strlen-text : (text rest : List ℕ) → IsText text → strlen (text ++ 0 ∷ rest) ≡ some (length text)
unfolding strlen
strlen-text [] rest h = refl
strlen-text (c ∷ text) rest h = rw (==_ne c 0 h.0, strlen-text text rest h.1)

module _ (text rest : List ℕ) (h : IsText text) where
  -- If dst holds a string whose terminator lies among its first dsize bytes, which the array has,
  -- strlcat keeps that string, puts behind it the longest prefix of src that leaves room for a
  -- terminator, and returns the sum of the two lengths; nothing behind the terminator changes.
  pub strlcat_lem :
      (pre tail : List ℕ) (dsize : ℕ)
      → IsText pre
      → length pre < dsize
      → dsize ≤ length (pre ++ 0 ∷ tail)
      → strlcat (pre ++ 0 ∷ tail) (text ++ 0 ∷ rest) dsize
        ≡ some (pre ++ copied text (0 ∷ tail) (dsize - length pre - 1), length pre + length text)
  unfolding strlcat
  strlcat_lem pre tail dsize p lt le = rw (
    end_loop-text dsize pre tail p lt,
    ==_ne (dsize - length pre) 0 (omega arith),
    append_loop-copied (dsize - length pre - 1) pre text rest (0 ∷ tail) h
        (omega (arith, length-append pre (0 ∷ tail))),
  )

  -- If none of the first dsize bytes of dst is a terminator, strlcat writes nothing and returns
  -- dsize plus the length of src.
  pub strlcat_full :
      (dst : List ℕ) (dsize : ℕ)
      → IsText (take dsize dst)
      → dsize ≤ length dst
      → strlcat dst (text ++ 0 ∷ rest) dsize ≡ some (dst, dsize + length text)
  unfolding strlcat
  strlcat_full dst dsize p le =
      rw (end_loop-full dsize dst p le, strlen-text text rest h) (ground arith)
