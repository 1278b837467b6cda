-- ===== src/Strl/Copy.antt =====
-- What strlcpy leaves in the destination and returns.
use android_sdk_custom.Prelude.{
  IsText, ℕ, zero, suc, ◌+◌, ◌<◌, ◌≡◌, ◌≢◌, refl, sym, ◌∙◌, get_elem?, List, [], ◌∷◌, ◌++◌, some,
  arith, ◌>>=◌, ==_ne, ◌==◌, if◌then◌else◌, ◌-◌, ◌≤◌, length, take, drop, append_assoc,
  length-append, get_elem?-append, set-append, drop-append,
}
use android_sdk_custom.Strl.{store, copy_loop, skip_loop, finish, strlcpy}

pub store-at :
    (pre : List ℕ) (x : ℕ) (ys : List ℕ) (v : ℕ)
    → store (pre ++ x ∷ ys) (length pre) v ≡ some (pre ++ v ∷ ys)
unfolding store
store-at pre x ys v = ground (arith, length-append pre (x ∷ ys), set-append pre x ys v)

skip_loop-length :
    (s : ℕ) (text rest : List ℕ)
    → IsText text
    → skip_loop s (text ++ 0 ∷ rest) ≡ some (s + length text + 1)
unfolding skip_loop
skip_loop-length s [] rest h = ground arith
skip_loop-length s (c ∷ cs) rest h = ground (arith, skip_loop-length (s + 1) cs rest h.1)

pub snoc {ℓ} :
    {A : Type ℓ} (pre : List A) (c : A) (ys : List A) → pre ++ c ∷ ys ≡ (pre ++ c ∷ []) ++ ys
snoc pre c ys = sym (append_assoc pre (c ∷ []) ys)

pub length-snoc {ℓ} : {A : Type ℓ} (pre : List A) (c : A) → length (pre ++ c ∷ []) ≡ length pre + 1
length-snoc pre c = length-append pre (c ∷ [])

shift : (a b : ℕ) → a + suc b ≡ a + 1 + b
shift a b = omega arith

abbrev pub copied : List ℕ → List ℕ → ℕ → List ℕ
copied text mid n = take n text ++ 0 ∷ drop (suc (length (take n text))) mid

copy_loop-finish :
    (n dsize : ℕ) (src pre text rest mid : List ℕ)
    → src ≡ pre ++ (text ++ 0 ∷ rest)
    → IsText text
    → n < length mid
    → dsize ≢ 0
    → (copy_loop src (suc n) (pre ++ mid) (length pre) (length pre) >>= finish src dsize)
      ≡ some (pre ++ copied text mid n, length pre + length text)
unfolding copy_loop finish
copy_loop-finish n dsize src pre text rest [] e h lt ne = absurd (omega arith)
copy_loop-finish zero dsize src pre text rest (m ∷ mid) e h lt ne =
    rw
      (
        ==_ne dsize 0 ne,
        store-at pre m mid 0,
        e,
        drop-append pre (text ++ 0 ∷ rest),
        skip_loop-length (length pre) text rest h,
      )
      (ground arith)
copy_loop-finish (suc n) dsize src pre [] rest (m ∷ mid) e h lt ne =
    rw (e, get_elem?-append pre 0 rest, store-at pre m mid 0) (ground arith)
copy_loop-finish (suc n) dsize src pre (c ∷ text) rest (m ∷ mid) e h lt ne =
    let read : get_elem? src (length pre) ≡ some c =
      rw e (get_elem?-append pre c (text ++ 0 ∷ rest)) in
    rw
      (
        read,
        store-at pre m mid c,
        ==_ne c 0 h.0,
        snoc pre c mid,
        snoc pre c (copied text mid n),
        ← length-snoc pre c,
        shift (length pre) (length text),
        ← length-snoc pre c,
      )
      (copy_loop-finish n dsize src (pre ++ c ∷ []) text rest mid
        (e ∙ snoc pre c (text ++ 0 ∷ rest)) h.1 (omega arith) ne)

-- For a string that stands in src before its terminator, and a destination of at least dsize
-- bytes, strlcpy returns the length of the string. With dsize 0 it writes nothing; otherwise it
-- writes the longest prefix of the string that fits, a terminator behind it, and nothing else.
pub strlcpy_lem :
    (dst text rest : List ℕ) (dsize : ℕ)
    → IsText text
    → dsize ≤ length dst
    → strlcpy dst (text ++ 0 ∷ rest) dsize
      ≡ some (if dsize == 0 then dst else copied text dst (dsize - 1), length text)
unfolding strlcpy
strlcpy_lem dst text rest zero h le =
    rw (skip_loop-length 0 text rest h, finish, copy_loop) (ground arith)
strlcpy_lem dst text rest (suc n) h le =
    rw (copy_loop-finish n (suc n) (text ++ 0 ∷ rest) [] text rest dst refl h le (λ e. cc))
      (ground arith)
