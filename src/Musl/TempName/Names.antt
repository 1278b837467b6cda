-- ===== src/Musl/TempName/Names.antt =====
-- Which names are tried, and when the local buffer is left.
use android_sdk_custom.Prelude.{
  IsText, Option-cases, inl, inr, ℕ, zero, suc, ◌+◌, ◌-◌, ◌≤◌, ◌<◌, ◌≡◌, refl, List, [], ◌∷◌, ◌++◌,
  some, none, arith, length, take, drop, length-append, ==_ne, append_assoc,
}
use android_sdk_custom.Musl.ResolvConf.{codes}
use android_sdk_custom.Musl.TempName.{put, cut, c_string, candidate}

c_string-text : (text rest : List ℕ) → IsText text → c_string (text ++ 0 ∷ rest) ≡ some text
unfolding c_string
c_string-text [] rest h = refl
c_string-text (c ∷ cs) rest h = rw (==_ne c 0 h.0, c_string-text cs rest h.1)

c_string_of_text : (text : List ℕ) → IsText text → c_string text ≡ none
unfolding c_string
c_string_of_text [] h = refl
c_string_of_text (c ∷ cs) h = rw (==_ne c 0 h.0, c_string_of_text cs h.1)

IsText-append : (xs ys : List ℕ) → IsText xs → IsText ys → IsText (xs ++ ys)
IsText-append [] ys h k = k
IsText-append (x ∷ xs) ys h k = (h.0, IsText-append xs ys h.1 k)

-- Overwriting the middle of a buffer.
put-append :
    (pre old rest bytes : List ℕ)
    → length old ≡ length bytes
    → put (length pre) bytes (pre ++ (old ++ rest)) ≡ some (pre ++ (bytes ++ rest))
unfolding put
put-append [] [] rest [] h = refl
put-append [] [] rest (b ∷ bytes) h = absurd (omega arith)
put-append [] (x ∷ old) rest [] h = absurd (omega arith)
put-append [] (x ∷ old) rest (b ∷ bytes) h = rw (put-append [] old rest bytes (omega arith))
put-append (p ∷ pre) old rest bytes h = rw (put-append pre old rest bytes h)

put_start :
    (bytes m : List ℕ)
    → length bytes ≤ length m
    → put 0 bytes m ≡ some (bytes ++ drop (length bytes) m)
unfolding put
put_start [] m h = refl
put_start (b ∷ bytes) [] h = absurd (omega arith)
put_start (b ∷ bytes) (c ∷ m) h = rw (put_start bytes m (omega arith))

put_behind : (i : ℕ) (bytes m : List ℕ) → length m < i + length bytes → put i bytes m ≡ none
unfolding put
put_behind zero [] m h = absurd (omega arith)
put_behind zero (b ∷ bytes) [] h = refl
put_behind zero (b ∷ bytes) (c ∷ m) h = rw (put_behind zero bytes m (omega arith))
put_behind (suc i) bytes [] h = refl
put_behind (suc i) bytes (c ∷ m) h = rw (put_behind i bytes m (omega arith))

take_whole : (xs : List ℕ) (n : ℕ) → length xs ≤ n → take n xs ≡ xs
take_whole [] zero le = refl
take_whole [] (suc n) le = refl
take_whole (x ∷ xs) zero le = absurd (omega arith)
take_whole (x ∷ xs) (suc n) le = rw (take_whole xs n (omega arith))

abbrev xs6 : List ℕ
xs6 = codes "XXXXXX"

-- The buffer after snprintf of a prefix and six X that fit.
written : List ℕ → List ℕ → List ℕ
written pre buffer = pre ++ (xs6 ++ (0 ∷ drop (length pre + 7) buffer))

snprintf-written :
    (pre buffer : List ℕ)
    → length pre + 6 < length buffer
    → put 0 (cut (length buffer) (pre ++ xs6) ++ 0 ∷ []) buffer ≡ some (written pre buffer)
unfolding written
snprintf-written pre buffer h =
    let size : length (pre ++ xs6) ≡ length pre + 6 = length-append pre xs6 in
    let all : length ((pre ++ xs6) ++ 0 ∷ []) ≡ length pre + 7 =
      omega (arith, length-append (pre ++ xs6) (0 ∷ []), size) in
    rw (
      take_whole (pre ++ xs6) (length buffer - 1) (omega (arith, size)),
      put_start ((pre ++ xs6) ++ 0 ∷ []) buffer (omega (arith, all)),
      all,
      append_assoc (pre ++ xs6) (0 ∷ []) (drop (length pre + 7) buffer),
      append_assoc pre xs6 (0 ∷ drop (length pre + 7) buffer),
    )

-- If the directory leaves room for the middle, six random bytes and a terminator, the name that is
-- tried is the directory, the middle and the random bytes, and no byte outside of the buffer is
-- touched. If the random bytes do not fit, they are written behind the end of the buffer.
pub candidate_lem :
    (buffer dir middle random : List ℕ)
    → IsText dir
    → IsText middle
    → IsText random
    → length random ≡ 6
    → length dir + length middle + 6 < length buffer
    → candidate buffer dir middle random ≡ some ((dir ++ middle) ++ random)
unfolding candidate written
candidate_lem buffer dir middle random t u v six h =
    let pre = dir ++ middle in
    let size : length (dir ++ middle) ≡ length dir + length middle = length-append dir middle in
    rw (
      ← append_assoc dir middle xs6,
      snprintf-written (dir ++ middle) buffer (omega (arith, size)),
      ← size,
      put-append (dir ++ middle) xs6 (0 ∷ drop (length (dir ++ middle) + 7) buffer) random
          (omega (arith, six)),
      ← append_assoc (dir ++ middle) random (0 ∷ drop (length (dir ++ middle) + 7) buffer),
      c_string-text ((dir ++ middle) ++ random) (drop (length (dir ++ middle) + 7) buffer)
          (IsText-append (dir ++ middle) random (IsText-append dir middle t u) v),
    )

put-length : (i : ℕ) (bytes m r : List ℕ) → put i bytes m ≡ some r → length r ≡ length m
unfolding put
put-length zero [] m r h = let q : m ≡ r = cc in rw q
put-length zero (b ∷ bytes) [] r h = cc
put-length zero (b ∷ bytes) (c ∷ m) r h = elim (Option-cases (put zero bytes m)) [
  | inl n ↦ cc
  | inr (s, n) ↦ ground (arith, put-length zero bytes m s n)
]
put-length (suc i) bytes [] r h = cc
put-length (suc i) bytes (c ∷ m) r h = elim (Option-cases (put i bytes m)) [
  | inl n ↦ cc
  | inr (s, n) ↦ ground (arith, put-length i bytes m s n)
]

-- If the directory, the middle and six random bytes are longer than the buffer, __randname writes
-- behind the buffer's end, whatever the bytes are.
pub candidate_overflow :
    (buffer dir middle random : List ℕ)
    → length random ≡ 6
    → length buffer < length dir + length middle + 6
    → candidate buffer dir middle random ≡ none
unfolding candidate
candidate_overflow buffer dir middle random six h =
    let text = cut (length buffer) (dir ++ (middle ++ xs6)) ++ 0 ∷ [] in
    elim (Option-cases (put 0 text buffer)) [
      | inl n ↦ rw (n, candidate)
      | inr (s, n) ↦
          let size = put-length 0 text buffer s n in
          rw (
            n,
            candidate,
            put_behind (length dir + length middle) random s (omega (arith, size, six)),
          )
    ]
