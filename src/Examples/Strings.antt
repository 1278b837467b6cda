-- ===== src/Examples/Strings.antt =====
-- strlcpy and strlcat on short strings.
use android_sdk_custom.Prelude.{IsText, ◌≡◌, ℕ, List, [], ◌∷◌, some, arith}
use android_sdk_custom.Strl.{strlcpy, strlcat}
use android_sdk_custom.Strl.Copy.{strlcpy_lem}
use android_sdk_custom.Strl.Append.{strlcat_lem}

abbrev hello : List ℕ
hello = b'h' ∷ b'e' ∷ b'y' ∷ []

hello-IsText : IsText hello
hello-IsText = (ground arith, (ground arith, (ground arith, tt)))

abbrev buffer : List ℕ
buffer = 7 ∷ 7 ∷ 7 ∷ 7 ∷ 7 ∷ []

-- A copy into three of five bytes is cut short.
strlcpy_lem_example :
    strlcpy buffer (b'h' ∷ b'e' ∷ b'y' ∷ 0 ∷ 9 ∷ []) 3 ≡ some (b'h' ∷ b'e' ∷ 0 ∷ 7 ∷ 7 ∷ [], 3)
strlcpy_lem_example = strlcpy_lem buffer hello (9 ∷ []) 3 hello-IsText (omega arith)

-- Two bytes are appended to a string of one.
strlcat_lem_example :
    strlcat (b'a' ∷ 0 ∷ 7 ∷ 7 ∷ 7 ∷ []) (b'h' ∷ b'e' ∷ b'y' ∷ 0 ∷ []) 4
    ≡ some (b'a' ∷ b'h' ∷ b'e' ∷ 0 ∷ 7 ∷ [], 4)
strlcat_lem_example =
    strlcat_lem hello [] hello-IsText (b'a' ∷ []) (7 ∷ 7 ∷ 7 ∷ []) 4 (ground arith, tt)
      (omega arith) (omega arith)
