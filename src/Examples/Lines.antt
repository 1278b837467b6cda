-- ===== src/Examples/Lines.antt =====
-- A getline that has to allocate its buffer.
use android_sdk_custom.Prelude.{◌≡◌, refl, ℕ, List, [], ◌∷◌, Option, some, none, replicate}
use android_sdk_custom.Strl.{store}
use android_sdk_custom.HostCompat.{Buffer, first_buffer, getline}
use android_sdk_custom.HostCompat.Lines.{Extends, Got, getline_lem}

abbrev allocate : ℕ → Option (List ℕ)
allocate n = some (replicate n 7)

-- No buffer can grow.
abbrev reallocate : List ℕ → ℕ → Option (List ℕ)
reallocate m n = none

reallocate-Extends : Extends reallocate
reallocate-Extends m grown n e = cc

abbrev small : Buffer
small = record { bytes = 7 ∷ 7 ∷ 7 ∷ 7 ∷ []; n = 4 }

getline_test :
    getline reallocate allocate (some small) (b'a' ∷ b'\n' ∷ b'b' ∷ [])
    ≡ some (some (record { bytes = b'a' ∷ b'\n' ∷ 0 ∷ 7 ∷ []; n = 4 }), b'b' ∷ [], some 2)
unfolding getline first_buffer store
getline_test = refl

getline_lem_example :
    (r : Buffer × List ℕ × Option ℕ) × (getline reallocate allocate
        (some small)
        (b'a' ∷ b'\n' ∷ b'b' ∷ [])
      ≡ some (some r.0, r.1, r.2))
    × Got reallocate reallocate-Extends (b'a' ∷ b'\n' ∷ b'b' ∷ []) r
unfolding first_buffer
getline_lem_example =
    getline_lem reallocate reallocate-Extends allocate (some small) (b'a' ∷ b'\n' ∷ b'b' ∷ []) small
      7 (7 ∷ 7 ∷ 7 ∷ []) refl refl refl
