-- ===== src/Examples/Mounts.antt =====
-- The option `ro` behind `errors=remount-ro`.
use android_sdk_custom.Prelude.{◌+◌, ◌≡◌, refl, ℕ, List, [], ◌∷◌, some, length}
use android_sdk_custom.HostCompat.Mount.{strstr, strchr, option_loop, hasmntopt}
use android_sdk_custom.HostCompat.Search.{first}
use android_sdk_custom.HostCompat.MountFirst.{fits, hasmntopt_lem}

abbrev options : List ℕ
options = b'e' ∷ b'=' ∷ b'r' ∷ b'o' ∷ b',' ∷ b'r' ∷ b'o' ∷ b'x' ∷ b',' ∷ b'r' ∷ b'o' ∷ []

abbrev ro : List ℕ
ro = b'r' ∷ b'o' ∷ []

hasmntopt_test : hasmntopt options ro ≡ some (some 9)
unfolding hasmntopt option_loop strstr strchr
hasmntopt_test = refl

hasmntopt_lem_example : hasmntopt options ro ≡ some (first (fits options ro) 0 (length options + 1))
hasmntopt_lem_example = hasmntopt_lem options ro
