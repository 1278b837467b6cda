-- ===== src/Examples/Resolver.antt =====
-- A resolv.conf with a large ndots and one name server.
use android_sdk_custom.Prelude.{◌≡◌, refl, ℕ, List, [], ◌∷◌, ◌⊎◌, Option, false, arith, some, none}
use android_sdk_custom.Musl.ResolvConf.{codes, Conf, contents, get_resolv_conf}
use android_sdk_custom.Musl.ResolvConf.Bounds.{Complete, Refused, get_resolv_conf_lem}

-- Every literal is an address.
abbrev any_literal : List ℕ → Option (List ℕ)
any_literal s = some s

abbrev conf_bytes : List ℕ
conf_bytes = codes "options ndots:99\nnameserver ::1\n"

get_resolv_conf_test :
    get_resolv_conf any_literal 18446744073709551615 256 40 false false (contents conf_bytes)
    ≡ some (
        some (record {
          ndots = 15;
          timeout = 5;
          attempts = 2;
          ns = some (codes "::1") ∷ [];
          search_list = none;
        }))
unfolding get_resolv_conf
get_resolv_conf_test = refl

get_resolv_conf_lem_example :
    ((get_resolv_conf any_literal 18446744073709551615 256 40 false false (contents conf_bytes)
        ≡ some none)
      × Refused false (contents conf_bytes))
    ⊎ ((c : Conf (List ℕ)) × (get_resolv_conf any_literal 18446744073709551615 256 40 false false
            (contents conf_bytes)
          ≡ some (some c))
        × Complete c
        × ¬ Refused false (contents conf_bytes))
get_resolv_conf_lem_example =
    get_resolv_conf_lem any_literal 18446744073709551615 256 40 false false (contents conf_bytes)
      (omega arith)
