-- ===== src/Interfaces/Masks.antt =====
-- When GetAllInterfaces returns.
use mathlib.Core.Path.{subst}
use android_sdk_custom.Interfaces.{
  IfAddr, Sockaddr, link, inet6, inet, other_family, InterfaceInfo, InterfaceType, IpAddress,
  System, known, with_prefix, type_of, fresh, with_flags, addressed, added, running_step,
  interfaces_loop, get_all_interfaces, mask4, mask6, v4, v6,
}
use android_sdk_custom.Interfaces.Prefix.{
  Run, value, aborted, exhausted, and_then, to_prefix_length,
}
use android_sdk_custom.Interfaces.Bits.{mask_bits, counted, IsBytes}
use android_sdk_custom.Interfaces.Mask.{to_prefix_length_lem}
use android_sdk_custom.Prelude.{
  branches, ℕ, ◌*◌, ◌-◌, ◌<◌, ◌≡◌, refl, sym, ◌∙◌, List, [], ◌∷◌, ◌++◌, Option, none, some, Bool,
  true, false, All, length, take,
}

-- A netmask's bytes: ones, then zeros.
pub record IsMask (bytes : List ℕ) : Type 0 where
  pub are_bytes : IsBytes bytes
  pub short : 8 * length bytes < 256
  pub prefix : ℕ
  pub ones : counted 0 (mask_bits bytes) ≡ value prefix

abbrev pub HasMasks : IfAddr → Type 0
HasMasks cur = IsMask (mask6 cur.netmask) × IsMask (mask4 cur.netmask)

abbrev Returns : Run (List InterfaceInfo) → Type 0
Returns (value is) = Unit {0}
Returns aborted = ⊥
Returns exhausted = ⊥

returned : (r : Run (List InterfaceInfo)) → Returns r → (is : List InterfaceInfo) × (r ≡ value is)
returned (value is) h = (is, refl)
returned aborted h = elim h [ ]
returned exhausted h = elim h [ ]

with_prefix-Returns :
    (is : List InterfaceInfo) (name : List ℕ) (ip : IpAddress) (bytes : List ℕ)
    → IsMask bytes
    → Returns (with_prefix is name ip (to_prefix_length bytes))
with_prefix-Returns is name ip bytes m =
    let e = to_prefix_length_lem bytes m.are_bytes m.short ∙ m.ones in
    subst (λ r. Returns (with_prefix is name ip r)) (sym e) tt

module _ (sys : System) where
  with_flags-Returns :
      (is : List InterfaceInfo) (cur : IfAddr) (bytes : List ℕ) (o : Option Bool)
      → HasMasks cur
      → Returns (with_flags sys is cur bytes o)
  with_flags-Returns is cur bytes none m = tt
  with_flags-Returns is cur bytes (some true) m = tt
  with_flags-Returns is cur bytes (some false) m =
      with_prefix-Returns is cur.name (v6 bytes) (mask6 cur.netmask) m.0

  addressed-Returns :
      (is : List InterfaceInfo) (cur : IfAddr) (a : Sockaddr)
      → HasMasks cur
      → Returns (addressed sys is cur a)
  addressed-Returns is cur (link bytes) m = tt
  addressed-Returns is cur (inet6 bytes) m =
      with_flags-Returns is cur bytes
        (sys.deprecated6 (take (sys.ifr_name_size - 1) cur.name) bytes) m
  addressed-Returns is cur (inet bytes) m =
      with_prefix-Returns is cur.name (v4 bytes) (mask4 cur.netmask) m.1
  addressed-Returns is cur other_family m = tt

  added-Returns :
      (is : List InterfaceInfo) (cur : IfAddr) (a : Sockaddr) (o : Option InterfaceType)
      → HasMasks cur
      → Returns (added sys is cur a o)
  added-Returns is cur a none m = tt
  added-Returns is cur a (some t) m = addressed-Returns (is ++ (fresh sys cur t ∷ [])) cur a m

  running_step-Returns :
      (is : List InterfaceInfo) (cur : IfAddr) (b : Bool) (o : Option Sockaddr)
      → HasMasks cur
      → Returns (running_step sys is cur b o)
  running_step-Returns is cur true (some a) m =
      branches Returns (known cur.name is) (addressed sys is cur a)
        (added sys is cur a (type_of sys cur)) (λ k. addressed-Returns is cur a m)
        (λ k. added-Returns is cur a (type_of sys cur) m)
  running_step-Returns is cur true none m = tt
  running_step-Returns is cur false o m = tt

  and_then-Returns :
      (r : Run (List InterfaceInfo)) (f : List InterfaceInfo → Run (List InterfaceInfo))
      → Returns r
      → ((is : List InterfaceInfo) → Returns (f is))
      → Returns (and_then r f)
  and_then-Returns (value is) f h k = k is
  and_then-Returns aborted f h k = elim h [ ]
  and_then-Returns exhausted f h k = elim h [ ]

  interfaces_loop-Returns :
      (curs : List IfAddr) (is : List InterfaceInfo)
      → All HasMasks curs
      → Returns (interfaces_loop sys curs is)
  unfolding interfaces_loop
  interfaces_loop-Returns [] is m = tt
  interfaces_loop-Returns (cur ∷ curs) is m =
      and_then-Returns (running_step sys is cur cur.running cur.addr) (interfaces_loop sys curs)
        (running_step-Returns is cur cur.running cur.addr m.0)
        (λ js. interfaces_loop-Returns curs js m.1)

  -- When the netmasks of all entries of getifaddrs are bytes of ones followed by zeros, GetAllInterfaces
  -- returns a list: no check fails and every loop ends.
  pub get_all_interfaces_returns :
      (listing : List IfAddr)
      → sys.getifaddrs ≡ some listing
      → All HasMasks listing
      → (is : List InterfaceInfo) × (get_all_interfaces sys ≡ value is)
  unfolding get_all_interfaces
  get_all_interfaces_returns listing e m =
      let run = returned (interfaces_loop sys listing []) (interfaces_loop-Returns listing [] m) in
      (
        run.0,
        subst
            (λ o.
              (elim o as (λ _. Run (List InterfaceInfo)) [
                | none ↦ value []
                | some curs ↦ interfaces_loop sys curs []
              ])
              ≡ value run.0)
            (sym e) run.1,
      )
