-- ===== src/Interfaces/Names.antt =====
-- Names and origin of the interfaces that GetAllInterfaces lists.
use mathlib.Core.Path.{subst}
use android_sdk_custom.Interfaces.{
  IfAddr, Sockaddr, link, inet6, inet, other_family, InterfaceInfo, InterfaceType, IpAddress,
  System, same_name, known, change, with_prefix, type_of, fresh, with_flags, addressed, added,
  running_step, interfaces_loop, get_all_interfaces, mask4, mask6, add_address, v4, v6, take,
}
use android_sdk_custom.Interfaces.Prefix.{
  Run, value, aborted, exhausted, and_then, to_prefix_length,
}
use android_sdk_custom.Prelude.{
  branches, ◌-◌, ℕ, ◌≡◌, refl, sym, ap, ◌∙◌, List, [], ◌∷◌, ◌++◌, Option, none, some, Bool, true,
  false, All, if_both,
}
use android_sdk_custom.Interfaces.Distinct.{Distinct, change-Distinct, append-Distinct}

-- One of the list.
pub data Among (cur : IfAddr) : List IfAddr → Type 0 where
  here : {curs : List IfAddr} → Among cur (cur ∷ curs)
  there : {c : IfAddr} {curs : List IfAddr} → Among cur curs → Among cur (c ∷ curs)

module _ (sys : System) (listing : List IfAddr) where
  -- Where an interface was found.
  pub record Sourced (i : InterfaceInfo) : Type 0 where
    pub origin : IfAddr
    pub among : Among origin listing
    pub running : origin.running ≡ true
    pub name : i.name ≡ origin.name
    pub type : type_of sys origin ≡ some i.type
    pub index : i.index ≡ sys.nametoindex i.name

  pub record Listed (is : List InterfaceInfo) : Type 0 where
    pub distinct : Distinct is
    pub sourced : All Sourced is

  abbrev Keeps : (InterfaceInfo → InterfaceInfo) → Type 0
  Keeps f =
      (i : InterfaceInfo) → ((f i).name ≡ i.name) × ((f i).type ≡ i.type) × ((f i).index ≡ i.index)

All-append :
    (P : InterfaceInfo → Type 0) (is : List InterfaceInfo) (j : InterfaceInfo)
    → All P is
    → P j
    → All P (is ++ (j ∷ []))
All-append P [] j h k = (k, tt)
All-append P (i ∷ is) j h k = (h.0, All-append P is j h.1 k)

module _ (sys : System) (listing : List IfAddr) where
  kept-Sourced :
      (f : InterfaceInfo → InterfaceInfo) (i : InterfaceInfo)
      → Keeps sys listing f
      → Sourced sys listing i
      → Sourced sys listing (f i)
  kept-Sourced f i k s = record {
    origin = s.origin;
    among = s.among;
    running = s.running;
    name = (k i).0 ∙ s.name;
    type = s.type ∙ ap some (sym (k i).1);
    index = (k i).2 ∙ s.index ∙ ap sys.nametoindex (sym (k i).0);
  }

  change-Sourced :
      (m : List ℕ) (f : InterfaceInfo → InterfaceInfo) (is : List InterfaceInfo)
      → Keeps sys listing f
      → All (Sourced sys listing) is
      → All (Sourced sys listing) (change m f is)
  unfolding change
  change-Sourced m f [] k h = tt
  change-Sourced m f (i ∷ is) k h =
      if_both (All (Sourced sys listing)) (same_name i.name m) (kept-Sourced f i k h.0, h.1)
        (h.0, change-Sourced m f is k h.1)

  change-Listed :
      (m : List ℕ) (f : InterfaceInfo → InterfaceInfo) (is : List InterfaceInfo)
      → Keeps sys listing f
      → Listed sys listing is
      → Listed sys listing (change m f is)
  change-Listed m f is k h = record {
    distinct = change-Distinct m f is (λ i. (k i).0) h.distinct;
    sourced = change-Sourced m f is k h.sourced;
  }

  -- What a run's value has, if there is one.
  abbrev Gives : Run (List InterfaceInfo) → Type 0
  Gives (value is) = Listed sys listing is
  Gives _ = Unit {0}

  with_prefix-Gives :
      (is : List InterfaceInfo) (name : List ℕ) (ip : IpAddress) (r : Run ℕ)
      → Listed sys listing is
      → Gives (with_prefix is name ip r)
  with_prefix-Gives is name ip (value n) h =
      change-Listed name (add_address ip n) is (λ i. (refl, refl, refl)) h
  with_prefix-Gives is name ip aborted h = tt
  with_prefix-Gives is name ip exhausted h = tt

  with_flags-Gives :
      (is : List InterfaceInfo) (cur : IfAddr) (bytes : List ℕ) (o : Option Bool)
      → Listed sys listing is
      → Gives (with_flags sys is cur bytes o)
  with_flags-Gives is cur bytes none h = h
  with_flags-Gives is cur bytes (some true) h = h
  with_flags-Gives is cur bytes (some false) h =
      with_prefix-Gives is cur.name (v6 bytes) (to_prefix_length (mask6 cur.netmask)) h

  addressed-Gives :
      (is : List InterfaceInfo) (cur : IfAddr) (a : Sockaddr)
      → Listed sys listing is
      → Gives (addressed sys is cur a)
  addressed-Gives is cur (link bytes) h =
      change-Listed cur.name (λ i. record i { hardware_address = take 6 bytes }) is
        (λ i. (refl, refl, refl)) h
  addressed-Gives is cur (inet6 bytes) h =
      with_flags-Gives is cur bytes (sys.deprecated6 (take (sys.ifr_name_size - 1) cur.name) bytes)
        h
  addressed-Gives is cur (inet bytes) h =
      with_prefix-Gives is cur.name (v4 bytes) (to_prefix_length (mask4 cur.netmask)) h
  addressed-Gives is cur other_family h = h

  added-Gives :
      (is : List InterfaceInfo) (cur : IfAddr) (a : Sockaddr) (o : Option InterfaceType)
      → Among cur listing
      → cur.running ≡ true
      → known cur.name is ≡ false
      → type_of sys cur ≡ o
      → Listed sys listing is
      → Gives (added sys is cur a o)
  added-Gives is cur a none m r k e h = h
  added-Gives is cur a (some t) m r k e h =
      addressed-Gives (is ++ (fresh sys cur t ∷ [])) cur a (record {
        distinct = append-Distinct is (fresh sys cur t) h.distinct k;
        sourced =
            All-append (Sourced sys listing) is (fresh sys cur t) h.sourced (record {
              origin = cur;
              among = m;
              running = r;
              name = refl;
              type = e;
              index = refl;
            });
      })

  running_step-Gives :
      (is : List InterfaceInfo) (cur : IfAddr) (b : Bool) (o : Option Sockaddr)
      → Among cur listing
      → cur.running ≡ b
      → Listed sys listing is
      → Gives (running_step sys is cur b o)
  running_step-Gives is cur true (some a) m r h =
      branches Gives (known cur.name is) (addressed sys is cur a)
        (added sys is cur a (type_of sys cur)) (λ k. addressed-Gives is cur a h)
        (λ k. added-Gives is cur a (type_of sys cur) m r k refl h)
  running_step-Gives is cur true none m r h = h
  running_step-Gives is cur false o m r h = h

  and_then-Gives :
      (r : Run (List InterfaceInfo)) (f : List InterfaceInfo → Run (List InterfaceInfo))
      → Gives r
      → ((is : List InterfaceInfo) → Listed sys listing is → Gives (f is))
      → Gives (and_then r f)
  and_then-Gives (value is) f h k = k is h
  and_then-Gives aborted f h k = tt
  and_then-Gives exhausted f h k = tt

  interfaces_loop-Gives :
      (curs : List IfAddr) (is : List InterfaceInfo)
      → ((c : IfAddr) → Among c curs → Among c listing)
      → Listed sys listing is
      → Gives (interfaces_loop sys curs is)
  unfolding interfaces_loop
  interfaces_loop-Gives [] is m h = h
  interfaces_loop-Gives (cur ∷ curs) is m h =
      and_then-Gives (running_step sys is cur cur.running cur.addr) (interfaces_loop sys curs)
        (running_step-Gives is cur cur.running cur.addr (m cur here) refl h)
        (λ js k. interfaces_loop-Gives curs js (λ c i. m c (there i)) k)

-- When getifaddrs succeeds, no two interfaces of a list that GetAllInterfaces returns have the same
-- name, and each has the name of an entry of getifaddrs that is running, the type that this entry's
-- media or loopback flag gives it, and the index of its name.
pub get_all_interfaces-Listed :
    (sys : System) (listing : List IfAddr) (is : List InterfaceInfo)
    → sys.getifaddrs ≡ some listing
    → get_all_interfaces sys ≡ value is
    → Listed sys listing is
unfolding get_all_interfaces
get_all_interfaces-Listed sys listing is e g =
    let start : Listed sys listing [] = record { distinct = tt; sourced = tt } in
    let run : interfaces_loop sys listing [] ≡ value is =
      subst
        (λ o.
          (elim o as (λ _. Run (List InterfaceInfo)) [
            | none ↦ value []
            | some curs ↦ interfaces_loop sys curs []
          ])
          ≡ value is)
        e g in
    subst (Gives sys listing) run (interfaces_loop-Gives sys listing listing [] (λ c m. m) start)
