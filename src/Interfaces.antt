-- ===== src/Interfaces.antt =====
-- patches/sources/openscreen_network_interface_bsd.cc: GetAllInterfaces. The system calls are a record
-- of functions; of flag words there are the bits that the file tests.
pub mod Prefix
pub mod Bits
pub mod Mask
pub mod Distinct
pub mod Names
pub mod Masks
use android_sdk_custom.Prelude.{
  ℕ, zero, suc, List, [], ◌∷◌, ◌++◌, Option, none, some, Bool, true, false, not, ◌&&◌, ◌||◌, ◌==◌,
  if◌then◌else◌, take, ◌-◌,
}
use android_sdk_custom.Interfaces.Prefix.{Run, value, and_then, to_prefix_length}

-- A sockaddr: the bytes at LLADDR, or those of the address.
pub data Sockaddr : Type 0 where
  link inet6 inet : List ℕ → Sockaddr
  other_family : Sockaddr

-- An ifaddrs.
pub record IfAddr : Type 0 where
  pub name : List ℕ
  pub running : Bool
  pub loopback : Bool
  pub addr : Option Sockaddr
  pub netmask : Option Sockaddr

-- `ifm_status` and `ifm_current`.
pub record Media : Type 0 where
  pub valid : Bool
  pub active : Bool
  pub ieee80211 : Bool
  pub ether : Bool

pub data InterfaceType : Type 0 where
  wifi ethernet loopback other : InterfaceType

pub data IpAddress : Type 0 where
  v4 v6 : List ℕ → IpAddress

pub record InterfaceInfo : Type 0 where
  pub index : ℕ
  pub hardware_address : List ℕ
  pub name : List ℕ
  pub type : InterfaceType
  pub addresses : List (IpAddress × ℕ)

-- getifaddrs, the ioctls SIOCGIFMEDIA and SIOCGIFAFLAG_IN6 (with the deprecated bit), if_nametoindex;
-- `none` is a failure. The sizes are those of the names in the two requests.
pub record System : Type 0 where
  pub getifaddrs : Option (List IfAddr)
  pub media : List ℕ → Option Media
  pub deprecated6 : List ℕ → List ℕ → Option Bool
  pub nametoindex : List ℕ → ℕ
  pub ifm_name_size : ℕ
  pub ifr_name_size : ℕ

-- `info.name == name`
abbrev pub same_name : List ℕ → List ℕ → Bool
same_name [] [] = true
same_name [] (b ∷ bs) = false
same_name (a ∷ as') [] = false
same_name (a ∷ as') (b ∷ bs) = (a == b) && same_name as' bs

-- find_if, and what is changed through the pointer that it gives.
unfoldable pub known : List ℕ → List InterfaceInfo → Bool
known name [] = false
known name (i ∷ is) = same_name i.name name || known name is

unfoldable pub change :
    List ℕ → (InterfaceInfo → InterfaceInfo) → List InterfaceInfo → List InterfaceInfo
change name f [] = []
change name f (i ∷ is) = if same_name i.name name then f i ∷ is else i ∷ change name f is

abbrev pub zeros : ℕ → List ℕ
zeros zero = []
zeros (suc n) = 0 ∷ zeros n

abbrev pub mask6 : Option Sockaddr → List ℕ
mask6 (some (inet6 bytes)) = bytes
mask6 _ = zeros 16

abbrev pub mask4 : Option Sockaddr → List ℕ
mask4 (some (inet bytes)) = bytes
mask4 _ = zeros 4

abbrev pub add_address : IpAddress → ℕ → InterfaceInfo → InterfaceInfo
add_address ip prefix i = record i { addresses = i.addresses ++ ((ip, prefix) ∷ []) }

abbrev pub with_prefix : List InterfaceInfo → List ℕ → IpAddress → Run ℕ → Run (List InterfaceInfo)
with_prefix results name ip prefix =
    and_then prefix (λ n. value (change name (add_address ip n) results))

abbrev pub media_type : IfAddr → Option Media → Option InterfaceType
media_type cur (some m) =
    if m.valid && m.active
    then some (if m.ieee80211 then wifi else (if m.ether then ethernet else other))
    else none
media_type cur none = if cur.loopback then some loopback else none

module _ (sys : System) where
  abbrev pub type_of : IfAddr → Option InterfaceType
  type_of cur = media_type cur (sys.media (take (sys.ifm_name_size - 1) cur.name))

  abbrev pub fresh : IfAddr → InterfaceType → InterfaceInfo
  fresh cur type = record {
    index = sys.nametoindex cur.name;
    hardware_address = zeros 6;
    name = cur.name;
    type = type;
    addresses = [];
  }

  abbrev pub with_flags :
      List InterfaceInfo → IfAddr → List ℕ → Option Bool → Run (List InterfaceInfo)
  with_flags results cur bytes (some false) =
      with_prefix results cur.name (v6 bytes) (to_prefix_length (mask6 cur.netmask))
  with_flags results cur bytes _ = value results

  -- By the family of the address.
  abbrev pub addressed : List InterfaceInfo → IfAddr → Sockaddr → Run (List InterfaceInfo)
  addressed results cur (link bytes) =
      value (change cur.name (λ i. record i { hardware_address = take 6 bytes }) results)
  addressed results cur (inet6 bytes) =
      with_flags results cur bytes (sys.deprecated6 (take (sys.ifr_name_size - 1) cur.name) bytes)
  addressed results cur (inet bytes) =
      with_prefix results cur.name (v4 bytes) (to_prefix_length (mask4 cur.netmask))
  addressed results cur other_family = value results

  abbrev pub added :
      List InterfaceInfo → IfAddr → Sockaddr → Option InterfaceType → Run (List InterfaceInfo)
  added results cur a none = value results
  added results cur a (some type) = addressed (results ++ (fresh cur type ∷ [])) cur a

  abbrev pub running_step :
      List InterfaceInfo → IfAddr → Bool → Option Sockaddr → Run (List InterfaceInfo)
  running_step results cur true (some a) = elim (known cur.name results) [
    | true ↦ addressed results cur a
    | false ↦ added results cur a (type_of cur)
  ]
  running_step results cur _ _ = value results

  unfoldable pub interfaces_loop : List IfAddr → List InterfaceInfo → Run (List InterfaceInfo)
  unfolding known change
  interfaces_loop [] results = value results
  interfaces_loop (cur ∷ curs) results =
      and_then (running_step results cur cur.running cur.addr) (interfaces_loop curs)

  unfoldable pub get_all_interfaces : Run (List InterfaceInfo)
  unfolding interfaces_loop
  get_all_interfaces = elim sys.getifaddrs [ none ↦ value [] | some curs ↦ interfaces_loop curs [] ]
