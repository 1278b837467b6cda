-- ===== src/Examples/Interfaces.antt =====
-- A loopback interface, and a network card that getifaddrs names twice.
use android_sdk_custom.Prelude.{
  ℕ, zero, suc, ◌<◌, ◌≡◌, refl, List, [], ◌∷◌, none, some, true, false, arith, if◌then◌else◌,
  length, suc,
}
use android_sdk_custom.Interfaces.Prefix.{
  value, aborted, ones_loop, shift_loop, zeros_loop, to_prefix_length,
}
use android_sdk_custom.Interfaces.Bits.{bits, mask_bits, counted, IsBytes}
use android_sdk_custom.Interfaces.Mask.{to_prefix_length_lem}
use android_sdk_custom.Interfaces.{
  IfAddr, link, inet, Media, InterfaceInfo, loopback, ethernet, v4, System, same_name, known,
  change, interfaces_loop, get_all_interfaces, zeros,
}
use android_sdk_custom.Interfaces.Names.{Listed, get_all_interfaces-Listed}
use android_sdk_custom.Interfaces.Masks.{HasMasks, IsMask, get_all_interfaces_returns}

to_prefix_length_test : to_prefix_length (255 ∷ 255 ∷ 240 ∷ 0 ∷ []) ≡ value 20
unfolding to_prefix_length
to_prefix_length_test = refl

to_prefix_length_hole : to_prefix_length (255 ∷ 0 ∷ 255 ∷ 0 ∷ []) ≡ aborted
unfolding to_prefix_length
to_prefix_length_hole = refl

to_prefix_length_lem_example :
    to_prefix_length (255 ∷ 255 ∷ 240 ∷ 0 ∷ []) ≡ counted 0 (mask_bits (255 ∷ 255 ∷ 240 ∷ 0 ∷ []))
to_prefix_length_lem_example =
    to_prefix_length_lem (255 ∷ 255 ∷ 240 ∷ 0 ∷ [])
      (omega arith, (omega arith, (omega arith, (omega arith, tt)))) (omega arith)

abbrev lo : IfAddr
lo = record {
  name = b'l' ∷ b'o' ∷ [];
  running = true;
  loopback = true;
  addr = some (inet (127 ∷ 0 ∷ 0 ∷ 1 ∷ []));
  netmask = some (inet (255 ∷ 0 ∷ 0 ∷ 0 ∷ []));
}

abbrev card : IfAddr
card = record {
  name = b'e' ∷ b'm' ∷ [];
  running = true;
  loopback = false;
  addr = some (link (1 ∷ 2 ∷ 3 ∷ 4 ∷ 5 ∷ 6 ∷ []));
  netmask = none;
}

abbrev card4 : IfAddr
card4 = record card {
  addr = some (inet (10 ∷ 0 ∷ 0 ∷ 2 ∷ []));
  netmask = some (inet (255 ∷ 255 ∷ 255 ∷ 0 ∷ []));
}

abbrev listing : List IfAddr
listing = lo ∷ card ∷ card4 ∷ []

abbrev wired : Media
wired = record { valid = true; active = true; ieee80211 = false; ether = true }

abbrev host : System
host = record {
  getifaddrs = some listing;
  media = λ name. if same_name name card.name then some wired else none;
  deprecated6 = λ name bytes. some false;
  nametoindex = λ name. length name;
  ifm_name_size = 16;
  ifr_name_size = 16;
}

abbrev infos : List InterfaceInfo
infos =
    record {
      index = 2;
      hardware_address = 0 ∷ 0 ∷ 0 ∷ 0 ∷ 0 ∷ 0 ∷ [];
      name = lo.name;
      type = loopback;
      addresses = (v4 (127 ∷ 0 ∷ 0 ∷ 1 ∷ []), 8) ∷ [];
    }
    ∷ record {
      index = 2;
      hardware_address = 1 ∷ 2 ∷ 3 ∷ 4 ∷ 5 ∷ 6 ∷ [];
      name = card.name;
      type = ethernet;
      addresses = (v4 (10 ∷ 0 ∷ 0 ∷ 2 ∷ []), 24) ∷ [];
    }
    ∷ []

get_all_interfaces_test : get_all_interfaces host ≡ value infos
unfolding get_all_interfaces interfaces_loop known change to_prefix_length ones_loop shift_loop
    zeros_loop
get_all_interfaces_test = refl

get_all_interfaces-Listed_example : Listed host listing infos
get_all_interfaces-Listed_example =
    get_all_interfaces-Listed host listing infos refl get_all_interfaces_test

zeros-IsBytes : (n : ℕ) → IsBytes (zeros n)
zeros-IsBytes zero = tt
zeros-IsBytes (suc n) = (omega arith, zeros-IsBytes n)

small_mask : (a b c : ℕ) → a < 256 → b < 256 → c < 256 → IsBytes (a ∷ b ∷ c ∷ 0 ∷ [])
small_mask a b c x y z = (x, (y, (z, (omega arith, tt))))

zeros-IsMask : IsMask (zeros 16)
unfolding mask_bits bits
zeros-IsMask = record { are_bytes = zeros-IsBytes 16; short = omega arith; prefix = 0; ones = refl }

lo_masks : HasMasks lo
unfolding mask_bits bits
lo_masks = (
  zeros-IsMask,
  record {
    are_bytes = small_mask 255 0 0 (omega arith) (omega arith) (omega arith);
    short = omega arith;
    prefix = 8;
    ones = refl;
  },
)

card_masks : HasMasks card
unfolding mask_bits bits
card_masks = (
  zeros-IsMask,
  record { are_bytes = zeros-IsBytes 4; short = omega arith; prefix = 0; ones = refl },
)

card4_masks : HasMasks card4
unfolding mask_bits bits
card4_masks = (
  zeros-IsMask,
  record {
    are_bytes = small_mask 255 255 255 (omega arith) (omega arith) (omega arith);
    short = omega arith;
    prefix = 24;
    ones = refl;
  },
)

get_all_interfaces_returns_example :
    (is : List InterfaceInfo) × (get_all_interfaces host ≡ value is)
get_all_interfaces_returns_example =
    get_all_interfaces_returns host listing refl (lo_masks, (card_masks, (card4_masks, tt)))
