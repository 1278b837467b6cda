-- ===== src/Fastboot/Resources.antt =====
-- What usb_open takes from libusb, and gives back.
use android_sdk_custom.Prelude.{ℕ, ◌+◌, ◌≤◌, ◌≡◌, List, Option, none, some, true, false}
use android_sdk_custom.Fastboot.{Setting, Usb, Transport}

pub data Resource : Type 0 where
  context device_list config handle interface : Resource

-- 1 for the same resource.
abbrev pub unit : Resource → Resource → ℕ
unit context context = 1
unit device_list device_list = 1
unit config config = 1
unit handle handle = 1
unit interface interface = 1
unit _ _ = 0

-- What is relied on of libusb: how each call changes the number of contexts, lists, configurations,
-- open handles and claimed interfaces; the ones that give something back need one to be there.
pub record Counted {L : Type 0} (u : Usb L) : Type 0 where
  pub held : L → Resource → ℕ
  pub init_some :
      (l : L) (c : ℕ) (r : Resource)
      → (u.init l).1 ≡ some c
      → held (u.init l).0 r ≡ held l r + unit context r
  pub init_none : (l : L) (r : Resource) → (u.init l).1 ≡ none → held (u.init l).0 r ≡ held l r
  pub exit :
      (l : L) (c : ℕ) (r : Resource)
      → 1 ≤ held l context
      → held (u.exit l c) r + unit context r ≡ held l r
  pub list_some :
      (l : L) (c : ℕ) (devs : List ℕ) (r : Resource)
      → (u.get_device_list l c).1 ≡ some devs
      → held (u.get_device_list l c).0 r ≡ held l r + unit device_list r
  pub list_none :
      (l : L) (c : ℕ) (r : Resource)
      → (u.get_device_list l c).1 ≡ none
      → held (u.get_device_list l c).0 r ≡ held l r
  pub free_list :
      (l : L) (r : Resource)
      → 1 ≤ held l device_list
      → held (u.free_device_list l true) r + unit device_list r ≡ held l r
  pub free_null : (l : L) (r : Resource) → held (u.free_device_list l false) r ≡ held l r
  pub descriptor : (l : L) (d : ℕ) (r : Resource) → held (u.device_descriptor l d).0 r ≡ held l r
  pub config_some :
      (l : L) (d : ℕ) (c : List (List Setting)) (r : Resource)
      → (u.active_config l d).1 ≡ some c
      → held (u.active_config l d).0 r ≡ held l r + unit config r
  pub config_none :
      (l : L) (d : ℕ) (r : Resource)
      → (u.active_config l d).1 ≡ none
      → held (u.active_config l d).0 r ≡ held l r
  pub free_config :
      (l : L) (r : Resource)
      → 1 ≤ held l config
      → held (u.free_config l) r + unit config r ≡ held l r
  pub open_some :
      (l : L) (d h : ℕ) (r : Resource)
      → (u.open_device l d).1 ≡ some h
      → held (u.open_device l d).0 r ≡ held l r + unit handle r
  pub open_none :
      (l : L) (d : ℕ) (r : Resource)
      → (u.open_device l d).1 ≡ none
      → held (u.open_device l d).0 r ≡ held l r
  pub close :
      (l : L) (h : ℕ) (r : Resource)
      → 1 ≤ held l handle
      → held (u.close_device l h) r + unit handle r ≡ held l r
  pub serial : (l : L) (h i : ℕ) (r : Resource) → held (u.string_descriptor l h i).0 r ≡ held l r
  pub detach : (l : L) (h : ℕ) (r : Resource) → held (u.auto_detach l h) r ≡ held l r
  pub claim_true :
      (l : L) (h i : ℕ) (r : Resource)
      → (u.claim l h i).1 ≡ true
      → held (u.claim l h i).0 r ≡ held l r + unit interface r
  pub claim_false :
      (l : L) (h i : ℕ) (r : Resource)
      → (u.claim l h i).1 ≡ false
      → held (u.claim l h i).0 r ≡ held l r
  pub release :
      (l : L) (h i : ℕ) (r : Resource)
      → 1 ≤ held l interface
      → held (u.release l h i) r + unit interface r ≡ held l r

abbrev pub of_interface : Option ℕ → Resource → ℕ
of_interface none r = 0
of_interface (some i) r = unit interface r

abbrev pub of_handle : Option ℕ → Option ℕ → Resource → ℕ
of_handle none i r = 0
of_handle (some h) i r = unit handle r + of_interface i r

abbrev pub of_context : Option ℕ → Resource → ℕ
of_context none r = 0
of_context (some c) r = unit context r

-- What a transport stands for: its context, its handle and, with a handle, its interface.
abbrev pub owned : Transport → Resource → ℕ
owned t r = of_context t.ctx r + of_handle t.handle t.interface r

-- With a context of usb_open's own, which a transport takes over.
abbrev pub taken : Option Transport → Resource → ℕ
taken none r = unit context r
taken (some t) r = owned t r

abbrev pub opened_handle : Resource → ℕ
opened_handle r = unit context r + unit handle r
