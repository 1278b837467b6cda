-- ===== src/AdbWin.antt =====
-- patches/sources/adbwinapi_static.cpp: the creation of an interface object of AdbWinApi, and the lock
-- of patches/compat/adbwinapi/atlbase.h. The state S, the constructor of the object and SetLastError
-- are the system's.
use android_sdk_custom.Prelude.{ℕ, List, Option, none, some}

-- `new AdbWinUsbInterfaceObject(interface_name)`: the object's address, or `none` for an exception.
unfoldable pub instantiate {ℓ} :
    {S : Type ℓ}
    → (List ℕ → S → S × Option ℕ)
    → (ℕ → S → S)
    → ℕ
    → Option (List ℕ)
    → S
    → S × Option ℕ
instantiate new_object set_last_error out_of_memory none s = (s, none)
instantiate new_object set_last_error out_of_memory (some name) s =
    let (t, object) = new_object name s in
    elim object [ none ↦ (set_last_error out_of_memory t, none) | some a ↦ (t, some a) ]

-- CComAutoCriticalSection of atlbase.h, on the system's four functions for a critical section. S_OK
-- is the only code that the methods return.
module _ {ℓ} {S : Type ℓ} (initialize enter leave delete : ℕ → S → S) (s_ok : ℕ) where
  abbrev pub constructed : ℕ → S → S
  constructed cs s = initialize cs s

  abbrev pub destroyed : ℕ → S → S
  destroyed cs s = delete cs s

  abbrev pub lock : ℕ → S → S × ℕ
  lock cs s = (enter cs s, s_ok)

  abbrev pub unlock : ℕ → S → S × ℕ
  unlock cs s = (leave cs s, s_ok)
