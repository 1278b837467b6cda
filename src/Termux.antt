-- ===== src/Termux.antt =====
-- patches/termux: what termux_adb.h and termux_fastboot.h put in front of libtermuxadb, whose
-- functions are parameters. A state S is what these functions work on.
pub mod Opening
pub mod Listener
pub mod Directories
use Prim.Native.Nat.{bit_and, bit_or}
use android_sdk_custom.Prelude.{
  ℕ, List, [], ◌∷◌, Option, none, some, Bool, true, false, ◌==◌, ◌&&◌, not, if◌then◌else◌, ◌>>=◌,
}
use android_sdk_custom.ExePath.{c_string}
use android_sdk_custom.HostCompat.Retry.{Outcome, retry}

-- `v && v[0] && !(v[0] == '0' && v[1] == '\0')`, for the value of LIBUSB_TERMUX_IMPL.
unfoldable pub is_set : Option (List ℕ) → Bool
is_set none = false
is_set (some []) = false
is_set (some (c ∷ [])) = not (c == b'0')
is_set (some (c ∷ d ∷ cs)) = true

-- The static variable is `none` for -1, before the first call.
unfoldable pub enabled : Option (List ℕ) → Option Bool → Bool × Option Bool
enabled env none = (is_set env, some (is_set env))
enabled env (some e) = (e, some e)

-- Calls one after another, each with the environment as it then is.
unfoldable pub answers : List (Option (List ℕ)) → Option Bool → List Bool
unfolding enabled
answers [] e = []
answers (env ∷ envs) e = let (b, e') = enabled env e in b ∷ answers envs e'

-- The functions of the Rust library, and the constants of <errno.h> and <fcntl.h>. The value of an
-- outcome is a descriptor.
pub record Library {ℓ} (S : Type ℓ) : Type ℓ where
  pub termuxadb_open : List ℕ → ℕ → S → S × Outcome
  pub termuxadb_create : List ℕ → ℕ → ℕ → S → S × Outcome
  -- ReadFdToString of libbase: whether it succeeds, and what it appends.
  pub read_fd : ℕ → S → S × Bool × List ℕ
  pub close : ℕ → S → S
  pub eintr : ℕ
  pub o_creat : ℕ
  pub o_rdonly : ℕ
  pub o_cloexec : ℕ
  pub o_binary : ℕ
  pub o_nofollow : ℕ

module _ {ℓ} {S : Type ℓ} (lib : Library S) where
  -- The call that unix_open makes, and repeats.
  unfoldable pub opening : List ℕ → ℕ → ℕ → S → S × Outcome
  opening path options mode =
      if bit_and options lib.o_creat == 0
      then lib.termuxadb_open (c_string path) options
      else lib.termuxadb_create (c_string path) options mode

  -- `mode` is the argument behind options, if there is one.
  unfoldable pub unix_open : ℕ → List ℕ → ℕ → ℕ → S → Option (S × Outcome)
  unix_open fuel path options mode = retry lib.eintr (opening path options mode) fuel

  unfoldable pub read_flags : Bool → ℕ
  read_flags follow_symlinks =
      bit_or (bit_or (bit_or lib.o_rdonly lib.o_cloexec) lib.o_binary)
        (if follow_symlinks then 0 else lib.o_nofollow)

  -- The call that ReadFileToString makes, and repeats.
  unfoldable pub reading : List ℕ → Bool → S → S × Outcome
  unfolding read_flags
  reading path follow_symlinks = lib.termuxadb_open (c_string path) (read_flags follow_symlinks)

  -- The content is cleared first; the descriptor is closed at the end of its scope.
  unfoldable pub read_opened : S × Outcome → S × Bool × List ℕ
  read_opened (s, o) = elim o.value [
    | none ↦ (s, false, [])
    | some fd ↦ let (t, ok, content) = lib.read_fd fd s in (lib.close fd t, ok, content)
  ]

  unfoldable pub read_file_to_string : ℕ → List ℕ → Bool → S → Option (S × Bool × List ℕ)
  unfolding reading read_opened
  read_file_to_string fuel path follow_symlinks s =
      retry lib.eintr (lib.termuxadb_open (c_string path) (read_flags follow_symlinks)) fuel s
      >>= λ r. some (read_opened r)
