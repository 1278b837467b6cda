-- ===== src/Examples/Programs.antt =====
-- Finding adb on a PATH whose first directory is the current one, asking termux-adb's switch after
-- its variable changed, a read of a file that a signal delays, and the groups of a process.
use mathlib.Core.List.{Mem, Memᴰ}
use mathlib.Core.Logic.{◌↔◌}
use android_sdk_custom.Prelude.{
  ◌≡◌, refl, ==_refl, ℕ, ◌+◌, List, [], ◌∷◌, none, some, Bool, true, false, arith, ◌==◌,
  if◌then◌else◌, Option, ltb, ==_iff,
}
use android_sdk_custom.HostCompat.Retry.{is_interrupted, retry}
use android_sdk_custom.ExePath.{free_bsd, System, index_or_size, sdk_bsd_executable_path}
use android_sdk_custom.ExePath.Directories.{directories, first_of, executable_path-directories}
use android_sdk_custom.Termux.{is_set, answers, Library, read_file_to_string}
use android_sdk_custom.Termux.Listener.{
  Message, with_fd, Shared, done, blocked, panicked, Authorized, refused, joined, Setup, authorize,
  Files, open_hook,
}
use android_sdk_custom.Termux.Listener.Opens.{authorize-open_hook}
use android_sdk_custom.Termux.Directories.{same_path, update_dir_map}
use android_sdk_custom.Termux.Directories.Listed.{Lists, update_dir_map-Lists}
use android_sdk_custom.Groups.{sdk_in_group, sdk_in_group-Mem}

abbrev adb : List ℕ
adb = b'a' ∷ b'd' ∷ b'b' ∷ []

abbrev in_bin : List ℕ
in_bin = b'/' ∷ b'b' ∷ b'/' ∷ adb

abbrev starts_with_slash : List ℕ → Bool
starts_with_slash [] = false
starts_with_slash (c ∷ cs) = c == b'/'

-- PATH is ":/b", sysctl gives an empty string, and only an absolute path is executable.
abbrev host : System
host = record {
  pathname = some (0 ∷ []);
  argv0 = none;
  progname = adb;
  path = some (b':' ∷ b'/' ∷ b'b' ∷ []);
  is_executable = starts_with_slash;
  realpath = λ p. some p;
}

executable_path-directories_example : sdk_bsd_executable_path free_bsd host 5 ≡ some in_bin
unfolding index_or_size directories first_of
executable_path-directories_example = executable_path-directories free_bsd host 5 (omega arith)

answers_test :
    answers (some (b'1' ∷ []) ∷ some (b'0' ∷ []) ∷ none ∷ []) none ≡ true ∷ true ∷ true ∷ []
unfolding answers is_set
answers_test = refl

-- The state counts the calls; the first open is interrupted, and the second gives descriptor 3.
abbrev phone : Library ℕ
phone = record {
  termuxadb_open = λ path options s. (
    s + 1,
    if s == 0 then record { value = none; errno = 4 } else record { value = some 3; errno = 4 },
  );
  termuxadb_create = λ path options mode s. (s + 1, record { value = none; errno = 13 });
  read_fd = λ fd s. (s + 1, true, fd ∷ []);
  close = λ fd s. s + 1;
  eintr = 4;
  o_creat = 64;
  o_rdonly = 0;
  o_cloexec = 524288;
  o_binary = 0;
  o_nofollow = 131072;
}

in_group_test : sdk_in_group (some 2) (λ n. some (27 ∷ 46 ∷ [])) 46 ≡ true
unfolding sdk_in_group
in_group_test = refl

read_test : read_file_to_string phone 9 adb false 0 ≡ some (4, true, 3 ∷ [])
unfolding read_file_to_string retry is_interrupted
read_test = refl

-- The names are numbers; the base directory is 3 in 2 in 1, and there are two devices in the bus 5.
abbrev base : List ℕ
base = 3 ∷ 2 ∷ 1 ∷ []

abbrev first_device : List ℕ
first_device = 7 ∷ 5 ∷ base

abbrev second_device : List ℕ
second_device = 8 ∷ 5 ∷ base

-- The user refuses the second.
abbrev allows_first : List ℕ → Option (Message (List ℕ))
allows_first [] = none
allows_first (n ∷ p) = if n == 7 then some (with_fd (n ∷ p) 5) else none

abbrev no_serial : ℕ → Option (Option (List ℕ × List ℕ))
no_serial fd = some none

abbrev nothing_known : Shared ℕ
nothing_known = record { maps = record { usb_fds = []; serials = [] }; dirs = [] }

abbrev complete_setup : Setup
complete_setup = record { dependencies = true; sockets = true; executable = true }

abbrev is_blocked : Authorized ℕ → Bool
is_blocked refused = false
is_blocked (joined (done w)) = false
is_blocked (joined (blocked n w)) = n == 1
is_blocked (joined panicked) = false

authorize_test :
    is_blocked (
      authorize ◌==◌ ltb base no_serial complete_setup allows_first
        (first_device ∷ second_device ∷ [])
        nothing_known)
    ≡ true
unfolding authorize update_dir_map
authorize_test = refl

-- The state is the descriptor that was rewound last.
abbrev some_files : Files (List ℕ) ℕ
some_files = record {
  memfd_create = λ s. (s, none);
  write_and_seek = λ fd bytes s. (s, false);
  seek = λ fd s. fd;
  libc_open = λ p flags s. (s, 9);
  libc_open_mode = λ p flags mode s. (s, 9);
  o_creat = 64;
}

abbrev fd_of : List ℕ → ℕ
fd_of [] = 0
fd_of (n ∷ p) = n + 10

authorize-open_hook_example :
    (w : Shared ℕ) × (authorize ◌==◌ ltb base no_serial complete_setup
        (λ p. some (with_fd p (fd_of p)))
        (first_device ∷ second_device ∷ [])
        nothing_known
      ≡ joined (done w))
    × (open_hook some_files (same_path ◌==◌ ltb) w.maps (some second_device) 2 0 0 ≡ (18, 18))
authorize-open_hook_example =
    authorize-open_hook ◌==◌ ltb (λ a b. (==_iff a b).0) ==_refl 3 (2 ∷ 1 ∷ []) no_serial fd_of
      some_files complete_setup (first_device ∷ second_device ∷ []) nothing_known second_device 2 0
      0 refl (((7, 5 ∷ [], refl), (none, refl)), (((8, 5 ∷ [], refl), (none, refl)), tt))
      (Memᴰ.tail (Memᴰ.head refl))

-- The device 7 in the bus 5.
update_dir_map-Lists_example :
    Lists ◌==◌ ltb ==_refl 7
      (5 ∷ 3 ∷ 2 ∷ 1 ∷ [])
      (update_dir_map ◌==◌ ltb (3 ∷ 2 ∷ 1 ∷ []) (7 ∷ 5 ∷ 3 ∷ 2 ∷ 1 ∷ []) [])
update_dir_map-Lists_example = update_dir_map-Lists ◌==◌ ltb ==_refl 7 3 (5 ∷ []) (2 ∷ 1 ∷ []) []

-- A device that is not under the base directory.
panic_test : update_dir_map ◌==◌ ltb (3 ∷ 2 ∷ 1 ∷ []) (7 ∷ 1 ∷ []) [] ≡ none
unfolding update_dir_map
panic_test = refl

sdk_in_group-Mem_example :
    (sdk_in_group (some 2) (λ n. some (27 ∷ 46 ∷ [])) 46 ≡ true) ↔ Mem {A = ℕ} 46 (27 ∷ 46 ∷ [])
sdk_in_group-Mem_example = sdk_in_group-Mem 1 (λ n. some (27 ∷ 46 ∷ [])) (27 ∷ 46 ∷ []) 46 refl
