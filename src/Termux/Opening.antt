-- ===== src/Termux/Opening.antt =====
-- The calls of termux_adb.h and termux_fastboot.h that a signal may interrupt, and the cached test.
use android_sdk_custom.Prelude.{
  ℕ, suc, ◌<◌, ◌≡◌, refl, List, [], ◌∷◌, Option, none, some, Bool, length, replicate, ap,
}
use android_sdk_custom.HostCompat.Retry.{after, Interrupted, retry_lem}
use android_sdk_custom.Termux.{
  is_set, enabled, answers, Library, opening, unix_open, reading, read_opened, read_file_to_string,
}

answers_cached :
    (b : Bool) (envs : List (Option (List ℕ))) → answers envs (some b) ≡ replicate (length envs) b
unfolding answers enabled
answers_cached b [] = refl
answers_cached b (env ∷ envs) = ap (◌∷◌ b) (answers_cached b envs)

-- Every call of enabled() answers what the environment says at the first one: that
-- LIBUSB_TERMUX_IMPL is set, and is neither empty nor "0".
pub answers-is_set :
    (env : Option (List ℕ)) (envs : List (Option (List ℕ)))
    → answers (env ∷ envs) none ≡ replicate (suc (length envs)) (is_set env)
unfolding answers enabled
answers-is_set env envs = ap (◌∷◌ (is_set env)) (answers_cached (is_set env) envs)

module _ {ℓ} {S : Type ℓ} (lib : Library S) (n fuel : ℕ) (enough : n < fuel) where
  pub unix_open_lem :
      (path : List ℕ) (options mode : ℕ) (s : S)
      → Interrupted lib.eintr (opening lib path options mode) n s
      → unix_open lib fuel path options mode s
        ≡ some (opening lib path options mode (after lib.eintr (opening lib path options mode) n s))
  unfolding unix_open
  unix_open_lem path options mode s i =
      retry_lem lib.eintr (opening lib path options mode) n fuel s enough i

  -- Where n signals interrupt the opening of a file and the next attempt ends otherwise, and there is
  -- fuel for more than n attempts: the file is read and closed if that attempt opens it, and otherwise
  -- the content is empty and the answer is false.
  pub read_file_to_string_lem :
      (path : List ℕ) (follow : Bool) (s : S)
      → Interrupted lib.eintr (reading lib path follow) n s
      → read_file_to_string lib fuel path follow s
        ≡ some (
            read_opened lib
              (reading lib path follow (after lib.eintr (reading lib path follow) n s)))
  unfolding read_file_to_string
  read_file_to_string_lem path follow s i =
      rw (retry_lem lib.eintr (reading lib path follow) n fuel s enough i) refl
