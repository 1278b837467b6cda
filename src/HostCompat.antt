-- ===== src/HostCompat.antt =====
-- patches/misc/host_compat.h: Header has the whole header as the preprocessor reads it, this file the
-- fallback of getline, and Devices the device numbers. A buffer is a list of bytes; a write outside of
-- it gives no result.
pub mod Preprocessor
pub mod Header
pub mod Analysis
pub mod Sound
pub mod Guards
pub mod Once
pub mod Effects
pub mod Stubs
pub mod Retry
pub mod Sort
pub mod Lines
pub mod Devices
pub mod Mount
pub mod Search
pub mod MountFirst
use android_sdk_custom.Prelude.{
  ℕ, zero, suc, ◌+◌, ◌*◌, List, [], ◌∷◌, Option, none, some, Bool, true, false, ◌==◌, leb,
  if◌then◌else◌, ◌>>=◌, ◌||◌, not,
}
use android_sdk_custom.Strl.{store}

-- `*lineptr` and `*n`.
pub record Buffer : Type 0 where
  pub bytes : List ℕ
  pub n : ℕ

-- Where the loop stops: the buffer, the rest of the file, pos, and whether there was memory.
pub record Stop : Type 0 where
  pub buffer : Buffer
  pub rest : List ℕ
  pub pos : ℕ
  pub ok : Bool

abbrev pub first_size : ℕ
first_size = 120

abbrev pub new_buffer : (ℕ → Option (List ℕ)) → Option Buffer
new_buffer malloc = elim (malloc first_size) [
  | none ↦ none
  | some bytes ↦ some (record { bytes = bytes; n = first_size })
]

-- `if (*lineptr == NULL || *n == 0)`
unfoldable pub first_buffer : (ℕ → Option (List ℕ)) → Option Buffer → Option Buffer
first_buffer malloc none = new_buffer malloc
first_buffer malloc (some b) = if b.n == 0 then new_buffer malloc else some b

-- `realloc`.
module _ (realloc : List ℕ → ℕ → Option (List ℕ)) where
  -- `if (pos + 1 >= *n)`: the buffer that is grown, and whether there was memory; *n is doubled first.
  unfoldable pub grow : ℕ → Buffer → Buffer × Bool
  grow pos b =
      if leb b.n (pos + 1)
      then elim (realloc b.bytes (b.n * 2)) [
        | none ↦ (record b { n = b.n * 2 }, false)
        | some bytes ↦ (record { bytes = bytes; n = b.n * 2 }, true)
      ]
      else (b, true)

  unfoldable pub read_loop : List ℕ → ℕ → Buffer → Option Stop
  unfolding grow
  read_loop [] pos b = some (record { buffer = b; rest = []; pos = pos; ok = true })
  read_loop (c ∷ file) pos b =
      let (g, ok) = grow pos b in
      let more = store g.bytes pos c >>= λ bytes.
      let rest = read_loop file (pos + 1) (record g { bytes = bytes }) in
      if c == b'\n'
      then some
          (record { buffer = record g { bytes = bytes }; rest = file; pos = pos + 1; ok = true })
      else rest in
      if ok then more else some (record { buffer = g; rest = file; pos = pos; ok = false })

  -- The end of getline: the buffer, the rest of the file, and the length, or `none` for -1.
  unfoldable pub finish_line : Stop → Option (Buffer × List ℕ × Option ℕ)
  finish_line s =
      let ended = store s.buffer.bytes s.pos 0 >>= λ bytes.
      some (record s.buffer { bytes = bytes }, s.rest, some s.pos) in
      if not s.ok || (s.pos == 0) then some (s.buffer, s.rest, none) else ended

  -- A null pointer is no buffer.
  unfoldable pub getline :
      (ℕ → Option (List ℕ)) → Option Buffer → List ℕ → Option (Option Buffer × List ℕ × Option ℕ)
  unfolding read_loop finish_line
  getline malloc lineptr file = elim (first_buffer malloc lineptr) [
    | none ↦ some (none, file, none)
    | some b ↦ read_loop file 0 b >>= finish_line >>= λ (b', rest, n). some (some b', rest, n)
  ]
