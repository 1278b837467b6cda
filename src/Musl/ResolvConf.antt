-- ===== src/Musl/ResolvConf.antt =====
-- network/resolvconf.c: __get_resolv_conf. Bytes are numbers, and a pointer into a string is the rest
-- of it, without its terminator: a read behind the end gives 0.
pub mod Bounds
use Prim.Native.Char.{code}
use Prim.Native.String.{String}
use android_sdk_custom.Prelude.{
  ℕ, zero, suc, ◌+◌, ◌*◌, ◌-◌, List, [], ◌∷◌, ◌++◌, Option, none, some, Bool, true, false, ◌&&◌,
  ◌||◌, not, ◌==◌, ltb, leb, if◌then◌else◌, get_or, drop, min, length,
}

abbrev pub codes : String → List ℕ
codes String.[] = []
codes (String.◌∷◌ c s) = code c ∷ codes s

abbrev pub is_space : ℕ → Bool
is_space c = (c == 32) || (leb 9 c && leb c 13)

abbrev pub is_digit : ℕ → Bool
is_digit c = leb 48 c && leb c 57

-- `!strncmp(line, word, strlen(word))`
unfoldable pub starts_with : List ℕ → List ℕ → Bool
starts_with [] line = true
starts_with (w ∷ word) [] = false
starts_with (w ∷ word) (c ∷ line) = (w == c) && starts_with word line

unfoldable pub strstr : List ℕ → List ℕ → Option (List ℕ)
unfolding starts_with
strstr word [] = if starts_with word [] then some [] else none
strstr word (c ∷ line) = if starts_with word (c ∷ line) then some (c ∷ line) else strstr word line

-- The value of the digits that stand first, after acc.
unfoldable pub digits_value : ℕ → List ℕ → ℕ
digits_value acc [] = acc
digits_value acc (c ∷ cs) =
    let rest = digits_value (acc * 10 + (c - 48)) cs in if is_digit c then rest else acc

-- `strtoul` in base 10, at a digit or a full stop; without a digit there is no conversion.
unfoldable pub strtoul : ℕ → List ℕ → Option ℕ
unfolding digits_value
strtoul ulong_max p =
    if is_digit (get_or p 0 0) then some (min (digits_value 0 p) ulong_max) else none

-- `x > cap ? cap : x` of the number behind name, if a digit (or a full stop) stands there.
unfoldable pub option_value : ℕ → List ℕ → Bool → ℕ → List ℕ → ℕ → ℕ
unfolding strstr strtoul
option_value ulong_max name or_dot cap line old = elim (strstr name line) [
  | none ↦ old
  | some p ↦
      let c = get_or p (length name) 0 in
      if is_digit c || (or_dot && (c == b'.'))
      then elim (strtoul ulong_max (drop (length name) p)) [
        | none ↦ old
        | some x ↦ if ltb cap x then cap else x
      ]
      else old
]

unfoldable pub skip_space : List ℕ → List ℕ
skip_space [] = []
skip_space (c ∷ cs) = if is_space c then skip_space cs else c ∷ cs

unfoldable pub until_space : List ℕ → List ℕ
until_space [] = []
until_space (c ∷ cs) = let rest = until_space cs in if is_space c then [] else c ∷ rest

-- The bytes of a C string.
unfoldable pub until_nul : List ℕ → List ℕ
until_nul [] = []
until_nul (c ∷ cs) = let rest = until_nul cs in if c == 0 then [] else c ∷ rest

unfoldable pub has_newline : List ℕ → Bool
has_newline [] = false
has_newline (c ∷ cs) = (c == b'\n') || has_newline cs

-- `do c = getc(f); while (c != '\n' && c != EOF);`
unfoldable pub skip_line : List ℕ → List ℕ
skip_line [] = []
skip_line (c ∷ cs) = if c == b'\n' then cs else skip_line cs

-- What fgets reads: the bytes, the rest of the file, and whether it met the end of the file.
pub record Line : Type 0 where
  pub text : List ℕ
  pub rest : List ℕ
  pub eof : Bool

-- fgets with room for n bytes before the terminator.
unfoldable pub take_line : ℕ → List ℕ → Line
take_line zero file = record { text = []; rest = file; eof = false }
take_line (suc n) [] = record { text = []; rest = []; eof = true }
take_line (suc n) (c ∷ file) =
    let more = take_line n file in
    if c == b'\n'
    then record { text = c ∷ []; rest = file; eof = false }
    else record { text = c ∷ more.text; rest = more.rest; eof = more.eof }

-- `struct resolvconf`: ns holds the entries that are counted by nns; one is `none` if the literal was
-- refused.
pub record Conf (A : Type 0) : Type 0 where
  pub ndots : ℕ
  pub timeout : ℕ
  pub attempts : ℕ
  pub ns : List (Option A)
  pub search_list : Option (List ℕ)

abbrev pub maxns : ℕ
maxns = 3

abbrev pub line_size : ℕ
line_size = 256

-- How the file opens: its bytes, an errno of ENOENT, ENOTDIR or EACCES, or another one.
pub data Opened : Type 0 where
  contents : List ℕ → Opened
  absent : Opened
  failing : Opened

-- `__lookup_ipliteral`, with an address where it returns a positive number; the largest unsigned
-- long; and the size of the caller's search buffer, if it has one.
module _ {A : Type 0} (lookup_ipliteral : List ℕ → Option A) (ulong_max search_sz : ℕ) where
  unfoldable pub options_line : Conf A → List ℕ → Conf A
  unfolding option_value
  options_line c line = record c {
    ndots = option_value ulong_max (codes "ndots:") false 15 line c.ndots;
    attempts = option_value ulong_max (codes "attempts:") false 10 line c.attempts;
    timeout = option_value ulong_max (codes "timeout:") true 60 line c.timeout;
  }

  unfoldable pub nameserver_line : Conf A → List ℕ → Conf A
  unfolding skip_space until_space
  nameserver_line c line =
      if leb maxns (length c.ns)
      then c
      else elim (lookup_ipliteral (until_space (skip_space (drop 11 line)))) [
        | none ↦ c
        | some a ↦ record c { ns = c.ns ++ some a ∷ [] }
      ]

  unfoldable pub search_line : Conf A → List ℕ → Conf A
  unfolding starts_with skip_space
  search_line c line = record c {
    search_list = elim c.search_list [
      | none ↦ none
      | some old ↦
          if (not (starts_with (codes "domain") line) && not (starts_with (codes "search") line))
            || not (is_space (get_or line 6 0))
          then some old
          else if leb search_sz (length (skip_space (drop 7 line)))
          then some old
          else some (skip_space (drop 7 line))
    ];
  }

  unfoldable pub one_line : Conf A → List ℕ → Conf A
  unfolding options_line nameserver_line search_line starts_with
  one_line c line =
      if starts_with (codes "options") line && is_space (get_or line 7 0)
      then options_line c line
      else if starts_with (codes "nameserver") line && is_space (get_or line 10 0)
      then nameserver_line c line
      else search_line c line

  -- The loop over the lines, with fuel.
  unfoldable pub read_loop : ℕ → Conf A → List ℕ → Option (Conf A)
  unfolding one_line take_line until_nul has_newline skip_line
  read_loop zero c file = none
  read_loop (suc fuel) c [] = some c
  read_loop (suc fuel) c (b ∷ file) =
      let line = take_line (line_size - 1) (b ∷ file) in
      let text = until_nul line.text in
      let skipped = read_loop fuel c (skip_line line.rest) in
      let handled = read_loop fuel (one_line c text) line.rest in
      if not (has_newline text) && not line.eof then skipped else handled

  -- `no_resolv_conf:` and the end.
  unfoldable pub fall_back : Conf A → Conf A
  fall_back c =
      if length c.ns == 0 then record c { ns = lookup_ipliteral (codes "127.0.0.1") ∷ [] } else c

  abbrev pub initial : Bool → Conf A
  initial wants_search = record {
    ndots = 1;
    timeout = 5;
    attempts = 2;
    ns = [];
    search_list = if wants_search then some [] else none;
  }

  -- `none`: out of fuel. `some none`: -1.
  unfoldable pub get_resolv_conf : ℕ → Bool → Bool → Opened → Option (Option (Conf A))
  unfolding read_loop fall_back
  get_resolv_conf fuel is_android wants_search file =
      if is_android
      then some (
          some (record (initial wants_search) {
            ns = lookup_ipliteral (codes "8.8.8.8") ∷ lookup_ipliteral (codes "1.1.1.1") ∷ [];
          }))
      else elim file [
        | failing ↦ some none
        | absent ↦ some (some (fall_back (initial wants_search)))
        | contents bytes ↦ elim (read_loop fuel (initial wants_search) bytes) [
          | none ↦ none
          | some c ↦ some (some (fall_back c))
        ]
      ]
