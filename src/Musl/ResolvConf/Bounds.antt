-- ===== src/Musl/ResolvConf/Bounds.antt =====
-- __get_resolv_conf ends, and its numbers are in range.
use android_sdk_custom.Prelude.{
  ℕ, zero, suc, ◌-◌, ◌≤◌, ◌<◌, ◌≡◌, refl, ◌⊎◌, inl, inr, List, [], ◌∷◌, Option, none, some, Bool,
  true, false, ◌&&◌, not, ◌==◌, leb, drop, length, length-append, arith, Bool-cases, Option-cases,
  if_both,
}
use android_sdk_custom.Musl.ResolvConf.{
  codes, strstr, strtoul, option_value, skip_space, until_space, skip_line, take_line, until_nul,
  has_newline, Conf, maxns, line_size, options_line, nameserver_line, search_line, one_line,
  read_loop, fall_back, initial, get_resolv_conf, Opened, contents, absent, failing,
}

option_value_bound :
    (ulong_max : ℕ) (name : List ℕ) (or_dot : Bool) (cap : ℕ) (line : List ℕ) (old : ℕ)
    → old ≤ cap
    → option_value ulong_max name or_dot cap line old ≤ cap
unfolding option_value
option_value_bound ulong_max name or_dot cap line old h = elim (Option-cases (strstr name line)) [
  | inl n ↦ rw (n, option_value) h
  | inr (p, n) ↦ elim (Option-cases (strtoul ulong_max (drop (length name) p))) [
    | inl m ↦ rw (n, m, option_value) (ground arith)
    | inr (x, m) ↦ rw (n, m, option_value) (ground arith)
  ]
]

pub record InRange {A : Type 0} (c : Conf A) : Type 0 where
  pub ndots : c.ndots ≤ 15
  pub timeout : c.timeout ≤ 60
  pub attempts : c.attempts ≤ 10
  pub servers : length c.ns ≤ maxns

abbrev pub Complete : {A : Type 0} → Conf A → Type 0
Complete c = InRange c × (1 ≤ length c.ns)

abbrev pub Refused : Bool → Opened → Type 0
Refused is_android file = (is_android ≡ false) × (file ≡ failing)

abbrev pub bytes_of : Opened → ℕ
bytes_of (contents bytes) = length bytes
bytes_of absent = 0
bytes_of failing = 0

length-skip_line-le : (file : List ℕ) → length (skip_line file) ≤ length file
unfolding skip_line
length-skip_line-le [] = omega arith
length-skip_line-le (c ∷ file) = ground (arith, length-skip_line-le file)

length-take_line-le : (n : ℕ) (file : List ℕ) → length (take_line n file).rest ≤ length file
unfolding take_line
length-take_line-le zero file = omega arith
length-take_line-le (suc n) [] = omega arith
length-take_line-le (suc n) (c ∷ file) = ground (arith, length-take_line-le n file)

-- A line that is read is not empty.
length-take_line-lt :
    (n b : ℕ) (file : List ℕ) → 0 < n → length (take_line n (b ∷ file)).rest ≤ length file
unfolding take_line
length-take_line-lt zero b file h = absurd (omega arith)
length-take_line-lt (suc n) b file h = ground (arith, length-take_line-le n file)

below : (k n fuel : ℕ) → k ≤ n → suc n < suc fuel → k < fuel
below k n fuel h e = omega arith

below_twice : (j k n fuel : ℕ) → j ≤ k → k ≤ n → suc n < suc fuel → j < fuel
below_twice j k n fuel g h e = omega arith

handled_enough :
    (b : ℕ) (file : List ℕ) (fuel : ℕ)
    → suc (length file) < suc fuel
    → length (take_line (line_size - 1) (b ∷ file)).rest < fuel
handled_enough b file fuel h =
    below _ (length file) fuel (length-take_line-lt (line_size - 1) b file (omega arith)) h

skipped_enough :
    (b : ℕ) (file : List ℕ) (fuel : ℕ)
    → suc (length file) < suc fuel
    → length (skip_line (take_line (line_size - 1) (b ∷ file)).rest) < fuel
skipped_enough b file fuel h =
    below_twice _ _ (length file) fuel
      (length-skip_line-le (take_line (line_size - 1) (b ∷ file)).rest)
      (length-take_line-lt (line_size - 1) b file (omega arith)) h

module _ {A : Type 0} (lookup_ipliteral : List ℕ → Option A) (ulong_max search_sz : ℕ) where
  options_line-InRange :
      (c : Conf A) (line : List ℕ)
      → InRange c
      → InRange (options_line lookup_ipliteral ulong_max search_sz c line)
  unfolding options_line
  options_line-InRange c line v = record {
    ndots = option_value_bound ulong_max (codes "ndots:") false 15 line c.ndots v.ndots;
    timeout = option_value_bound ulong_max (codes "timeout:") true 60 line c.timeout v.timeout;
    attempts = option_value_bound ulong_max (codes "attempts:") false 10 line c.attempts v.attempts;
    servers = v.servers;
  }

  nameserver_line-InRange :
      (c : Conf A) (line : List ℕ)
      → InRange c
      → InRange (nameserver_line lookup_ipliteral ulong_max search_sz c line)
  unfolding nameserver_line
  nameserver_line-InRange c line v =
      elim (Option-cases (lookup_ipliteral (until_space (skip_space (drop 11 line))))) [
        | inl n ↦ rw (n, nameserver_line) (if_both InRange (leb maxns (length c.ns)) v v)
        | inr (a, n) ↦ elim (Bool-cases (leb maxns (length c.ns))) [
          | inl b ↦ rw (n, b, nameserver_line) v
          | inr b ↦
              rw (n, b, nameserver_line)
                (record {
                  ndots = v.ndots;
                  timeout = v.timeout;
                  attempts = v.attempts;
                  servers = ground (arith, length-append c.ns (some a ∷ []));
                })
        ]
      ]

  search_line-InRange :
      (c : Conf A) (line : List ℕ)
      → InRange c
      → InRange (search_line lookup_ipliteral ulong_max search_sz c line)
  unfolding search_line
  search_line-InRange c line v = record {
    ndots = v.ndots;
    timeout = v.timeout;
    attempts = v.attempts;
    servers = v.servers;
  }

  one_line-InRange :
      (c : Conf A) (line : List ℕ)
      → InRange c
      → InRange (one_line lookup_ipliteral ulong_max search_sz c line)
  unfolding one_line
  one_line-InRange c line v =
      if_both InRange _ (options_line-InRange c line v)
        (if_both InRange _ (nameserver_line-InRange c line v) (search_line-InRange c line v))

  -- More fuel than bytes is enough.
  read_loop-InRange :
      (fuel : ℕ) (c : Conf A) (file : List ℕ)
      → InRange c
      → length file < fuel
      → (r : Conf A) × (read_loop lookup_ipliteral ulong_max search_sz fuel c file ≡ some r)
        × InRange r
  unfolding read_loop
  read_loop-InRange zero c file v h = absurd (omega arith)
  read_loop-InRange (suc fuel) c [] v h = (c, refl, v)
  read_loop-InRange (suc fuel) c (b ∷ file) v h =
      if_both (λ x. (r : Conf A) × (x ≡ some r) × InRange r)
        (not (has_newline (until_nul (take_line (line_size - 1) (b ∷ file)).text))
          && not (take_line (line_size - 1) (b ∷ file)).eof)
        (read_loop-InRange fuel c (skip_line (take_line (line_size - 1) (b ∷ file)).rest) v
          (skipped_enough b file fuel h))
        (read_loop-InRange fuel
          (one_line lookup_ipliteral ulong_max search_sz c
            (until_nul (take_line (line_size - 1) (b ∷ file)).text))
          (take_line (line_size - 1) (b ∷ file)).rest
          (one_line-InRange c (until_nul (take_line (line_size - 1) (b ∷ file)).text) v)
          (handled_enough b file fuel h))

  fall_back-Complete :
      (c : Conf A) → InRange c → Complete (fall_back lookup_ipliteral ulong_max search_sz c)
  unfolding fall_back
  fall_back-Complete c v = elim (Bool-cases (length c.ns == 0)) [
    | inl b ↦
        rw (b, fall_back)
          (
            record {
              ndots = v.ndots;
              timeout = v.timeout;
              attempts = v.attempts;
              servers = omega arith;
            },
            omega arith,
          )
    | inr b ↦ rw (b, fall_back) (v, ground arith)
  ]

  initial-InRange :
      (wants_search : Bool) → InRange (initial lookup_ipliteral ulong_max search_sz wants_search)
  initial-InRange w = record {
    ndots = omega arith;
    timeout = omega arith;
    attempts = omega arith;
    servers = omega arith;
  }

  android :
      (w : Bool)
      → Complete (record (initial lookup_ipliteral ulong_max search_sz w) {
        ns = lookup_ipliteral (codes "8.8.8.8") ∷ lookup_ipliteral (codes "1.1.1.1") ∷ [];
      })
  android w = (
    record {
      ndots = omega arith;
      timeout = omega arith;
      attempts = omega arith;
      servers = omega arith;
    },
    omega arith,
  )

  -- With more fuel than the file has bytes, __get_resolv_conf ends. It returns -1 where it is not on
  -- Android and the file does not open for another reason than ENOENT, ENOTDIR and EACCES, and only
  -- there. Otherwise it returns a configuration with one to three name servers, ndots at most 15, a timeout of at most
  -- 60 and at most 10 attempts.
  pub get_resolv_conf_lem :
      (fuel : ℕ) (is_android wants_search : Bool) (file : Opened)
      → bytes_of file < fuel
      → ((get_resolv_conf lookup_ipliteral ulong_max search_sz fuel is_android wants_search file
            ≡ some none)
          × Refused is_android file)
        ⊎ ((c : Conf A) × (get_resolv_conf lookup_ipliteral ulong_max search_sz fuel is_android
                wants_search file
              ≡ some (some c))
            × Complete c
            × ¬ Refused is_android file)
  unfolding get_resolv_conf
  get_resolv_conf_lem fuel true w file h = inr (_, refl, android w, λ r. cc (r.0))
  get_resolv_conf_lem fuel false w failing h = inl (refl, (refl, refl))
  get_resolv_conf_lem fuel false w absent h = inr (
    _,
    refl,
    fall_back-Complete (initial lookup_ipliteral ulong_max search_sz w) (initial-InRange w),
    λ r. cc (r.1),
  )
  get_resolv_conf_lem fuel false w (contents bytes) h =
      let (c, e, v) =
        read_loop-InRange fuel (initial lookup_ipliteral ulong_max search_sz w) bytes
          (initial-InRange w) h in
      inr (_, rw (e, get_resolv_conf) refl, fall_back-Complete c v, λ r. cc (r.1))
