-- ===== src/ExePath/Directories.antt =====
-- The loop of libbase_bsd_exe_path.inc over PATH, and the directories that PATH names.
use android_sdk_custom.Prelude.{
  ℕ, zero, suc, ◌+◌, ◌<◌, ◌≤◌, ◌≡◌, refl, List, [], ◌∷◌, none, some, true, false, ◌==◌, leb,
  if◌then◌else◌, length, take, drop, inl, inr, arith, Bool-cases, length-drop, drop-drop, ◌∙◌, ap,
  sym,
}
use android_sdk_custom.ExePath.{
  Platform, System, index_or_size, candidate, resolved, search_path, search_list, from_kernel,
  argument, resolve_argument, sdk_bsd_executable_path, ltb,
}

-- A byte put in front of the first string.
abbrev pub on_first : ℕ → List (List ℕ) → List (List ℕ)
on_first c [] = (c ∷ []) ∷ []
on_first c (s ∷ ss) = (c ∷ s) ∷ ss

-- The strings between the colons: of a string with n colons, n + 1.
unfoldable pub directories : List ℕ → List (List ℕ)
directories [] = [] ∷ []
directories (c ∷ cs) = let rest = directories cs in if c == b':' then [] ∷ rest else on_first c rest

-- The first directory with an executable program of this name that realpath resolves.
unfoldable pub first_of : System → List ℕ → List (List ℕ) → List ℕ
first_of sys arg0 [] = arg0
first_of sys arg0 (dir ∷ dirs) =
    let rest = first_of sys arg0 dirs in
    elim (resolved sys (candidate dir arg0)) [ none ↦ rest | some path ↦ path ]

index-le : (c : ℕ) (s : List ℕ) → index_or_size c s ≤ length s
unfolding index_or_size
index-le c [] = omega arith
index-le c (x ∷ xs) = ground (arith, index-le c xs)

-- With a colon: the directory before it, and those behind it.
directories-colon :
    (s : List ℕ)
    → index_or_size b':' s < length s
    → directories s
      ≡ take (index_or_size b':' s) s ∷ directories (drop (suc (index_or_size b':' s)) s)
unfolding directories index_or_size
directories-colon [] lt = absurd (omega arith)
directories-colon (c ∷ cs) lt = elim (Bool-cases (c == b':')) [
  | inl b ↦ rw b refl
  | inr b ↦
      let shorter : index_or_size b':' cs < length cs = ground arith in
      rw b (rw (directories-colon cs shorter) refl)
]

directories_last :
    (s : List ℕ)
    → index_or_size b':' s ≡ length s
    → directories s ≡ take (index_or_size b':' s) s ∷ []
unfolding directories index_or_size
directories_last [] e = refl
directories_last (c ∷ cs) e = elim (Bool-cases (c == b':')) [
  | inl b ↦ absurd (ground arith)
  | inr b ↦
      let same : index_or_size b':' cs ≡ length cs = ground arith in
      rw b (rw (directories_last cs same) refl)
]

module _ (sys : System) (arg0 paths : List ℕ) where
  past_end :
      (fuel start : ℕ)
      → 0 < fuel
      → length paths < start
      → search_path sys arg0 paths fuel start ≡ some arg0
  unfolding search_path
  past_end zero start some_fuel past = absurd (omega arith)
  past_end (suc fuel) start some_fuel past =
      let closed : leb start (length paths) ≡ false = ground arith in rw closed refl

  pub search_path-directories :
      (fuel start : ℕ)
      → start ≤ length paths
      → length paths + 1 < fuel + start
      → search_path sys arg0 paths fuel start
        ≡ some (first_of sys arg0 (directories (drop start paths)))
  unfolding search_path first_of
  search_path-directories zero start inside enough = absurd (omega arith)
  search_path-directories (suc fuel) start inside enough =
      let s = drop start paths in
      let n = index_or_size b':' s in
      let room = length-drop start paths inside in
      let within = index-le b':' s in
      let running : leb start (length paths) ≡ true = ground arith in
      elim (Bool-cases (ltb n (length s))) [
        | inl b ↦
            let more : n < length s = ground arith in
            let next : start + n + 1 ≡ start + suc n = omega arith in
            let behind : drop (suc n) s ≡ drop (start + n + 1) paths =
              drop-drop start (suc n) paths ∙ ap (λ m. drop m paths) (sym next) in
            let later : search_path sys arg0 paths fuel (start + n + 1)
                ≡ some (first_of sys arg0 (directories (drop (suc n) s))) =
              rw behind
                (search_path-directories fuel (start + n + 1) (omega arith) (omega arith)) in
            rw (running, directories-colon s more, first_of) (ground (arith, later))
        | inr b ↦
            let last : n ≡ length s = ground arith in
            let later = past_end fuel (start + n + 1) (omega arith) (omega arith) in
            rw (running, directories_last s last, first_of) (ground (arith, later))
      ]

-- The program's path without an index or a bound: what the kernel says; else the argument resolved,
-- if it has a slash; else the first directory of PATH that has the program.
abbrev pub described : Platform → System → List ℕ
described p sys =
    let arg0 = argument p sys in
    elim (from_kernel p sys) [
      | some path ↦ path
      | none ↦
          if ltb (index_or_size b'/' arg0) (length arg0)
          then elim (sys.realpath arg0) [ none ↦ arg0 | some path ↦ path ]
          else first_of sys arg0 (directories (search_list sys))
    ]

-- With more fuel than PATH has bytes, and one for its end, the function returns: the path that the
-- kernel gives, if it gives one; else, for an argument with a slash, what realpath makes of it, or the
-- argument itself; else the first directory between the colons of PATH, the current one for an empty
-- string, in which the program is executable and resolves, or the argument itself if there is none.
pub executable_path-directories :
    (p : Platform) (sys : System) (fuel : ℕ)
    → length (search_list sys) + 1 < fuel
    → sdk_bsd_executable_path p sys fuel ≡ some (described p sys)
unfolding sdk_bsd_executable_path resolve_argument
executable_path-directories p sys fuel enough = ground (
  arith,
  search_path-directories sys (argument p sys) (search_list sys) fuel 0 (omega arith) (omega arith),
)
