-- ===== src/Termux/Directories.antt =====
-- patches/termux/libtermuxadb/src/lib.rs: the virtual directories. A path is the list of its names,
-- the last one first; the names are of a type N, with strcmp as a test for equality and one for order.
pub mod Listed
use android_sdk_custom.Prelude.{
  ℕ, ◌+◌, List, [], ◌∷◌, Option, none, some, Bool, true, false, ◌&&◌, if◌then◌else◌, get_elem?,
}

-- The fields of `dirent` that are set from the path: the name, and DT_DIR or DT_CHR.
pub record Entry {ℓ} (N : Type ℓ) : Type ℓ where
  pub name : N
  pub is_dir : Bool

pub record DirStream {ℓ} (N : Type ℓ) : Type ℓ where
  pub pos : ℕ
  pub entry : List (Entry N)

module _ {ℓ} {N : Type ℓ} where
  -- termuxadb_readdir of a virtual directory; `none` is a null pointer.
  unfoldable pub readdir : DirStream N → DirStream N × Option (Entry N)
  readdir d = elim (get_elem? d.entry d.pos) [
    | some e ↦ (record d { pos = d.pos + 1 }, some e)
    | none ↦ (d, none)
  ]

module _ {ℓ} {N : Type ℓ} (same before : N → N → Bool) where
  unfoldable pub same_path : List N → List N → Bool
  same_path [] [] = true
  same_path [] (q ∷ qs) = false
  same_path (p ∷ ps) [] = false
  same_path (p ∷ ps) (q ∷ qs) = same p q && same_path ps qs

  -- BTreeSet::insert
  unfoldable pub insert : Entry N → List (Entry N) → List (Entry N)
  insert e [] = e ∷ []
  insert e (x ∷ xs) =
      let rest = insert e xs in
      if same e.name x.name then x ∷ xs else if before e.name x.name then e ∷ x ∷ xs else x ∷ rest

  -- `dir_map.entry(...).and_modify(...).or_insert(...)`
  unfoldable pub add :
      List N → Entry N → List (List N × List (Entry N)) → List (List N × List (Entry N))
  unfolding insert same_path
  add dir e [] = (dir, e ∷ []) ∷ []
  add dir e ((d, es) ∷ m) =
      let rest = add dir e m in if same_path d dir then (d, insert e es) ∷ m else (d, es) ∷ rest

  -- The loop of update_dir_map with last_entry and current_dir; `none` is the panic of the unwrap.
  unfoldable pub climb :
      List N
      → Entry N
      → List N
      → List (List N × List (Entry N))
      → Option (List (List N × List (Entry N)))
  unfolding add
  climb base last [] m = some m
  climb base last (c ∷ []) m = none
  climb base last (c ∷ d ∷ dir) m =
      let next = climb base (record { name = d; is_dir = true }) (d ∷ dir) (add (d ∷ dir) last m) in
      if same_path (d ∷ dir) base then some (add (d ∷ dir) last m) else next

  -- A path without a last name is ignored.
  unfoldable pub update_dir_map :
      List N → List N → List (List N × List (Entry N)) → Option (List (List N × List (Entry N)))
  unfolding climb
  update_dir_map base [] m = some m
  update_dir_map base (c ∷ dir) m = climb base (record { name = c; is_dir = false }) (c ∷ dir) m

  -- The entries of a directory.
  unfoldable pub entries : List N → List (List N × List (Entry N)) → List (Entry N)
  unfolding same_path
  entries dir [] = []
  entries dir ((d, es) ∷ m) = let rest = entries dir m in if same_path d dir then es else rest
