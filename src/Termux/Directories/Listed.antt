-- ===== src/Termux/Directories/Listed.antt =====
-- A device that was handed over is found in its virtual directory.
use android_sdk_custom.Prelude.{
  ◌≡◌, refl, List, [], ◌∷◌, ◌++◌, Option, some, Bool, true, false, ◌||◌, inl, inr, arith,
  Bool-cases,
}
use android_sdk_custom.Termux.Directories.{
  Entry, same_path, insert, add, climb, update_dir_map, entries,
}

module _ {ℓ} {N : Type ℓ} (same before : N → N → Bool) (same_refl : (n : N) → same n n ≡ true) where
  -- A directory has an entry with this name.
  abbrev pub names : N → List (Entry N) → Bool
  names n [] = false
  names n (e ∷ es) = same n e.name || names n es

  same_path_refl : (p : List N) → same_path same before p p ≡ true
  unfolding same_path
  same_path_refl [] = refl
  same_path_refl (n ∷ p) = rw (same_refl n, same_path_refl p) refl

  insert-names : (e : Entry N) (es : List (Entry N)) → names e.name (insert same before e es) ≡ true
  unfolding insert
  insert-names e [] = rw (same_refl e.name) refl
  insert-names e (x ∷ es) = ground (arith, insert-names e es, same_refl e.name)

  insert_keeps :
      (n : N) (e : Entry N) (es : List (Entry N))
      → names n es ≡ true
      → names n (insert same before e es) ≡ true
  unfolding insert
  insert_keeps n e [] h = cc
  insert_keeps n e (x ∷ es) h = ground (arith, insert_keeps n e es)

  add-names :
      (dir : List N) (e : Entry N) (m : List (List N × List (Entry N)))
      → names e.name (entries same before dir (add same before dir e m)) ≡ true
  unfolding add entries
  add-names dir e [] = rw (same_path_refl dir, same_refl e.name) refl
  add-names dir e ((d, es) ∷ m) = ground (arith, add-names dir e m, insert-names e es)

  add_keeps :
      (n : N) (at dir : List N) (e : Entry N) (m : List (List N × List (Entry N)))
      → names n (entries same before at m) ≡ true
      → names n (entries same before at (add same before dir e m)) ≡ true
  unfolding add entries
  add_keeps n at dir e [] h = cc
  add_keeps n at dir e ((d, es) ∷ m) h = ground (arith, add_keeps n at dir e m, insert_keeps n e es)

  climb_keeps :
      (n : N) (at base cur : List N) (last : Entry N) (m m' : List (List N × List (Entry N)))
      → names n (entries same before at m) ≡ true
      → climb same before base last cur m ≡ some m'
      → names n (entries same before at m') ≡ true
  unfolding climb
  climb_keeps n at base [] last m m' h e = ground arith
  climb_keeps n at base (c ∷ []) last m m' h e = cc
  climb_keeps n at base (c ∷ d ∷ dir) last m m' h e =
      let added = add_keeps n at (d ∷ dir) last m h in
      elim (Bool-cases (same_path same before (d ∷ dir) base)) [
        | inl b ↦ ground (arith, added)
        | inr b ↦
            let later : climb same before base (record { name = d; is_dir = true }) (d ∷ dir)
                  (add same before (d ∷ dir) last m)
                ≡ some m' =
              ground arith in
            climb_keeps n at base (d ∷ dir) (record { name = d; is_dir = true })
              (add same before (d ∷ dir) last m) m' added later
      ]

  -- The loop returned, and the directory has the name.
  abbrev pub Lists : N → List N → Option (List (List N × List (Entry N))) → Type ℓ
  Lists n dir o =
      (m : List (List N × List (Entry N))) × ((o ≡ some m)
        × (names n (entries same before dir m) ≡ true))

  climb-Lists :
      (c b : N) (ds bs : List N) (last : Entry N) (m : List (List N × List (Entry N)))
      → Lists last.name (ds ++ b ∷ bs) (climb same before (b ∷ bs) last (c ∷ (ds ++ b ∷ bs)) m)
  unfolding climb
  climb-Lists c b [] bs last m =
      rw (same_path_refl (b ∷ bs))
        (add same before (b ∷ bs) last m, (refl, add-names (b ∷ bs) last m))
  climb-Lists c b (d ∷ ds) bs last m =
      let added = add-names (d ∷ (ds ++ b ∷ bs)) last m in
      elim (Bool-cases (same_path same before (d ∷ (ds ++ b ∷ bs)) (b ∷ bs))) [
        | inl e ↦ rw e (add same before (d ∷ (ds ++ b ∷ bs)) last m, (refl, added))
        | inr e ↦
            let up : Entry N = record { name = d; is_dir = true } in
            let (m', (ends, above)) =
              climb-Lists d b ds bs up (add same before (d ∷ (ds ++ b ∷ bs)) last m) in
            rw e (
              m',
              (
                ends,
                climb_keeps last.name (d ∷ (ds ++ b ∷ bs)) (b ∷ bs) (d ∷ (ds ++ b ∷ bs)) up
                    (add same before (d ∷ (ds ++ b ∷ bs)) last m) m' added ends,
              ),
            )
      ]

  -- For a device whose path lies under a base directory that is not the root, update_dir_map does
  -- not panic, and the device's directory then lists its name, whatever was listed before.
  pub update_dir_map-Lists :
      (c b : N) (ds bs : List N) (m : List (List N × List (Entry N)))
      → Lists c (ds ++ b ∷ bs) (update_dir_map same before (b ∷ bs) (c ∷ (ds ++ b ∷ bs)) m)
  unfolding update_dir_map
  update_dir_map-Lists c b ds bs m = climb-Lists c b ds bs (record { name = c; is_dir = false }) m
