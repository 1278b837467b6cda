-- ===== src/Interfaces/Distinct.antt =====
-- The names of the interfaces are distinct.
use mathlib.Core.Bool.{or-false, or_assoc}
use android_sdk_custom.Interfaces.{InterfaceInfo, same_name, known, change}
use android_sdk_custom.Prelude.{
  ℕ, ◌≡◌, refl, sym, ap, ◌∙◌, List, [], ◌∷◌, ◌++◌, Bool, false, ◌&&◌, ◌||◌, ◌==◌, arith, if_both,
}

-- No name stands for two interfaces.
abbrev pub Distinct : List InterfaceInfo → Type 0
Distinct [] = Unit {0}
Distinct (i ∷ is) = (known i.name is ≡ false) × Distinct is

==_sym : (a b : ℕ) (c d : Bool) → c ≡ d → ((a == b) && c) ≡ ((b == a) && d)
==_sym a b c d e = ground (arith, e)

same_name_sym : (a b : List ℕ) → same_name a b ≡ same_name b a
same_name_sym [] [] = refl
same_name_sym [] (b ∷ bs) = refl
same_name_sym (a ∷ as') [] = refl
same_name_sym (a ∷ as') (b ∷ bs) =
    ==_sym a b (same_name as' bs) (same_name bs as') (same_name_sym as' bs)

known_append :
    (n : List ℕ) (is : List InterfaceInfo) (j : InterfaceInfo)
    → known n (is ++ (j ∷ [])) ≡ (known n is || same_name j.name n)
unfolding known
known_append n [] j = or-false (same_name j.name n)
known_append n (i ∷ is) j =
    ap (λ b. same_name i.name n || b) (known_append n is j)
    ∙ sym (or_assoc (same_name i.name n) (known n is) (same_name j.name n))

or_false : (a b : Bool) → (a || b) ≡ false → (a ≡ false) × (b ≡ false)
or_false a b e = ground (arith, e)

known-change :
    (n m : List ℕ) (f : InterfaceInfo → InterfaceInfo) (is : List InterfaceInfo)
    → ((i : InterfaceInfo) → (f i).name ≡ i.name)
    → known n (change m f is) ≡ known n is
unfolding known change
known-change n m f [] k = refl
known-change n m f (i ∷ is) k =
    if_both (λ js. known n js ≡ (same_name i.name n || known n is)) (same_name i.name m)
      (ap (λ o. same_name o n || known n is) (k i))
      (ap (λ b. same_name i.name n || b) (known-change n m f is k))

pub change-Distinct :
    (m : List ℕ) (f : InterfaceInfo → InterfaceInfo) (is : List InterfaceInfo)
    → ((i : InterfaceInfo) → (f i).name ≡ i.name)
    → Distinct is
    → Distinct (change m f is)
unfolding change
change-Distinct m f [] k d = tt
change-Distinct m f (i ∷ is) k d =
    if_both Distinct (same_name i.name m) (ap (λ o. known o is) (k i) ∙ d.0, d.1)
      (known-change i.name m f is k ∙ d.0, change-Distinct m f is k d.1)

pub append-Distinct :
    (is : List InterfaceInfo) (j : InterfaceInfo)
    → Distinct is
    → known j.name is ≡ false
    → Distinct (is ++ (j ∷ []))
unfolding known
append-Distinct [] j d e = (refl, tt)
append-Distinct (i ∷ is) j d e =
    let parts = or_false (same_name i.name j.name) (known j.name is) e in
    (
      known_append i.name is j ∙ rw (d.0, same_name_sym j.name i.name, parts.0) refl,
      append-Distinct is j d.1 parts.1,
    )
