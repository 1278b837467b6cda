-- ===== src/Examples/Listing.antt =====
-- A directory with one device, on a libusb that counts references by functions.
use native.Mathlib.Decide.{ℕ_discrete}
use android_sdk_custom.Prelude.{
  ℕ, ◌+◌, ◌-◌, ◌≡◌, ◌≤◌, refl, ap, List, [], ◌∷◌, none, some, true, arith, ==_refl, ==_ne,
}
use android_sdk_custom.Ugen.Errors.{answered, high}
use android_sdk_custom.Ugen.Listing.{Entry, skipped, node, Context, fbsd_get_device_list}
use android_sdk_custom.Ugen.References.{one, Counts, fbsd_get_device_list_lem}

-- References and places in the list.
record Tally : Type 0 where
  refs : ℕ → ℕ
  listed : ℕ → ℕ

abbrev context : Context Tally
context = record {
  get_device = λ l s. (l, none);
  alloc_device = λ l s. (record l { refs = λ y. l.refs y + one s y }, some s);
  set_device = λ l dev b a p. l;
  unref_device = λ l dev. record l { refs = λ y. l.refs y - one dev y };
  append = λ l dev.
      (record { refs = λ y. l.refs y + one dev y; listed = λ y. l.listed y + one dev y }, true);
}

drop_one : (r : ℕ → ℕ) (dev y : ℕ) → 1 ≤ r dev → r y - one dev y + one dev y ≡ r y
drop_one r dev y h = elim (ℕ_discrete dev y) [
  | yes e ↦ let q : r dev ≡ r y = ap r e in rw (e, ==_refl y) (omega arith)
  | no n ↦ rw (==_ne dev y n) (omega arith)
]

context_counts : Counts context
context_counts = record {
  refs = λ l. l.refs;
  listed = λ l. l.listed;
  get_refs = λ l s dev y e. cc;
  get_refs_none = λ l s y e. refl;
  get_listed = λ l s y. refl;
  alloc_refs = λ l s dev y e. let q : s ≡ dev = cc in rw q refl;
  alloc_refs_none = λ l s y e. cc;
  alloc_listed = λ l s y. refl;
  set_refs = λ l dev b a y p. refl;
  set_listed = λ l dev b a y p. refl;
  unref_refs = λ l dev y h. drop_one l.refs dev y h;
  unref_listed = λ l dev y. refl;
  append_balance = λ l dev y. omega arith;
  append_floor = λ l dev h. omega arith;
}

abbrev empty : Tally
empty = record { refs = λ y. 0; listed = λ y. 0 }

abbrev directory : List Entry
directory =
    skipped
    ∷ node
        (record { bus = 0; addr = 3; speed = high; described = true; cached = true; sane = true })
    ∷ []

fbsd_get_device_list_lem_example :
    let (m, e) = fbsd_get_device_list context (answered directory) empty in
    context_counts.refs m 3 + context_counts.listed empty 3
    ≡ context_counts.refs empty 3 + context_counts.listed m 3
unfolding context_counts
fbsd_get_device_list_lem_example =
    fbsd_get_device_list_lem context context_counts (answered directory) empty 3 (λ z. omega arith)
