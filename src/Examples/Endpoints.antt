-- ===== src/Examples/Endpoints.antt =====
-- A driver with one completion at most, on which two endpoints are opened.
use android_sdk_custom.Prelude.{
  ◌≡◌, ◌≢◌, refl, ℕ, List, [], ◌∷◌, Bool, true, false, arith, some, if◌then◌else◌, zero, suc,
  get_elem?,
}
use android_sdk_custom.Ugen.Errors.{failed, answered, ebusy}
use android_sdk_custom.Ugen.Slots.{HandlePriv, Driver, fs_slot}
use android_sdk_custom.Ugen.Binding.{IsValid, Grants}
use android_sdk_custom.Ugen.Choice.{Outcome, fs_slot_lem}
use android_sdk_custom.Ugen.Transfer.{Look}

-- The Boolean says whether slot 0 has a completion.
abbrev driver : Driver Bool
driver = record {
  fs_open = λ k r. (k, answered r.max_bufsize);
  fs_close = λ k i. k;
  fs_start = λ k i. (true, answered tt);
  fs_stop = λ k i. k;
  fs_complete = λ k. (
    false,
    if k then answered (record { ep_index = 0; status = 0; length = 10 }) else failed ebusy,
  );
  fs_max_bufsize = 65536;
  err_timeout = 16;
  err_stalled = 17;
  single_short_ok = 1;
}

abbrev pending_of : Bool → ℕ
pending_of true = 1
pending_of false = 0

driver-Grants : Grants driver
driver-Grants k r granted e = let q : r.max_bufsize ≡ granted = cc in omega arith

-- Slot 0 is bound to endpoint 129.
abbrev one_bound : HandlePriv
one_bound = record {
  fd = some 3;
  fs_inited = true;
  fs_status = 0 ∷ 0 ∷ 0 ∷ 0 ∷ [];
  fs_timeout = 0 ∷ 0 ∷ 0 ∷ 0 ∷ [];
  fs_flags = 0 ∷ 0 ∷ 0 ∷ 0 ∷ [];
  ppbuf = 0 ∷ 0 ∷ 0 ∷ 0 ∷ [];
  plen = 0 ∷ 0 ∷ 0 ∷ 0 ∷ [];
  ep_no = 129 ∷ 0 ∷ 0 ∷ 0 ∷ [];
  ep_bufsize = 512 ∷ 0 ∷ 0 ∷ 0 ∷ [];
  done = false ∷ false ∷ false ∷ false ∷ [];
  cstatus = 0 ∷ 0 ∷ 0 ∷ 0 ∷ [];
  cactlen = 0 ∷ 0 ∷ 0 ∷ 0 ∷ [];
}

bound_at_0 : (i e : ℕ) → get_elem? one_bound.ep_no i ≡ some e → e ≢ 0 → i ≡ 0
bound_at_0 zero e h n = refl
bound_at_0 (suc zero) e h n = let q : e ≡ 0 = cc in absurd (n q)
bound_at_0 (suc (suc zero)) e h n = let q : e ≡ 0 = cc in absurd (n q)
bound_at_0 (suc (suc (suc zero))) e h n = let q : e ≡ 0 = cc in absurd (n q)
bound_at_0 (suc (suc (suc (suc i)))) e h n = cc

one_bound-IsValid : IsValid one_bound
one_bound-IsValid = record {
  slots = refl;
  sizes = refl;
  unique = λ i j e a b n. omega (arith, bound_at_0 i e a n, bound_at_0 j e b n);
}

-- Endpoint 2 gets slot 1.
fs_slot_lem_example :
    let (g, k, r) = fs_slot driver one_bound false 2 1000 in
    IsValid g × Outcome driver 2 1000 one_bound false g r
fs_slot_lem_example =
    fs_slot_lem driver 2 1000 one_bound false driver-Grants (omega arith) one_bound-IsValid

abbrev looks : List Look
looks =
    record { hangup = false; flagged = false; ms = 0 }
    ∷ record { hangup = false; flagged = false; ms = 100 }
    ∷ []
