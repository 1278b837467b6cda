-- ===== src/Fastboot/Endpoints.antt =====
-- Which endpoints fill_ifc_info finds.
use mathlib.Core.Path.{subst}
use mathlib.Core.Bool.{or-false}
use android_sdk_custom.Prelude.{
  ℕ, ◌%◌, ◌≤◌, ◌<◌, ◌≡◌, refl, sym, ◌∙◌, ◌⊎◌, List, [], ◌∷◌, Bool, true, false, not, ◌&&◌, ◌||◌,
  leb, leb→le, if◌then◌else◌, Bool-cases, inl, inr, arith,
}
use android_sdk_custom.Fastboot.{
  Endpoint, Setting, DeviceDescriptor, is_bulk, is_in, Filled, fill_endpoints, placed, blank_info,
  fill_ifc_info,
}

abbrev pub is_bulk_in : Endpoint → Bool
is_bulk_in e = is_bulk e && is_in e

abbrev pub is_bulk_out : Endpoint → Bool
is_bulk_out e = is_bulk e && not (is_in e)

abbrev pub any : (Endpoint → Bool) → List Endpoint → Bool
any p [] = false
any p (e ∷ es) = p e || any p es

-- The address of the last endpoint with p, or the given one.
abbrev pub last_address : (Endpoint → Bool) → List Endpoint → ℕ → ℕ
last_address p [] a = a
last_address p (e ∷ es) a = last_address p es (if p e then e.address else a)

pub record Found (es : List Endpoint) (f g : Filled) : Type 0 where
  pub ep_in : g.ep_in ≡ last_address is_bulk_in es f.ep_in
  pub ep_out : g.ep_out ≡ last_address is_bulk_out es f.ep_out
  pub has_in : g.info.has_bulk_in ≡ (any is_bulk_in es || f.info.has_bulk_in)
  pub has_out : g.info.has_bulk_out ≡ (any is_bulk_out es || f.info.has_bulk_out)

seen : (c d : Bool) → (c || true) ≡ (true || d)
seen true d = refl
seen false d = refl

cons_Found :
    (es : List Endpoint) (e : Endpoint) (f r : Filled) (b i : Bool)
    → is_bulk e ≡ b
    → is_in e ≡ i
    → Found es (placed b i e f) r
    → Found (e ∷ es) f r
cons_Found es e f r true true eb ei h = record {
  ep_in = rw (eb, ei) h.ep_in;
  ep_out = rw (eb, ei) h.ep_out;
  has_in = rw (eb, ei) (h.has_in ∙ seen (any is_bulk_in es) f.info.has_bulk_in);
  has_out = rw (eb, ei) h.has_out;
}
cons_Found es e f r true false eb ei h = record {
  ep_in = rw (eb, ei) h.ep_in;
  ep_out = rw (eb, ei) h.ep_out;
  has_in = rw (eb, ei) h.has_in;
  has_out = rw (eb, ei) (h.has_out ∙ seen (any is_bulk_out es) f.info.has_bulk_out);
}
cons_Found es e f r false i eb ei h = record {
  ep_in = rw eb h.ep_in;
  ep_out = rw eb h.ep_out;
  has_in = rw eb h.has_in;
  has_out = rw eb h.has_out;
}

fill_endpoints_lem : (es : List Endpoint) (f : Filled) → Found es f (fill_endpoints es f)
unfolding fill_endpoints
fill_endpoints_lem [] f = record { ep_in = refl; ep_out = refl; has_in = refl; has_out = refl }
fill_endpoints_lem (e ∷ es) f =
    cons_Found es e f (fill_endpoints (e ∷ es) f) (is_bulk e) (is_in e) refl refl
      (fill_endpoints_lem es (placed (is_bulk e) (is_in e) e f))

-- fill_ifc_info sets has_bulk_in exactly when one of the setting's endpoints is bulk IN, and ep_in to
-- the address of the last such endpoint, 0 without one; has_bulk_out and ep_out likewise for bulk OUT.
fill_ifc_info_lem :
    (dd : DeviceDescriptor) (id : Setting) (bus addr : ℕ)
    → let f = fill_ifc_info dd id bus addr in
      (f.info.has_bulk_in ≡ any is_bulk_in id.endpoints)
      × (f.ep_in ≡ last_address is_bulk_in id.endpoints 0)
      × (f.info.has_bulk_out ≡ any is_bulk_out id.endpoints)
      × (f.ep_out ≡ last_address is_bulk_out id.endpoints 0)
unfolding fill_ifc_info
fill_ifc_info_lem dd id bus addr =
    let blank : Filled = record { info = blank_info dd id bus addr; ep_in = 0; ep_out = 0 } in
    let found = fill_endpoints_lem id.endpoints blank in
    (
      found.has_in ∙ or-false (any is_bulk_in id.endpoints),
      found.ep_in,
      found.has_out ∙ or-false (any is_bulk_out id.endpoints),
      found.ep_out,
    )

-- An address that has p's endpoint.
record HasEndpoint (p : Endpoint → Bool) (a : ℕ) : Type 0 where
  pub endpoint : Endpoint
  pub holds : p endpoint ≡ true
  pub address : a ≡ endpoint.address

last_address-HasEndpoint :
    (p : Endpoint → Bool) (es : List Endpoint) (a : ℕ)
    → HasEndpoint p a ⊎ (any p es ≡ true)
    → HasEndpoint p (last_address p es a)
last_address-HasEndpoint p [] a (inl h) = h
last_address-HasEndpoint p [] a (inr e) = ground arith
last_address-HasEndpoint p (e ∷ es) a h = elim (Bool-cases (p e)) [
  | inl t ↦
      let here : HasEndpoint p e.address = record { endpoint = e; holds = t; address = refl } in
      rw t (last_address-HasEndpoint p es e.address (inl here))
  | inr t ↦
      let rest : HasEndpoint p a ⊎ (any p es ≡ true) =
        subst (λ b. HasEndpoint p a ⊎ ((b || any p es) ≡ true)) t h in
      rw t (last_address-HasEndpoint p es a rest)
]

and_right : (b c : Bool) → (b && c) ≡ true → c ≡ true
and_right b c e = ground arith

not-leb : (a b : ℕ) → not (leb a b) ≡ true → b < a
not-leb a b e = ground arith

in_direction : (a : ℕ) → HasEndpoint is_bulk_in a → 128 ≤ a % 256
in_direction a h =
    let le =
      leb→le 128 (h.endpoint.address % 256)
        (and_right (is_bulk h.endpoint) (is_in h.endpoint) h.holds) in
    subst (λ x. 128 ≤ x % 256) (sym h.address) le

out_direction : (a : ℕ) → HasEndpoint is_bulk_out a → a % 256 < 128
out_direction a h =
    let lt =
      not-leb 128 (h.endpoint.address % 256)
        (and_right (is_bulk h.endpoint) (not (is_in h.endpoint)) h.holds) in
    subst (λ x. x % 256 < 128) (sym h.address) lt

-- The direction bits.
pub fill_ifc_info-directed :
    (dd : DeviceDescriptor) (id : Setting) (bus addr : ℕ)
    → let f = fill_ifc_info dd id bus addr in
      f.info.has_bulk_in ≡ true
      → f.info.has_bulk_out ≡ true
      → (128 ≤ f.ep_in % 256) × (f.ep_out % 256 < 128)
fill_ifc_info-directed dd id bus addr i o =
    let f = fill_ifc_info dd id bus addr in
    let lem = fill_ifc_info_lem dd id bus addr in
    let a = last_address-HasEndpoint is_bulk_in id.endpoints 0 (inr (sym lem.0 ∙ i)) in
    let b = last_address-HasEndpoint is_bulk_out id.endpoints 0 (inr (sym lem.2 ∙ o)) in
    (
      in_direction f.ep_in (subst (HasEndpoint is_bulk_in) (sym lem.1) a),
      out_direction f.ep_out (subst (HasEndpoint is_bulk_out) (sym lem.3) b),
    )
