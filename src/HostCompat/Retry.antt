-- ===== src/HostCompat/Retry.antt =====
-- TEMP_FAILURE_RETRY of patches/misc/host_compat.h: an expression, evaluated again while a signal has
-- interrupted it. The expression is a function on the state of the program.
use android_sdk_custom.Prelude.{
  ℕ, zero, suc, ◌<◌, ◌≡◌, refl, Option, none, some, Bool, true, false, arith, if◌then◌else◌, ◌==◌,
}

-- The value of the expression, `none` for -1, and errno after it.
pub record Outcome : Type 0 where
  pub value : Option ℕ
  pub errno : ℕ

-- `__result == -1 && errno == EINTR`
unfoldable pub is_interrupted : ℕ → Outcome → Bool
is_interrupted eintr o = elim o.value [ none ↦ o.errno == eintr | some v ↦ false ]

module _ {ℓ} {S : Type ℓ} (eintr : ℕ) (expression : S → S × Outcome) where
  -- The loop, with the number of evaluations that it may use.
  unfoldable pub retry : ℕ → S → Option (S × Outcome)
  retry zero s = none
  retry (suc fuel) s =
      let (t, o) = expression s in
      let again = retry fuel t in if is_interrupted eintr o then again else some (t, o)

  -- The state after n evaluations.
  abbrev pub after : ℕ → S → S
  after zero s = s
  after (suc n) s = after n (expression s).0

  -- The first n evaluations are interrupted, and the one after them is not.
  abbrev pub Interrupted : ℕ → S → Type 0
  Interrupted zero s = is_interrupted eintr (expression s).1 ≡ false
  Interrupted (suc n) s =
      (is_interrupted eintr (expression s).1 ≡ true) × Interrupted n (expression s).0

  pub retry_lem :
      (n fuel : ℕ) (s : S)
      → n < fuel
      → Interrupted n s
      → retry fuel s ≡ some (expression (after n s))
  unfolding retry
  retry_lem n zero s lt i = absurd (omega arith)
  retry_lem zero (suc fuel) s lt i = rw i refl
  retry_lem (suc n) (suc fuel) s lt i = rw i.0 (retry_lem n fuel (expression s).0 (omega arith) i.1)

  -- It never gives an interrupted outcome.
  pub retry-is_interrupted :
      (fuel : ℕ) (s t : S) (o : Outcome)
      → retry fuel s ≡ some (t, o)
      → is_interrupted eintr o ≡ false
  unfolding retry
  retry-is_interrupted zero s t o e = cc
  retry-is_interrupted (suc fuel) s t o e =
      ground (arith, retry-is_interrupted fuel (expression s).0 t o)
