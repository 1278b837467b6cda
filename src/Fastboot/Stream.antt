-- ===== src/Fastboot/Stream.antt =====
-- What a write puts on the device's endpoint.
use mathlib.Core.Path.{subst}
use android_sdk_custom.Prelude.{
  length-drop, ℕ, zero, suc, ◌+◌, ◌≤◌, ◌<◌, ◌≡◌, refl, sym, ap, ◌∙◌, List, [], ◌∷◌, ◌++◌, Option,
  none, some, arith, length, take, drop, append_assoc, append-nil, ◌⊎◌, inl, inr, Option-cases,
  length-take-le,
}
use android_sdk_custom.Fastboot.{Usb, Transport, bulk_chunk, write_loop, write}

-- What is relied on of bulk transfers to an endpoint: one that succeeds sends a first part of its bytes
-- and, if there are any, at least one; one that fails has sent some first part.
pub record Pipe {L : Type 0} (u : Usb L) (handle ep : ℕ) : Type 0 where
  pub stream : L → List ℕ
  pub sent :
      (l : L) (bytes : List ℕ) (ms n : ℕ)
      → (u.bulk_out l handle ep bytes ms).1 ≡ some n
      → (n ≤ length bytes) × (stream (u.bulk_out l handle ep bytes ms).0 ≡ stream l ++ take n bytes)
  pub progress :
      (l : L) (bytes : List ℕ) (ms n : ℕ)
      → (u.bulk_out l handle ep bytes ms).1 ≡ some n
      → 0 < length bytes
      → 0 < n
  pub failed :
      (l : L) (bytes : List ℕ) (ms : ℕ)
      → (u.bulk_out l handle ep bytes ms).1 ≡ none
      → (k : ℕ) × (stream (u.bulk_out l handle ep bytes ms).0 ≡ stream l ++ take k bytes)

take-take : (n m : ℕ) (xs : List ℕ) → n ≤ m → take n (take m xs) ≡ take n xs
take-take zero m xs h = refl
take-take (suc n) zero xs h = absurd (omega arith)
take-take (suc n) (suc m) [] h = refl
take-take (suc n) (suc m) (x ∷ xs) h = ap (◌∷◌ x) (take-take n m xs (omega arith))

-- A prefix of a prefix.
take_prefix : (n m : ℕ) (xs : List ℕ) → (k : ℕ) × (take n (take m xs) ≡ take k xs)
take_prefix zero m xs = (0, refl)
take_prefix (suc n) zero xs = (0, refl)
take_prefix (suc n) (suc m) [] = (0, refl)
take_prefix (suc n) (suc m) (x ∷ xs) = let (k, e) = take_prefix n m xs in (suc k, ap (◌∷◌ x) e)

take_then : (n k : ℕ) (xs : List ℕ) → (j : ℕ) × (take n xs ++ take k (drop n xs) ≡ take j xs)
take_then zero k xs = (k, refl)
take_then (suc n) zero [] = (0, refl)
take_then (suc n) (suc k) [] = (0, refl)
take_then (suc n) k (x ∷ xs) = let (j, e) = take_then n k xs in (suc j, ap (◌∷◌ x) e)

take-drop : (n : ℕ) (xs : List ℕ) → take n xs ++ drop n xs ≡ xs
take-drop zero xs = refl
take-drop (suc n) [] = refl
take-drop (suc n) (x ∷ xs) = ap (◌∷◌ x) (take-drop n xs)

length-take-length : (n : ℕ) (xs : List ℕ) → length (take n xs) ≤ length xs
length-take-length zero xs = omega arith
length-take-length (suc n) [] = omega arith
length-take-length (suc n) (x ∷ xs) = omega (arith, length-take-length n xs)

module _ {L : Type 0} (u : Usb L) (handle : ℕ) (t : Transport) (pipe : Pipe u handle t.ep_out) where
  -- Everything was sent and counted; or the call failed behind some first part.
  abbrev pub Sent : ℕ → List ℕ → L → L × Option ℕ → Type 0
  Sent count bytes l (m, r) =
      ((r ≡ some (count + length bytes)) × (pipe.stream m ≡ pipe.stream l ++ bytes))
      ⊎ ((r ≡ none) × ((k : ℕ) × (pipe.stream m ≡ pipe.stream l ++ take k bytes)))

  later :
      (count n : ℕ) (bytes : List ℕ) (l l' : L) (r : L × Option ℕ)
      → n ≤ length bytes
      → pipe.stream l' ≡ pipe.stream l ++ take n bytes
      → Sent (count + n) (drop n bytes) l' r
      → Sent count bytes l r
  later count n bytes l l' (m, r) le e (inl (p, q)) = inl (
    p ∙ ap some (omega (arith, length-drop n bytes le)),
    q
        ∙ ap (λ s. s ++ drop n bytes) e
        ∙ append_assoc (pipe.stream l) (take n bytes) (drop n bytes)
        ∙ ap (λ s. pipe.stream l ++ s) (take-drop n bytes),
  )
  later count n bytes l l' (m, r) le e (inr (p, (k, q))) =
      let (j, f) = take_then n k bytes in
      inr (
        p,
        (
          j,
          q
              ∙ ap (λ s. s ++ take k (drop n bytes)) e
              ∙ append_assoc (pipe.stream l) (take n bytes) (take k (drop n bytes))
              ∙ ap (λ s. pipe.stream l ++ s) f,
        ),
      )

  write_loop-Sent :
      (fuel count : ℕ) (bytes : List ℕ) (l : L)
      → length bytes < fuel
      → (r : L × Option ℕ) × (write_loop u fuel handle t count bytes l ≡ some r)
        × Sent count bytes l r
  unfolding write_loop
  write_loop-Sent zero count bytes l h = absurd (omega arith)
  write_loop-Sent (suc fuel) count [] l h =
      ((l, some count), refl, inl (ap some (omega arith), sym (append-nil (pipe.stream l))))
  write_loop-Sent (suc fuel) count (b ∷ rest) l h =
      let chunk = take bulk_chunk (b ∷ rest) in
      let m = (u.bulk_out l handle t.ep_out chunk t.timeout_ms).0 in
      elim (Option-cases (u.bulk_out l handle t.ep_out chunk t.timeout_ms).1) [
        | inl e ↦
            let (k, q) = pipe.failed l chunk t.timeout_ms e in
            let (j, f) = take_prefix k bulk_chunk (b ∷ rest) in
            (
              (m, none),
              rw (e, write_loop) refl,
              inr (refl, (j, q ∙ ap (λ s. pipe.stream l ++ s) f)),
            )
        | inr (n, e) ↦
            let (le, q) = pipe.sent l chunk t.timeout_ms n e in
            let some_sent = pipe.progress l chunk t.timeout_ms n e (omega arith) in
            let within : n ≤ length (b ∷ rest) =
              omega (arith, le, length-take-length bulk_chunk (b ∷ rest)) in
            let in_chunk : n ≤ bulk_chunk =
              omega (arith, le, length-take-le bulk_chunk (b ∷ rest)) in
            let (r, p, s) =
              write_loop-Sent fuel (count + n) (drop n (b ∷ rest)) m
                (omega (arith, length-drop n (b ∷ rest) within, some_sent)) in
            (
              r,
              rw (e, write_loop) p,
              later count n (b ∷ rest) l m r within
                  (q ∙ ap (λ s'. pipe.stream l ++ s') (take-take n bulk_chunk (b ∷ rest) in_chunk))
                  s,
            )
      ]

  -- Over an endpoint whose bulk transfers succeed only when they have sent something, and with more
  -- fuel than there are bytes, a write of an open transport comes to an end. Either it returns the
  -- number of its bytes, and exactly these were sent, in order, behind what was sent before; or it
  -- returns -1, and a first part of them was sent.
  pub write_lem :
      (fuel : ℕ) (bytes : List ℕ) (l : L)
      → t.handle ≡ some handle
      → length bytes < fuel
      → (r : L × Option ℕ) × (write u fuel t bytes l ≡ some r)
        × (((r.1 ≡ some (length bytes)) × (pipe.stream r.0 ≡ pipe.stream l ++ bytes))
            ⊎ ((r.1 ≡ none) × ((k : ℕ) × (pipe.stream r.0 ≡ pipe.stream l ++ take k bytes))))
  unfolding write
  write_lem fuel bytes l o h =
      let (r, e, s) = write_loop-Sent fuel 0 bytes l h in
      (
        r,
        subst
            (λ o'.
              (elim o' [ none ↦ some (l, none) | some h' ↦ write_loop u fuel h' t 0 bytes l ])
              ≡ some r)
            (sym o) e,
        elim s [ inl (p, q) ↦ inl (p ∙ ap some (omega arith), q) | inr f ↦ inr f ],
      )
