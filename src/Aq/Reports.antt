-- ===== src/Aq/Reports.antt =====
-- What libusb is told about a transfer, and what a cancel finds.
use android_sdk_custom.Prelude.{
  ℕ, ◌+◌, ◌≡◌, refl, List, [], ◌∷◌, Option, none, some, Bool, true, false, ◌⊎◌, inl, inr, arith,
  ◌==◌, ◌||◌, ◌≢◌, ◌≤◌, ◌<◌, length, Option-cases, ==_refl, ==_ne, ap, ◌&&◌,
}
use android_sdk_custom.Libusb.{success, not_found, TransferStatus, cancelled}
use android_sdk_custom.Aq.State.{Transfer, Queue, Kick, State, find, unlink, is_cur}
use android_sdk_custom.Aq.Handlers.{
  CancelEnv, with_queues, signal, finish_locked, cancel_scan, cancel, add_kick, kick_round,
  max_rounds, take_result, handle_completion, report_of, cancellation, Place, queued, nowhere,
}
use android_sdk_custom.Aq.Cases.{cancel_scan_cases}

-- A result that is recorded is what libusb is told: a transfer that is finished with a status is
-- reported with it (a cancel as a cancellation), and the results that were there before are left.
pub handle_completion-finish_locked :
    (p : ℕ) (st : TransferStatus) (s : State)
    → handle_completion p (finish_locked true p st s) ≡ (signal p s, report_of st)
unfolding handle_completion finish_locked take_result
handle_completion-finish_locked p st s = rw (==_refl p, handle_completion, take_result)

-- Another transfer's result is not touched: it is reported as before.
pub handle_completion_other :
    (p o : ℕ) (st : TransferStatus) (s : State)
    → p ≢ o
    → (handle_completion o (finish_locked true p st s)).1 ≡ (handle_completion o s).1
unfolding handle_completion finish_locked take_result
handle_completion_other p o st s ne = elim (Option-cases (take_result o s.results)) [
  | inl n ↦ ground (arith, ==_ne p o ne)
  | inr ((status, rest), n) ↦ ground (arith, ==_ne p o ne)
]

-- The transfer waits in a queue or runs on a worker.
abbrev has : ℕ → List Transfer → Bool
has p [] = false
has p (x ∷ xs) = (x.ptr == p) || has p xs

abbrev pub busy : ℕ → List Queue → Bool
busy p [] = false
busy p (q ∷ qs) = has p q.items || is_cur p q.cur || busy p qs

abbrev found : Place → Bool
found nowhere = false
found _ = true

unlink-has : (p : ℕ) (xs : List Transfer) → unlink p xs ≡ none → has p xs ≡ false
unfolding unlink
unlink-has p [] n = refl
unlink-has p (x ∷ xs) n = elim (Option-cases (unlink p xs)) [
  | inl m ↦ ground (arith, unlink-has p xs m)
  | inr (ys, m) ↦ ground arith
]

has_of_unlink : (p : ℕ) (xs ys : List Transfer) → unlink p xs ≡ some ys → has p xs ≡ true
unfolding unlink
has_of_unlink p [] ys u = cc
has_of_unlink p (x ∷ xs) ys u = elim (Option-cases (unlink p xs)) [
  | inl m ↦ ground arith
  | inr (zs, m) ↦ ground (arith, has_of_unlink p xs zs m)
]

cancel_scan-busy : (p : ℕ) (qs : List Queue) → found (cancel_scan p qs).1 ≡ busy p qs
unfolding cancel_scan
cancel_scan-busy p [] = refl
cancel_scan-busy p (q ∷ qs) =
    cancel_scan_cases (λ r. found r.1 ≡ busy p (q ∷ qs)) p q qs
      (λ items u. ground (arith, has_of_unlink p q.items items u)) (λ u c. ground arith)
      (λ u c. ground arith) (λ u c. ground (arith, unlink-has p q.items u, cancel_scan-busy p qs))

-- Either the transfer waits in some queue or runs on some worker, and a cancel succeeds; or it does
-- neither, and a cancel returns LIBUSB_ERROR_NOT_FOUND and changes nothing.
pub cancel_finds :
    (env : CancelEnv) (p : ℕ) (s : State)
    → ((busy p s.queues ≡ true) × ((cancel env p s).1 ≡ success))
      ⊎ ((busy p s.queues ≡ false) × (cancel env p s ≡ (s, not_found)))
unfolding cancel add_kick
cancel_finds env p s = ground (arith, cancel_scan-busy p s.queues)

-- It waits in some queue; it is the current transfer of some worker.
abbrev pub waits : ℕ → List Queue → Bool
waits p [] = false
waits p (q ∷ qs) = has p q.items || waits p qs

abbrev pub runs : ℕ → List Queue → Bool
runs p [] = false
runs p (q ∷ qs) = is_cur p q.cur || runs p qs

cancel_scan-waits :
    (p : ℕ) (qs : List Queue)
    → waits p qs ≡ true
    → runs p qs ≡ false
    → (cancel_scan p qs).1 ≡ queued
unfolding cancel_scan
cancel_scan-waits p [] w r = cc
cancel_scan-waits p (q ∷ qs) w r =
    cancel_scan_cases (λ x. x.1 ≡ queued) p q qs (λ items u. refl) (λ u c. ground arith)
      (λ u c. ground arith) (λ u c. ground (arith, unlink-has p q.items u, cancel_scan-waits p qs))

-- Cancelling a transfer that waits in a queue and runs on no worker, with memory for the result,
-- succeeds, signals the transfer's completion once, and libusb is then told of a cancellation.
pub cancel_waiting :
    (env : CancelEnv) (p : ℕ) (s : State)
    → waits p s.queues ≡ true
    → runs p s.queues ≡ false
    → env.result_allocated ≡ true
    → let (t, ret) = cancel env p s in
      (ret ≡ success) × (t.signals ≡ p ∷ s.signals) × ((handle_completion p t).1 ≡ cancellation)
unfolding cancel finish_locked
cancel_waiting env p s w r a =
    let place = cancel_scan-waits p s.queues w r in
    let t : State = with_queues s (cancel_scan p s.queues).0 in
    rw (place, cancel, a)
      (refl, refl, ap (λ x. x.1) (handle_completion-finish_locked p cancelled t))

-- The rounds of one kicker, each with the queues as it finds them.
pub kick_rounds : Kick → List (List Queue) → Option Kick
kick_rounds k [] = some k
kick_rounds k (qs ∷ rest) = elim (kick_round k qs).1 [ none ↦ none | some k' ↦ kick_rounds k' rest ]

kick_round-round :
    (k : Kick) (qs : List Queue) (k' : Kick)
    → (kick_round k qs).1 ≡ some k'
    → (k'.round ≡ k.round + 1) × (k.round < max_rounds)
unfolding kick_round
kick_round-round k qs k' e = elim (Option-cases (find k.handle k.ep qs)) [
  | inl n ↦ ground arith
  | inr (q, l) ↦ ground arith
]

kick_rounds-none :
    (k : Kick) (seen : List (List Queue))
    → max_rounds < k.round + length seen
    → k.round ≤ max_rounds
    → kick_rounds k seen ≡ none
unfolding kick_rounds
kick_rounds-none k [] lt le = absurd (omega arith)
kick_rounds-none k (qs ∷ seen) lt le = elim (Option-cases (kick_round k qs).1) [
  | inl n ↦ rw (n, kick_rounds)
  | inr (k', e) ↦
      let r = kick_round-round k qs k' e in
      rw (e, kick_rounds) (kick_rounds-none k' seen (omega arith) (omega arith))
]

-- A kicker ends: of 601 rounds, whatever the queues are at each, one is its last.
pub kicker_ends :
    (k : Kick) (seen : List (List Queue))
    → k.round ≡ 0
    → max_rounds < length seen
    → kick_rounds k seen ≡ none
kicker_ends k seen z lt = kick_rounds-none k seen (omega arith) (omega arith)

-- A kicker ends, and sends no signal, in the first round in which the transfer it was made for is not
-- the one that its worker runs, or is not cancelled.
pub kicker_stops :
    (k : Kick) (q : Queue) (qs : List Queue)
    → find k.handle k.ep qs ≡ some q
    → (is_cur k.it q.cur && q.cancel_cur) ≡ false
    → kick_round k qs ≡ (qs, none)
unfolding kick_round
kicker_stops k q qs l c = rw (l, kick_round) (ground arith)
