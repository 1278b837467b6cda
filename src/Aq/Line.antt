-- ===== src/Aq/Line.antt =====
-- What the worker of an endpoint of libusb_bsd_async.inc still has to submit, and how each handler
-- changes it.
use android_sdk_custom.Prelude.{
  ℕ, ◌≡◌, refl, sym, List, [], ◌∷◌, ◌++◌, Option, none, some, Bool, true, false, ◌&&◌, inl, inr,
  arith, if◌then◌else◌, ◌==◌, Bool-cases, Option-cases, append_assoc,
}
use mathlib.Core.List.{Sublist, sublist-append_left, sublist-append_right, nil-sublist}
use mathlib.Core.List.Sublist as Sub
use mathlib.Core.Path.{subst}
use android_sdk_custom.Libusb.{LibusbError, is_success}
use android_sdk_custom.Aq.State.{
  Transfer, Worker, executing, Queue, State, has_key, find, replace, unlink, enqueue, fresh,
}
use android_sdk_custom.Aq.Handlers.{
  SubmitEnv, is_async, submit, cancel_scan, sync_submit, lookup_or_add,
}
use android_sdk_custom.Aq.Cases.{submit_cases, cancel_scan_cases}
use android_sdk_custom.Aq.Lookup.{SameKey, find-key, lookup_or_add_cases}

-- The transfer that a worker took and has not yet submitted.
abbrev pub in_hand : Worker → List Transfer
in_hand (executing it) = it ∷ []
in_hand _ = []

-- What a queue still has to submit, in its order.
abbrev pub line : Option Queue → List Transfer
line none = []
line (some q) = in_hand q.worker ++ q.items

abbrev pub pending : ℕ → ℕ → List Queue → List Transfer
pending h e qs = line (find h e qs)

-- A queue put in the place of another with its key: it is the one in question, or another one is.
replace_cases {ℓ} :
    (P : Option Queue → Option Queue → Type ℓ) (h e : ℕ) (q r : Queue) (qs : List Queue)
    → find q.handle q.ep qs ≡ some r
    → (has_key h e q ≡ true → P (some r) (some q))
    → (has_key h e q ≡ false → P (find h e qs) (find h e qs))
    → P (find h e qs) (find h e (replace q qs))
unfolding find replace
replace_cases P h e q r [] f same other = absurd (ground arith)
replace_cases P h e q r (x ∷ qs) f same other = elim (Bool-cases (has_key q.handle q.ep x)) [
  | inl b ↦ elim (Bool-cases (has_key h e q)) [
    | inl c ↦
        let is : x ≡ r = ground arith in
        let there : has_key h e x ≡ true = ground arith in rw (b, c, there, find) (rw is (same c))
    | inr c ↦
        let there : has_key h e x ≡ false = ground arith in
        let skipped : find h e (x ∷ qs) ≡ find h e qs = rw there refl in
        rw (b, c, find) (subst (λ z. P (find h e (x ∷ qs)) z) skipped (other c))
  ]
  | inr b ↦
      let rest : find q.handle q.ep qs ≡ some r = ground arith in
      elim (Bool-cases (has_key h e x)) [
        | inl c ↦
            let off : has_key h e q ≡ false = ground arith in
            rw (b, c, find) (subst (λ z. P z z) (rw c refl) (other off))
        | inr c ↦
            let skipped : find h e (x ∷ qs) ≡ find h e qs = rw c refl in
            rw (b, c, find)
              (replace_cases P h e q r qs rest same (λ o. subst (λ z. P z z) skipped (other o)))
      ]
]

unlink-sublist : (p : ℕ) (xs ys : List Transfer) → unlink p xs ≡ some ys → Sublist ys xs
unfolding unlink
unlink-sublist p [] ys u = cc
unlink-sublist p (x ∷ xs) ys u = elim (Bool-cases (x.ptr == p)) [
  | inl b ↦
      let same : xs ≡ ys = ground arith in
      subst (λ l. Sublist l (x ∷ xs)) same (Sub.cons x (Sub.refl xs))
  | inr b ↦ elim (Option-cases (unlink p xs)) [
    | inl n ↦ absurd (ground arith)
    | inr (zs, l) ↦
        let same : x ∷ zs ≡ ys = ground arith in
        subst (λ l. Sublist l (x ∷ xs)) same (Sub.cons-cons x (unlink-sublist p xs zs l))
  ]
]

-- What an append with this outcome adds.
abbrev added_by : Transfer → LibusbError → List Transfer
added_by it err = if is_success err then it ∷ [] else []

enqueue-line :
    (created : Bool) (it : Transfer) (q : Queue)
    → Sublist
        (line (some (enqueue created it q).0))
        (line (some q) ++ added_by it (enqueue created it q).1)
unfolding enqueue
enqueue-line created it q = elim (Bool-cases q.running) [
  | inl r ↦ rw (r, append_assoc (in_hand q.worker) q.items (it ∷ [])) (Sub.refl _)
  | inr r ↦ elim (Bool-cases created) [
    | inl c ↦
        rw (r, c)
          (Sub.append (sublist-append_right (in_hand q.worker) q.items) (Sub.refl (it ∷ [])))
    | inr c ↦
        rw (r, c)
          (Sub.trans (Sub.append (Sub.refl (in_hand q.worker)) (nil-sublist q.items))
            (sublist-append_left _ []))
  ]
]

enqueue-SameKey : (created : Bool) (it : Transfer) (q : Queue) → SameKey (enqueue created it q).0 q
unfolding enqueue
enqueue-SameKey created it q = ground arith

-- The transfer, if the append to the queue of an endpoint succeeds.
abbrev pub gained : ℕ → ℕ → Transfer → LibusbError → List Transfer
gained h e it err =
    if is_async it.type && (it.dev_handle == h) && (it.endpoint == e) && is_success err
    then it ∷ []
    else []

pub sync_submit-queues :
    (err : LibusbError) (it : Transfer) (s : State) → (sync_submit err it s).0.queues ≡ s.queues
unfolding sync_submit
sync_submit-queues err it s = ground arith

module _ (h e : ℕ) where
  -- The marks on a queue do not change what it has to submit.
  marks-pending :
      (b c d : Bool) (q : Queue) (qs : List Queue)
      → pending h e (record q { cancel_cur = b; sigurg = c; flag = d } ∷ qs) ≡ pending h e (q ∷ qs)
  unfolding find
  marks-pending b c d q qs = elim (Bool-cases (has_key h e q)) [
    | inl k ↦ rw k refl
    | inr k ↦ rw k refl
  ]

  pub cancel_scan-pending :
      (p : ℕ) (qs : List Queue) → Sublist (pending h e (cancel_scan p qs).0) (pending h e qs)
  unfolding find cancel_scan
  cancel_scan-pending p [] = Sub.refl []
  cancel_scan-pending p (q ∷ qs) =
      cancel_scan_cases (λ r. Sublist (pending h e r.0) (pending h e (q ∷ qs))) p q qs
        (λ items u. elim (Bool-cases (has_key h e q)) [
          | inl b ↦
              rw b (Sub.append (Sub.refl (in_hand q.worker)) (unlink-sublist p q.items items u))
          | inr b ↦ rw b (Sub.refl _)
        ])
        (λ u c.
          subst (λ l. Sublist l (pending h e (q ∷ qs))) (sym (marks-pending true true q.flag q qs))
            (Sub.refl _))
        (λ u c. Sub.refl _)
        (λ u c. elim (Bool-cases (has_key h e q)) [
          | inl b ↦ rw b (Sub.refl _)
          | inr b ↦ rw b (cancel_scan-pending p qs)
        ])

  -- A queue that is put back with the same key and no more in line.
  pub put_line :
      (i j : ℕ) (q r : Queue) (qs : List Queue)
      → find i j qs ≡ some r
      → SameKey q r
      → Sublist (line (some q)) (line (some r))
      → Sublist (pending h e (replace q qs)) (pending h e qs)
  put_line i j q r qs f k less =
      let key = find-key i j qs r f in
      let at : find q.handle q.ep qs ≡ some r = grind (arith, k.0, k.1, key.0, key.1) in
      replace_cases (λ old new. Sublist (line new) (line old)) h e q r qs at (λ t. less)
        (λ o. Sub.refl _)

  -- The same, where a part of the line has gone elsewhere and another is added.
  pub put_cases :
      (i j : ℕ) (gone added : List Transfer) (q r : Queue) (qs : List Queue)
      → find i j qs ≡ some r
      → SameKey q r
      → ((i ≡ h) → (j ≡ e) → Sublist (gone ++ line (some q)) (line (some r) ++ added))
      → (((i == h) && (j == e) ≡ false) → (gone ≡ []))
      → Sublist (gone ++ pending h e (replace q qs)) (pending h e qs ++ added)
  unfolding find
  put_cases i j gone added q r qs f k same other =
      let key = find-key i j qs r f in
      let at : find q.handle q.ep qs ≡ some r = grind (arith, k.0, k.1, key.0, key.1) in
      replace_cases (λ old new. Sublist (gone ++ line new) (line old ++ added)) h e q r qs at
        (λ t. same (ground arith) (ground arith))
        (λ o.
          let none_gone : gone ≡ [] = other (ground arith) in
          rw none_gone (sublist-append_left (pending h e qs) added))

  lookup_or_add-pending :
      (allocated : Bool) (i j : ℕ) (qs : List Queue) (q : Queue) (qs' : List Queue)
      → lookup_or_add allocated i j qs ≡ some (q, qs')
      → pending h e qs' ≡ pending h e qs
  unfolding find fresh
  lookup_or_add-pending allocated i j qs q qs' l =
      elim (lookup_or_add_cases allocated i j qs q qs' l).1 [
        | inl (old, same) ↦ rw same refl
        | inr (new, is, grown) ↦ rw grown (elim (Bool-cases ((i == h) && (j == e))) [
          | inl b ↦ let n : find h e qs ≡ none = grind arith in rw (b, n) refl
          | inr b ↦ rw b refl
        ])
      ]

  append-pending :
      (created : Bool) (it : Transfer) (q : Queue) (qs : List Queue)
      → is_async it.type ≡ true
      → find it.dev_handle it.endpoint qs ≡ some q
      → Sublist
          (pending h e (replace (enqueue created it q).0 qs))
          (pending h e qs ++ gained h e it (enqueue created it q).1)
  append-pending created it q qs b f =
      put_cases it.dev_handle it.endpoint [] (gained h e it (enqueue created it q).1)
        (enqueue created it q).0 q qs f (enqueue-SameKey created it q)
        (λ i j.
          let k : (it.dev_handle == h) ≡ true = ground arith in
          let l : (it.endpoint == e) ≡ true = ground arith in
          rw (b, k, l) (enqueue-line created it q))
        (λ o. refl)

  pub submit-pending :
      (env : SubmitEnv) (it : Transfer) (s : State)
      → Sublist
          (pending h e (submit env it s).0.queues)
          (pending h e s.queues ++ gained h e it (submit env it s).1)
  unfolding submit find
  submit-pending env it s = elim (Bool-cases (is_async it.type)) [
    | inr b ↦ rw (submit, b, sync_submit-queues env.sync_result it s) (sublist-append_left _ _)
    | inl b ↦
        submit_cases
          (λ r. Sublist (pending h e r.0.queues) (pending h e s.queues ++ gained h e it r.1)) env it
          s (λ a. rw (sync_submit-queues env.sync_result it s) (sublist-append_left _ _))
          (sublist-append_left _ _)
          (λ q qs l.
            let f =
              (lookup_or_add_cases env.queue_allocated it.dev_handle it.endpoint s.queues q qs
                l).0 in
            rw
              (sym (
                lookup_or_add-pending env.queue_allocated it.dev_handle it.endpoint s.queues q qs
                  l))
              (append-pending env.thread_created it q qs b f))
  ]
