-- ===== src/Aq/Cases.antt =====
-- How each handler of libusb_bsd_async.inc ends, as rules that proofs about it apply.
use android_sdk_custom.Prelude.{
  ℕ, ◌≡◌, List, ◌∷◌, none, some, true, false, inl, inr, Bool-cases, Option-cases,
}
use android_sdk_custom.Libusb.{LibusbError, no_mem}
use android_sdk_custom.Aq.State.{Transfer, Queue, State, replace, enqueue, unlink, is_cur}
use android_sdk_custom.Aq.Handlers.{
  SubmitEnv, with_queues, is_async, sync_submit, lookup_or_add, submit, cancel_scan, queued,
  running_on, cancelled_before, Place,
}

abbrev installed : State → State
installed s = record s { handler_installed = true }

pub submit_cases {ℓ} :
    (P : State × LibusbError → Type ℓ) (env : SubmitEnv) (it : Transfer) (s : State)
    → (is_async it.type ≡ false → P (sync_submit env.sync_result it s))
    → P (installed s, no_mem)
    → ((q : Queue) (qs : List Queue)
        → lookup_or_add env.queue_allocated it.dev_handle it.endpoint s.queues ≡ some (q, qs)
        → P (
          with_queues (installed s) (replace (enqueue env.thread_created it q).0 qs),
          (enqueue env.thread_created it q).1,
        ))
    → P (submit env it s)
unfolding submit
submit_cases P env it s sync refused taken = elim (Bool-cases (is_async it.type)) [
  | inr b ↦ rw b (sync b)
  | inl b ↦ elim (Bool-cases env.item_allocated) [
    | inr a ↦ rw (b, a) refused
    | inl a ↦
        elim (Option-cases (lookup_or_add env.queue_allocated it.dev_handle it.endpoint s.queues)) [
          | inl n ↦ rw (b, a, n) refused
          | inr (r, l) ↦ let (q, qs) = r in rw (b, a, l) (taken q qs l)
        ]
  ]
]

-- One step of the loop of sdk_aq_cancel.
pub cancel_scan_cases {ℓ} :
    (P : List Queue × Place → Type ℓ) (p : ℕ) (q : Queue) (qs : List Queue)
    → ((items : List Transfer)
        → unlink p q.items ≡ some items
        → P (record q { items = items } ∷ qs, queued))
    → (unlink p q.items ≡ none
        → is_cur p q.cur ≡ true
        → P (record q { cancel_cur = true; sigurg = true } ∷ qs, running_on q))
    → (unlink p q.items ≡ none → is_cur p q.cur ≡ true → P (q ∷ qs, cancelled_before))
    → (unlink p q.items ≡ none
        → is_cur p q.cur ≡ false
        → P (q ∷ (cancel_scan p qs).0, (cancel_scan p qs).1))
    → P (cancel_scan p (q ∷ qs))
unfolding cancel_scan
cancel_scan_cases P p q qs hit fresh again later = elim (Option-cases (unlink p q.items)) [
  | inr (items, e) ↦ rw (e, cancel_scan) (hit items e)
  | inl n ↦ elim (Bool-cases (is_cur p q.cur)) [
    | inr c ↦ rw (n, c, cancel_scan) (later n c)
    | inl c ↦ elim (Bool-cases q.cancel_cur) [
      | inl d ↦ rw (n, c, cancel_scan) (simp d (again n c))
      | inr d ↦ rw (n, c, cancel_scan) (simp d (fresh n c))
    ]
  ]
]
