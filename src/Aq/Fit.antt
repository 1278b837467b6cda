-- ===== src/Aq/Fit.antt =====
-- A queue whose worker agrees with its fields, and the list of such queues.
use android_sdk_custom.Prelude.{
  ℕ, ◌≡◌, refl, sym, List, [], ◌∷◌, none, some, Bool, true, false, inl, inr, arith, All,
}
use mathlib.Core.Path.{subst}
use android_sdk_custom.Aq.State.{
  Transfer, Worker, stopped, starting, executing, returned, Queue, fresh, find, replace, enqueue,
  take_next,
}
use android_sdk_custom.Aq.Handlers.{lookup_or_add}
use android_sdk_custom.Aq.Lookup.{
  Distinct, find-All, replace-All, replace-Distinct, lookup_or_add_cases,
}

-- Where the thread stands agrees with `running` and `cur`; without a thread nothing is queued.
abbrev pub WorkerFits : Worker → Queue → Type 0
WorkerFits stopped q = (q.running ≡ false) × (q.cur ≡ none) × (q.items ≡ [])
WorkerFits starting q = (q.running ≡ true) × (q.cur ≡ none)
WorkerFits (executing it) q = (q.running ≡ true) × (q.cur ≡ some it)
WorkerFits (returned it err) q = (q.running ≡ true) × (q.cur ≡ some it)

abbrev pub QueueFits : Queue → Type 0
QueueFits q = WorkerFits q.worker q

abbrev pub Fit : List Queue → Type 0
Fit qs = Distinct qs × All QueueFits qs

fresh-Fits : (h e : ℕ) → QueueFits (fresh h e)
unfolding fresh
fresh-Fits h e = (refl, refl, refl)

fresh-Fit : (h e : ℕ) (qs : List Queue) → find h e qs ≡ none → Fit qs → Fit (fresh h e ∷ qs)
unfolding fresh
fresh-Fit h e qs new f = ((new, f.0), ((refl, refl, refl), f.1))

Fits-by : (w : Worker) (q : Queue) → q.worker ≡ w → WorkerFits w q → QueueFits q
Fits-by w q e f = subst (λ v. WorkerFits v q) (sym e) f

pub enqueue-Fits :
    (created : Bool) (it : Transfer) (w : Worker) (q : Queue)
    → q.worker ≡ w
    → WorkerFits w q
    → QueueFits (enqueue created it q).0
unfolding enqueue
enqueue-Fits created it stopped q e f = ground arith
enqueue-Fits created it _ q e f = ground arith

pub take_next-Fits : (q : Queue) → q.running ≡ true → q.cur ≡ none → QueueFits (take_next q)
unfolding take_next
take_next-Fits q r c = ground arith

pub put : (q : Queue) (qs : List Queue) → Fit qs → QueueFits q → Fit (replace q qs)
put q qs f h = (replace-Distinct q qs f.0, replace-All QueueFits q qs h f.1)

pub found : (h e : ℕ) (qs : List Queue) (q : Queue) → find h e qs ≡ some q → Fit qs → QueueFits q
found h e qs q at f = find-All QueueFits h e qs q at f.1

pub lookup_or_add-Fit :
    (allocated : Bool) (h e : ℕ) (qs : List Queue) (q : Queue) (qs' : List Queue)
    → lookup_or_add allocated h e qs ≡ some (q, qs')
    → Fit qs
    → Fit qs' × QueueFits q
lookup_or_add-Fit allocated h e qs q qs' l f =
    elim (lookup_or_add_cases allocated h e qs q qs' l).1 [
      | inl (old, same) ↦ (subst Fit (sym same) f, found h e qs q old f)
      | inr (new, is, grown) ↦ (
        subst Fit (sym grown) (fresh-Fit h e qs new f),
        subst QueueFits (sym is) (fresh-Fits h e),
      )
    ]
