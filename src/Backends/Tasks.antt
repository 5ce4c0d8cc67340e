-- ===== src/Backends/Tasks.antt =====
-- What becomes of the tasks that are added.
use mote_broker.Prelude.{
  Bool, true, false, not, ◌||◌, ◌≡◌, refl, ap, ◌∙◌, sym, List, [], ◌∷◌, ◌++◌, append_assoc, Option,
  append-nil, Bool-cases, inl, inr,
}
use mote_broker.Result.{Result, ok, err}
use mathlib.Core.Path.{subst}
use mote_broker.Backends.{
  Stage, failed, run_taken, with_answer, answered, checking, entering, waiting, woken, busy, done,
  Shared, notify, add_tasks, ask, take_response, stop, notify_stop, is_nil, is_asked, take_status,
  finish, Work, check, enter, wake, work, Step, by_worker, by_add_tasks, by_ask, by_take_response,
  by_stop, by_notify_stop, Reach, here, next, init,
}

module _ {ℓ} {T V : Type ℓ} where
  -- the tasks that the worker has taken and not handed to run_tasks
  abbrev pub in_hand : Stage T V → List T
  in_hand (busy asked taken) = taken
  in_hand (failed left) = left
  in_hand stage = []

  -- Each task that was added was handed to run_tasks, or is in the worker's hands, or is yet to be taken: in this order.
  abbrev pub IsAccounted : Shared T V → Type ℓ
  IsAccounted s = s.ran ++ (in_hand s.stage ++ s.tasks) ≡ s.added

  in_hand-notify : (stage : Stage T V) → in_hand (notify stage) ≡ in_hand stage
  in_hand-notify checking = refl
  in_hand-notify entering = refl
  in_hand-notify waiting = refl
  in_hand-notify woken = refl
  in_hand-notify (busy asked taken) = refl
  in_hand-notify done = refl
  in_hand-notify (failed left) = refl

  pub at_stage :
      (s : Shared T V) (stage : Stage T V)
      → s.stage ≡ stage
      → IsAccounted s
      → s.ran ++ (in_hand stage ++ s.tasks) ≡ s.added
  at_stage s stage e h = subst (λ x. s.ran ++ (in_hand x ++ s.tasks) ≡ s.added) e h

  -- An owner's notification moves no task.
  notified :
      (s : Shared T V) → IsAccounted s → s.ran ++ (in_hand (notify s.stage) ++ s.tasks) ≡ s.added
  notified s h = rw in_hand-notify h

append_middle {ℓ} :
    {T : Type ℓ} (a b c d : List T) {added : List T}
    → a ++ (b ++ c) ≡ added
    → a ++ (b ++ (c ++ d)) ≡ added ++ d
append_middle a b c d h =
    ap (λ l. a ++ l) (sym (append_assoc b c d))
    ∙ sym (append_assoc a (b ++ c) d)
    ∙ ap (λ l. l ++ d) h

no_tasks {ℓ} :
    {T : Type ℓ} (asked : Bool) (ts : List T) (stopped : Bool)
    → (asked || (not (is_nil ts) || stopped)) ≡ false
    → ts ≡ []
no_tasks true ts stopped h = cc h
no_tasks false [] stopped h = refl
no_tasks false (t ∷ ts) stopped h = cc h

module _ {ℓ} {T V : Type ℓ} (truthy : V → Bool) (query : V → Option V)
    (raises : List T → Bool) where
  run_taken-IsAccounted :
      (taken : List T) (s : Shared T V)
      → s.ran ++ (taken ++ s.tasks) ≡ s.added
      → IsAccounted (run_taken truthy raises taken s)
  unfolding run_taken
  run_taken-IsAccounted [] s h = h
  run_taken-IsAccounted (t ∷ ts) s h = elim (Bool-cases (raises (t ∷ ts))) [
    | inl e ↦ rw e (append_assoc s.ran (t ∷ ts) s.tasks ∙ h)
    | inr e ↦ rw e (append_assoc s.ran (t ∷ ts) s.tasks ∙ h)
  ]

  with_answer-IsAccounted :
      (taken : List T) (s : Shared T V) (r : Result (Option V))
      → s.ran ++ (taken ++ s.tasks) ≡ s.added
      → IsAccounted (with_answer truthy raises taken s r)
  unfolding with_answer
  with_answer-IsAccounted taken s (err e) h = h
  with_answer-IsAccounted taken s (ok slot) h =
      run_taken-IsAccounted taken (record s { slot = slot }) h

  Work-IsAccounted :
      {s t : Shared T V} → Work truthy query raises s t → IsAccounted s → IsAccounted t
  unfolding take_status finish
  Work-IsAccounted {s} (check true e r) h = at_stage s checking e h
  Work-IsAccounted {s} (check false e r) h = at_stage s checking e h
  Work-IsAccounted {s} (enter e) h = at_stage s entering e h
  Work-IsAccounted {s} (wake e) h =
      elim (Bool-cases (is_asked truthy s.slot || (not (is_nil s.tasks) || not s.running))) [
        | inl takes ↦ rw (takes, append-nil s.tasks) (at_stage s woken e h)
        | inr waits ↦ rw waits (
            rw (no_tasks (is_asked truthy s.slot) s.tasks (not s.running) waits) at
              (at_stage s woken e h))
      ]
  Work-IsAccounted {s} (work asked taken e) h =
      with_answer-IsAccounted taken s (answered truthy query asked s.slot)
        (at_stage s (busy asked taken) e h)

  pub Step-IsAccounted :
      {s t : Shared T V} → Step truthy query raises s t → IsAccounted s → IsAccounted t
  unfolding add_tasks ask take_response stop notify_stop
  Step-IsAccounted (by_worker w) h = Work-IsAccounted w h
  Step-IsAccounted {s} (by_add_tasks ts) h =
      append_middle s.ran (in_hand (notify s.stage)) s.tasks ts (notified s h)
  Step-IsAccounted {s} (by_ask v) h = notified s h
  Step-IsAccounted by_take_response h = h
  Step-IsAccounted by_stop h = h
  Step-IsAccounted {s} by_notify_stop h = notified s h

  -- However the calls of the owner and the moves of the worker interleave, and whether `query` and
  -- `run_tasks` raise or not: the tasks that were handed to run_tasks, those that the worker has
  -- taken beside them and those that wait are together the tasks that were added, each once and in the
  -- order of the calls. What a worker has taken when an exception of `query` ends it is never run.
  pub Reach-IsAccounted : {t : Shared T V} → Reach truthy query raises init t → IsAccounted t
  Reach-IsAccounted here = refl
  Reach-IsAccounted (next r st) = Step-IsAccounted st (Reach-IsAccounted r)
