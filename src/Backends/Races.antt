-- ===== src/Backends/Races.antt =====
-- When the worker gets to the tasks and queries of its owner, and when it does not.
use mote_broker.Prelude.{
  ℕ, zero, suc, Option, if◌then◌else◌, Bool, true, false, ◌||◌, ◌≡◌, refl, ap, ◌∙◌, sym, none, some,
  List, [], ◌∷◌, ◌++◌, append_assoc,
}
use mote_broker.Backends.{
  checking, waiting, woken, busy, Shared, notify, add_tasks, ask, is_nil, is_asked, answered,
  take_status, finish, failed, run_taken, with_answer, Work, check, enter, wake, work, by_worker,
  by_add_tasks, by_ask, Reach, here, next, init,
}
use mote_broker.Backends.Tasks.{IsAccounted, at_stage}

or_true : (a b : Bool) → b ≡ true → (a || b) ≡ true
or_true true b h = refl
or_true false b h = h

is_nil-append {ℓ} : {T : Type ℓ} (ts us : List T) (t : T) → is_nil (ts ++ (t ∷ us)) ≡ false
is_nil-append [] us t = refl
is_nil-append (u ∷ ts) us t = refl

module _ {ℓ} {T V : Type ℓ} (truthy : V → Bool) (query : V → Option V)
    (raises : List T → Bool) where
  -- Moves of the worker alone.
  pub data Works (s : Shared T V) : Shared T V → Type ℓ where
    none_more : Works s s
    one_more : {t u : Shared T V} → Works s t → Work truthy query raises t u → Works s u

  -- A notified worker with tasks takes them.
  takes :
      (s : Shared T V) → is_nil s.tasks ≡ false → (take_status truthy s).stage ≡ busy s.slot s.tasks
  unfolding take_status
  takes s h = rw (h, or_true (is_asked truthy s.slot) true refl)

  waits : (s u : Shared T V) → s.stage ≡ waiting → ¬ Work truthy query raises s u
  waits s u e (check b e' r) = cc
  waits s u e (enter e') = cc
  waits s u e (wake e') = cc
  waits s u e (work asked taken e') = cc

  run_taken-some :
      (taken : List T) (s : Shared T V)
      → is_nil taken ≡ false
      → ((run_taken truthy raises taken s).ran ≡ s.ran ++ taken)
        × ((run_taken truthy raises taken s).tasks ≡ s.tasks)
        × ((run_taken truthy raises taken s).stage ≡ (if raises taken then failed [] else checking))
  unfolding run_taken
  run_taken-some [] s e = cc e
  run_taken-some (t ∷ ts) s e = (refl, refl, refl)

  -- Tasks that are added while the worker waits, without a query or a response in the slot, are handed to
  -- run_tasks by its own next moves, with all that were added before. The worker then goes on,
  -- unless run_tasks raises: that ends it.
  pub add_tasks-runs :
      (s : Shared T V) (t : T) (ts : List T)
      → s.stage ≡ waiting
      → s.slot ≡ none
      → IsAccounted s
      → (u : Shared T V) × Works (add_tasks (t ∷ ts) s) u
        × (u.ran ≡ s.added ++ (t ∷ ts))
        × (u.tasks ≡ [])
        × (u.stage ≡ (if raises (s.tasks ++ (t ∷ ts)) then failed [] else checking))
  unfolding add_tasks take_status finish answered with_answer
  add_tasks-runs s t ts e empty_slot h =
      let s' = add_tasks (t ∷ ts) s in
      let some_tasks = is_nil-append s.tasks ts t in
      let first = one_more none_more (wake (ap notify e)) in
      let taken = s.tasks ++ (t ∷ ts) in
      let done : Shared T V = run_taken truthy raises taken (take_status truthy s') in
      let (ran, left, stage) = run_taken-some taken (take_status truthy s') some_tasks in
      (
        finish truthy query raises none taken (take_status truthy s'),
        one_more first
            (work none taken (takes s' some_tasks ∙ ap (λ slot. busy slot taken) empty_slot)),
        ran
            ∙ (sym (append_assoc s.ran s.tasks (t ∷ ts))
                ∙ ap (λ l. l ++ (t ∷ ts)) (at_stage s waiting e h)),
        left,
        stage,
      )

  -- Tasks that are added just before the worker waits are not run: it waits, with the tasks before it,
  -- and no move of its own is left.
  pub add_tasks_stranded :
      (ts : List T)
      → (s : Shared T V) × Reach truthy query raises init s
        × (s.tasks ≡ ts)
        × (s.ran ≡ [])
        × ((u : Shared T V) → ¬ Work truthy query raises s u)
  unfolding add_tasks
  add_tasks_stranded ts = (
    _,
    next (next (next here (by_worker (check true refl refl))) (by_add_tasks ts))
        (by_worker (enter refl)),
    refl,
    refl,
    λ u. waits _ u refl,
  )

-- A class that answers 1 to the query 0 and raises for its own answer.
abbrev answer_once : ℕ → Option ℕ
answer_once zero = some 1
answer_once (suc n) = none

-- A response that its owner has not taken when the next task comes is taken for a query. Where `query`
-- raises for it, the worker ends, and the task it has taken is never run.
response_as_query :
    (raises : List ℕ → Bool) (t : ℕ)
    → (s : Shared ℕ ℕ) × Reach (λ v. true) answer_once raises init s
      × (s.stage ≡ failed (t ∷ []))
      × (s.ran ≡ [])
unfolding add_tasks ask take_status finish answered with_answer run_taken
response_as_query raises t =
    let asked : Reach (λ v. true) answer_once raises init
        (record {
          running = true;
          slot = some 0;
          tasks = [];
          stage = woken;
          added = [];
          ran = [];
        }) =
      next (next (next here (by_worker (check true refl refl))) (by_worker (enter refl)))
        (by_ask 0) in
    let answers : Reach (λ v. true) answer_once raises init
        (record {
          running = true;
          slot = some 1;
          tasks = [];
          stage = checking;
          added = [];
          ran = [];
        }) =
      next (next asked (by_worker (wake refl))) (by_worker (work (some 0) [] refl)) in
    let added : Reach (λ v. true) answer_once raises init
        (record {
          running = true;
          slot = none;
          tasks = [];
          stage = busy (some 1) (t ∷ []);
          added = t ∷ [];
          ran = [];
        }) =
      next
        (next (next (next answers (by_worker (check true refl refl))) (by_worker (enter refl)))
          (by_add_tasks (t ∷ [])))
        (by_worker (wake refl)) in
    (_, next added (by_worker (work (some 1) (t ∷ []) refl)), refl, refl)
