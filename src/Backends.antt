-- ===== src/Backends.antt =====
-- backends/worker.py and backends/manager.py: a worker process and the process that hands it tasks and
-- queries. What they share is `Shared`; both hold `task_condition` over the parts that are one step
-- here. A `notify` wakes the worker only while it waits, and is lost otherwise. QUERY and RESPONSE are
-- the same index of `status`, so that one slot holds both. `query` is the
-- answer of the worker class, or none where it raises (a value that is not a sequence of its arguments is
-- a TypeError); `raises` tells of which tasks run_tasks raises, and `truthy` what Python's `if` makes of a value.
pub mod Tasks
pub mod Races
use mote_broker.Result.{Result, ok, err, type_error}
use mote_broker.Prelude.{
  Bool, true, false, not, ◌||◌, if◌then◌else◌, ◌≡◌, Option, none, some, List, [], ◌∷◌, ◌++◌,
}

-- Where the worker stands in its loop.
pub data Stage {ℓ} (T V : Type ℓ) : Type ℓ where
  -- at `while self.status[RUNNING]`
  checking : Stage T V
  -- before `with self.task_condition`
  entering : Stage T V
  waiting : Stage T V
  -- notified, before it has the lock again
  woken : Stage T V
  -- behind the inner loop, with the query and the tasks that it took
  busy : Option V → List T → Stage T V
  done : Stage T V
  -- ended by an exception, with the tasks that were not handed to run_tasks
  failed : List T → Stage T V

pub record Shared {ℓ} (T V : Type ℓ) : Type ℓ where
  pub running : Bool
  pub slot : Option V
  pub tasks : List T
  pub stage : Stage T V
  -- all tasks that were added, and all that were handed to run_tasks, in their order
  pub added : List T
  pub ran : List T

module _ {ℓ} {T V : Type ℓ} where
  -- task_condition.notify()
  abbrev pub notify : Stage T V → Stage T V
  notify waiting = woken
  notify stage = stage

  -- ProcessManager.add_tasks
  unfoldable pub add_tasks : List T → Shared T V → Shared T V
  add_tasks ts s = record s { tasks = s.tasks ++ ts; stage = notify s.stage; added = s.added ++ ts }

  -- ProcessManager.query, up to its wait for the response
  unfoldable pub ask : V → Shared T V → Shared T V
  ask v s = record s { slot = some v; stage = notify s.stage }

  -- The end of its wait: the response that it takes.
  unfoldable pub take_response : Shared T V → Option V × Shared T V
  take_response s = (s.slot, record s { slot = none })

  -- ProcessManager.__exit__, in two steps
  unfoldable pub stop : Shared T V → Shared T V
  stop s = record s { running = false }

  unfoldable pub notify_stop : Shared T V → Shared T V
  notify_stop s = record s { stage = notify s.stage }

abbrev pub is_nil {ℓ} : {T : Type ℓ} → List T → Bool
is_nil [] = true
is_nil (t ∷ ts) = false

module _ {ℓ} {V : Type ℓ} (truthy : V → Bool) where
  abbrev pub is_asked : Option V → Bool
  is_asked none = false
  is_asked (some v) = truthy v

  -- if query: self.status[RESPONSE] = self.query(*query)
  unfoldable pub answered : (V → Option V) → Option V → Option V → Result (Option V)
  answered query none slot = ok slot
  answered query (some v) slot =
      if truthy v
      then (elim (query v) [ none ↦ err type_error | some r ↦ ok (some r) ])
      else ok slot

module _ {ℓ} {T V : Type ℓ} (truthy : V → Bool) where
  -- The body of the inner loop, behind `wait`.
  unfoldable pub take_status : Shared T V → Shared T V
  take_status s = record s {
    slot = none;
    tasks = [];
    stage =
        if is_asked truthy s.slot || (not (is_nil s.tasks) || not s.running)
        then busy s.slot s.tasks
        else waiting;
  }

  -- if consumed_tasks: self.run_tasks(*consumed_tasks), which ends the worker where it raises
  unfoldable pub run_taken : (List T → Bool) → List T → Shared T V → Shared T V
  run_taken raises [] s = record s { stage = checking }
  run_taken raises (t ∷ ts) s = record s {
    stage = if raises (t ∷ ts) then failed [] else checking;
    ran = s.ran ++ (t ∷ ts);
  }

  -- an exception of `query` ends the worker before it runs the tasks it has taken
  unfoldable pub with_answer :
      (List T → Bool) → List T → Shared T V → Result (Option V) → Shared T V
  unfolding run_taken
  with_answer raises taken s (err e) = record s { stage = failed taken }
  with_answer raises taken s (ok slot) = run_taken raises taken (record s { slot = slot })

  module _ (query : V → Option V) (raises : List T → Bool) where
    -- What follows the inner loop: the answer, then the tasks.
    unfoldable pub finish : Option V → List T → Shared T V → Shared T V
    unfolding answered with_answer
    finish asked taken s = with_answer raises taken s (answered truthy query asked s.slot)

    -- The worker's own moves.
    pub data Work (s : Shared T V) : Shared T V → Type ℓ where
      check :
          (b : Bool)
          → s.stage ≡ checking
          → s.running ≡ b
          → Work s (record s { stage = if b then entering else done })
      enter : s.stage ≡ entering → Work s (record s { stage = waiting })
      wake : s.stage ≡ woken → Work s (take_status s)
      work :
          (asked : Option V) (taken : List T)
          → s.stage ≡ busy asked taken
          → Work s (finish asked taken s)

    -- A move of the worker, or a call of the process that owns it.
    pub data Step (s : Shared T V) : Shared T V → Type ℓ where
      by_worker : {t : Shared T V} → Work s t → Step s t
      by_add_tasks : (ts : List T) → Step s (add_tasks ts s)
      by_ask : (v : V) → Step s (ask v s)
      by_take_response : Step s (take_response s).1
      by_stop : Step s (stop s)
      by_notify_stop : Step s (notify_stop s)

    pub data Reach (s : Shared T V) : Shared T V → Type ℓ where
      here : Reach s s
      next : {t u : Shared T V} → Reach s t → Step t u → Reach s u

-- The state that `setup` and `__enter__` make.
abbrev pub init {ℓ} : {T V : Type ℓ} → Shared T V
init = record { running = true; slot = none; tasks = []; stage = checking; added = []; ran = [] }
