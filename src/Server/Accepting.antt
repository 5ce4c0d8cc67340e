-- ===== src/Server/Accepting.antt =====
-- SocketServer.loop of servers/socket.py beside `stop`, which another thread runs: the
-- flag `alive` and the list `clients` are all that they share. A turn of either loop is a step; what
-- `disconnect` does to a client is in Handler/System. `started` and `ended` are the clients whose threads
-- were started and those that `stop` has taken off to disconnect them.
use mote_broker.Prelude.{
  not, ℕ, suc, ◌+◌, ◌≤◌, ◌≡◌, refl, ap, Bool, true, false, ◌==◌, if◌then◌else◌, Bool-cases, inl,
  inr, List, [], ◌∷◌, length, arith,
}
use mathlib.Core.Path.{subst}

-- Where SocketServer.loop stands.
pub data LoopStage : Type 0 where
  -- before `self.alive = True`
  starting : LoopStage
  binding : LoopStage
  -- at `while self.alive`
  testing : LoopStage
  -- in `accept`
  accepting : LoopStage
  -- before handle_client
  handling : ℕ → LoopStage
  finished : LoopStage

-- Where the thread stands that stops the server.
pub data Stopping : Type 0 where
  running : Stopping
  -- at `while self.clients`
  popping : Stopping
  -- ended by an exception of `disconnect`
  failed : Stopping
  stopped : Stopping

pub record Listening : Type 0 where
  pub alive : Bool
  pub clients : List ℕ
  pub loop : LoopStage
  pub stopping : Stopping
  pub started : List ℕ
  pub ended : List ℕ
  -- whether `self.alive = True` came after `stop` had begun
  pub overtaken : Bool

abbrev pub is_running : Stopping → Bool
is_running running = true
is_running stage = false

-- self.alive = True
unfoldable pub starts_up : Listening → Listening
starts_up s = record s { alive = true; loop = binding; overtaken = not (is_running s.stopping) }

-- bind, whose exception ends the loop, and listen
unfoldable pub bound : Bool → Listening → Listening
bound fails s = record s { loop = if fails then finished else testing }

-- while self.alive
unfoldable pub test_alive : Listening → Listening
test_alive s = record s { loop = if s.alive then accepting else finished }

-- an exception of accept, which is logged while the server is alive
unfoldable pub accept_raised : Listening → Listening
accept_raised s = record s { loop = if s.alive then testing else finished }

-- a socket that accept gives, dropped where the server is not alive any more
unfoldable pub accepted : ℕ → Listening → Listening
accepted n s = record s { loop = if s.alive then handling n else finished }

-- handle_client, whose exceptions are logged
unfoldable pub handled : Bool → ℕ → Listening → Listening
handled fails n s =
    if fails
    then record s { loop = testing }
    else record s { clients = n ∷ s.clients; loop = testing; started = n ∷ s.started }

-- self.alive = False
unfoldable pub stop_begins : Listening → Listening
stop_begins s = record s { alive = false; stopping = popping }

-- while self.clients: self.clients.pop().disconnect(), which may raise
unfoldable pub stop_turn : Bool → List ℕ → Listening → Listening
stop_turn fails [] s = record s { stopping = stopped }
stop_turn fails (n ∷ clients) s = record s {
  clients = clients;
  ended = n ∷ s.ended;
  stopping = if fails then failed else s.stopping;
}

pub data Step (s : Listening) : Listening → Type 0 where
  starts : s.loop ≡ starting → Step s (starts_up s)
  binds : (fails : Bool) → s.loop ≡ binding → Step s (bound fails s)
  tests : s.loop ≡ testing → Step s (test_alive s)
  raises : s.loop ≡ accepting → Step s (accept_raised s)
  accepts : (n : ℕ) → s.loop ≡ accepting → Step s (accepted n s)
  handles : (n : ℕ) (fails : Bool) → s.loop ≡ handling n → Step s (handled fails n s)
  begins : s.stopping ≡ running → Step s (stop_begins s)
  turns : (fails : Bool) → s.stopping ≡ popping → Step s (stop_turn fails s.clients s)

pub data Reach (s : Listening) : Listening → Type 0 where
  here : Reach s s
  next : {t u : Listening} → Reach s t → Step t u → Reach s u

-- The server before its loop; `alive` may be set from before.
abbrev pub new_server : Bool → Listening
new_server alive = record {
  alive = alive;
  clients = [];
  loop = starting;
  stopping = running;
  started = [];
  ended = [];
  overtaken = false;
}

-- How often a client is in a list.
abbrev pub count : ℕ → List ℕ → ℕ
count n [] = 0
count n (m ∷ ms) = if m == n then suc (count n ms) else count n ms

-- whether the loop has a client in hand
abbrev pub in_hand : LoopStage → ℕ
in_hand (handling n) = 1
in_hand stage = 0

abbrev pub Left : Stopping → Listening → Type 0
Left running s = Unit
Left popping s = s.alive ≡ false
Left failed s = s.alive ≡ false
Left stopped s = (s.alive ≡ false) × (length s.clients + in_hand s.loop ≤ 1)

-- Each client that was started is either still there or was taken off for `stop`; and a server that has
-- been stopped, unless it was still starting when `stop` began, has one client left at most.
pub record IsShut (s : Listening) : Type 0 where
  pub accounted : (n : ℕ) → count n s.started ≡ count n s.ended + count n s.clients
  pub left : s.overtaken ≡ false → Left s.stopping s

in_hand-le : (l : LoopStage) → in_hand l ≤ 1
in_hand-le starting = omega arith
in_hand-le binding = omega arith
in_hand-le testing = omega arith
in_hand-le accepting = omega arith
in_hand-le (handling n) = omega arith
in_hand-le finished = omega arith

-- A move of the loop that, once the server is not alive, takes nothing in hand.
looped-Left :
    (o : Stopping) (s : Listening) (l : LoopStage)
    → (s.alive ≡ false → in_hand l ≤ in_hand s.loop)
    → Left o s
    → Left o (record s { loop = l })
looped-Left running s l h k = tt
looped-Left popping s l h k = k
looped-Left failed s l h k = k
looped-Left stopped s l h k = (k.0, omega (arith, h k.0, k.1))

started-Left :
    (o : Stopping) (s : Listening) (n : ℕ) (clients started : List ℕ)
    → s.loop ≡ handling n
    → Left o s
    → length clients ≡ suc (length s.clients)
    → Left o (record s { clients = clients; loop = testing; started = started })
started-Left running s n clients started at k e = tt
started-Left popping s n clients started at k e = k
started-Left failed s n clients started at k e = k
started-Left stopped s n clients started at k e =
    let one : in_hand s.loop ≡ 1 = ap in_hand at in (k.0, omega (arith, k.1, e, one))

popped :
    (n m a b : ℕ) (clients : List ℕ)
    → a ≡ b + count m (n ∷ clients)
    → a ≡ (if n == m then suc b else b) + count m clients
popped n m a b clients h = elim (Bool-cases (n == m)) [
  | inl e ↦ rw e (let h' = rw e at h in omega (arith, h'))
  | inr e ↦ rw e (let h' = rw e at h in omega (arith, h'))
]

-- A move of the loop that only changes where it stands.
moved-IsShut :
    (s : Listening) (l : LoopStage)
    → (s.alive ≡ false → in_hand l ≤ in_hand s.loop)
    → IsShut s
    → IsShut (record s { loop = l })
moved-IsShut s l no_more h = record {
  accounted = h.accounted;
  left = λ e. looped-Left s.stopping s l no_more (h.left e);
}

started_up-Left :
    (o : Stopping) (s : Listening) → not (is_running o) ≡ false → Left o (record s { alive = true })
started_up-Left running s e = tt
started_up-Left popping s e = cc
started_up-Left failed s e = cc
started_up-Left stopped s e = cc

failed-Left :
    (fails : Bool) (s : Listening) → s.alive ≡ false → Left (if fails then failed else popping) s
failed-Left true s e = e
failed-Left false s e = e

turned-IsShut :
    (fails : Bool) (s : Listening) (cs : List ℕ)
    → s.clients ≡ cs
    → s.stopping ≡ popping
    → IsShut s
    → IsShut (stop_turn fails cs s)
unfolding stop_turn
turned-IsShut fails s [] e at h = record {
  accounted = h.accounted;
  left = λ k. (subst (λ o. Left o s) at (h.left k), rw e (omega (arith, in_hand-le s.loop)));
}
turned-IsShut fails s (n ∷ cs) e at h = record {
  accounted = λ m. popped n m (count m s.started) (count m s.ended) cs (rw e at (h.accounted m));
  left = λ k. rw at (failed-Left fails _ (subst (λ o. Left o s) at (h.left k)));
}

Step-IsShut : {s t : Listening} → Step s t → IsShut s → IsShut t
unfolding starts_up bound test_alive accept_raised accepted handled stop_begins
Step-IsShut {s} (starts at) h = record {
  accounted = h.accounted;
  left = λ e. started_up-Left s.stopping (starts_up s) e;
}
Step-IsShut {s} (binds fails at) h = moved-IsShut s _ (λ e. ground arith) h
Step-IsShut {s} (tests at) h = moved-IsShut s _ (λ e. rw e (omega arith)) h
Step-IsShut {s} (raises at) h = moved-IsShut s _ (λ e. rw e (omega arith)) h
Step-IsShut {s} (accepts n at) h = moved-IsShut s _ (λ e. rw e (omega arith)) h
Step-IsShut {s} (handles n true at) h = moved-IsShut s _ (λ e. omega arith) h
Step-IsShut {s} (handles n false at) h = record {
  accounted = λ m. ground (arith, h.accounted m);
  left = λ e. started-Left s.stopping s n (n ∷ s.clients) (n ∷ s.started) at (h.left e) refl;
}
Step-IsShut {s} (begins at) h = record { accounted = h.accounted; left = λ e. refl }
Step-IsShut {s} (turns fails at) h = turned-IsShut fails s s.clients refl at h

-- The loop that accepts clients, from its start, and one thread that stops the server, whose
-- `disconnect` may raise, interleave in any way. Each client whose threads were started is as often still
-- in `clients` or taken off for `stop` as it was started. Where `stop` began after the loop had set
-- `alive`, the server is not alive from then on, and once `stop` has emptied `clients` without an
-- exception, at most one client is in `clients` or about to be put there.
pub Reach-IsShut : {alive : Bool} {s : Listening} → Reach (new_server alive) s → IsShut s
Reach-IsShut here = record { accounted = λ n. refl; left = λ e. tt }
Reach-IsShut (next r st) = Step-IsShut st (Reach-IsShut r)
