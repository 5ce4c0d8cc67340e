-- ===== src/TreeManager.antt =====
-- TreeManager of tree/manager.py: the tree of retained messages, and the tasks for the worker that
-- writes them to the database.
pub mod Retain
pub mod Graft
pub mod Snapshot
pub mod Published
pub mod Worker
use mote_broker.Prelude.{
  ℕ, String, Bool, true, false, not, ◌=str=◌, if◌then◌else◌, Option, none, some, List, [], ◌∷◌,
  ◌++◌, keep,
}
use mote_broker.Result.{Result, ok, err, attribute_error, ◌>>=◌}
use mote_broker.Dict.{Item, Dict, atom, dict, empty, set}
use mote_broker.RecursiveDict.{leaf_key, truediv, visit, assign}
use mote_broker.Topic
use mote_broker.Topic.{Topic}
use mote_broker.Topic.Split.{split}
use mote_broker.Protocols.{Bytes, Retained, Row}
use mote_broker.Protocols.Flatten.{Scalar}
use mote_broker.Protocols.Filter.{TreeItem, filter_tree_with_topic}
use mote_broker.Messages
use mote_broker.Messages.{IncomingMessage, OutgoingMessage}

pub record TreeState : Type 0 where
  pub tree : Dict Retained
  pub tasks : List Row

abbrev pub is_none : Retained → Bool
is_none none = true
is_none (some b) = false

-- branch = self.tree / topic_nodes; if branch is not None: branch.leaf = data
set_branch :
    List String
    → Retained
    → Result (Item Retained) × Dict Retained
    → Result (Unit {0}) × Dict Retained
set_branch nodes payload (err e, t) = (err e, t)
set_branch nodes payload (ok (atom none), t) = (ok tt, t)
set_branch nodes payload (ok (atom (some b)), t) = (err attribute_error, t)
set_branch nodes payload (ok (dict d), t) = (ok tt, assign nodes payload t)

unfoldable pub retain_row :
    List String → Retained → Dict Retained → Result (Unit {0}) × Dict Retained
unfolding set_branch
retain_row nodes payload t = set_branch nodes payload (truediv none is_none nodes t)

-- the loop of retain_rows, which an exception ends
then_rows :
    (Dict Retained → Result (Unit {0}) × Dict Retained)
    → Result (Unit {0}) × Dict Retained
    → Result (Unit {0}) × Dict Retained
then_rows rest (err e, t) = (err e, t)
then_rows rest (ok u, t) = rest t

unfoldable pub retain_loop : List Row → Dict Retained → Result (Unit {0}) × Dict Retained
unfolding retain_row then_rows
retain_loop [] t = (ok tt, t)
retain_loop (r ∷ rows) t = then_rows (retain_loop rows) (retain_row r.topic r.payload t)

unfoldable pub retain_rows : List Row → TreeState → Result (Unit {0}) × TreeState
unfolding retain_loop
retain_rows rows s =
    let (done, t) = retain_loop rows s.tree in (done, record { tree = t; tasks = s.tasks ++ rows })

-- what is returned when the rows are retained
rows_after : List Row → Result (Unit {0}) × TreeState → Result (List Row) × TreeState
rows_after rows (err e, s) = (err e, s)
rows_after rows (ok u, s) = (ok rows, s)

retained_after : TreeState → Result (List Row) → Result (List Row) × TreeState
retained_after s (err e) = (err e, s)
retained_after s (ok rows) = rows_after rows (retain_rows rows s)

-- TreeManager.process_message
unfoldable pub process_message :
    (Bytes → Result (Item Scalar))
    → (String → Bytes)
    → IncomingMessage
    → TreeState
    → Result (List Row) × TreeState
unfolding retained_after rows_after
process_message treeify encode m s = retained_after s (
    if m.graft
    then Messages.flatten_into_rows treeify encode m s.tree
    else Messages.get_applicable_rows m s.tree)

unfoldable pub filter : Topic → TreeState → Result TreeItem
filter topic s = filter_tree_with_topic (Topic.node_list topic) (dict s.tree)

unfoldable pub get_message :
    (Dict Retained → Result Bytes) → Topic → ℕ → TreeState → Result OutgoingMessage
unfolding filter
get_message json topic qos s = do
  tree_item ← filter topic s
  Messages.from_tree_item json (Topic.full_str topic) qos tree_item

-- one message of the database, as preload puts it into the tree: empty nodes are passed over
unfoldable pub preload_at :
    List String → Retained → Dict Retained → Result (Unit {0}) × Dict Retained
preload_at [] payload pointer = (ok tt, set leaf_key (atom payload) pointer)
preload_at (n ∷ nodes) payload pointer =
    if n =str= ""
    then preload_at nodes payload pointer
    else visit none (preload_at nodes payload) n pointer

-- TreeManager.preload, of the messages that the database holds, each with its topic
unfoldable pub preload :
    List (String × Retained) → Dict Retained → Result (Unit {0}) × Dict Retained
unfolding preload_at then_rows
preload [] results = (ok tt, results)
preload ((topic, payload) ∷ messages) results =
    then_rows (preload messages) (preload_at (split topic) payload results)
