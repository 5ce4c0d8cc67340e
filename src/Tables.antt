-- ===== src/Tables.antt =====
-- tables/manager.py, the worker that keeps tables, with the tables of tables/models.py (Models). Django
-- is a parameter: `save`, `makemigrations`, `migrate` and `drop` are its calls, which change the database
-- and may raise.
pub mod Models
pub mod Operations
pub mod Loading
use mote_broker.Prelude.{
  String, Bool, true, false, ◌=str=◌, if◌then◌else◌, Option, none, some, List, [], ◌∷◌,
}
use mote_broker.Protocols.{Bytes}
use mote_broker.Topic.{Topic, from_nodes, full_str, node_list}
use mote_broker.Result.{Error, Result, ok, err, attribute_error, index_error, unknown_operation}
use mote_broker.Tables.Models.{TableMeta, parse_model_name}

-- A call that may raise and leaves the database changed.
abbrev pub Call : Type 0 → Type 0 → Type 0
Call Database R = Database → Database × Result R

abbrev pub then_call :
    {Database R S : Type 0} → Database × Result R → (R → Call Database S) → Database × Result S
then_call (database, err raised) rest = (database, err raised)
then_call (database, ok value) rest = rest value database

-- The class for a topic, which is kept under the topic's text.
unfoldable pub find_model : {Class : Type 0} → String → List (String × Class) → Option Class
find_model key [] = none
find_model key ((k, model) ∷ models) = if k =str= key then some model else find_model key models

-- del self.models[topic]
unfoldable pub del_model : {Class : Type 0} → String → List (String × Class) → List (String × Class)
del_model key [] = []
del_model key ((k, model) ∷ models) =
    if k =str= key then models else (k, model) ∷ del_model key models

pub record TableWorker (Class Database : Type 0) : Type 0 where
  pub models : List (String × Class)
  pub database : Database

-- What follows `drop`, with what it left.
unfoldable pub dropped :
    {Class Database : Type 0}
    → String
    → TableWorker Class Database
    → Database × Result (Unit {0})
    → TableWorker Class Database × Result (Unit {0})
unfolding del_model
dropped key w (d, err raised) = (record w { database = d }, err raised)
dropped key w (d, ok done) = (record { models = del_model key w.models; database = d }, ok tt)

unfoldable pub write_objects :
    {Class Database : Type 0}
    → Option Topic
    → Bytes
    → TableWorker Class Database
    → TableWorker Class Database × Result (Unit {0})
write_objects topic payload w = (w, ok tt)

-- An exception of the operator is logged: the result is False, and None without one.
unfoldable pub caught : {R : Type 0} → R × Result (Unit {0}) → R × Result (Option Bool)
caught (w, ok done) = (w, ok none)
caught (w, err raised) = (w, ok (some false))

-- The loop of run_tasks, where it has handled a task.
unfoldable pub and_rest :
    {R : Type 0} → R × Result (Option Bool) → (R → R × Result (Unit {0})) → R × Result (Unit {0})
and_rest (w, err raised) rest = (w, err raised)
and_rest (w, ok result) rest = rest w

module _ {Class Database : Type 0} (build : TableMeta → Result Class)
    (save : TableMeta → Call Database (Unit {0}))
    (makemigrations migrate : Call Database (Unit {0}))
    (drop : Class → Call Database (Unit {0})) where
  -- TableMeta.create_table
  unfoldable pub create_table : String → Bytes → Call Database Class
  unfolding parse_model_name
  create_table topic_str field_data database =
      let table : TableMeta = record {
        name = parse_model_name topic_str;
        topic = topic_str;
        field_bytes = field_data;
      } in
      then_call (database, build table)
        (λ model saving. then_call (save table saving) (λ saved making.
          then_call (makemigrations making) (λ made migrating.
            then_call (migrate migrating) (λ migrated after. (after, ok model)))))

  -- What an operator does to the worker: its result is None, or the exception.
  unfoldable pub create_table_for :
      Option Topic
      → Bytes
      → TableWorker Class Database
      → TableWorker Class Database × Result (Unit {0})
  unfolding create_table
  create_table_for none payload w = (w, err attribute_error)
  create_table_for (some topic) payload w =
      let called =
        then_call (create_table (full_str topic) payload w.database) (λ model d. (d, ok tt)) in
      (record w { database = called.0 }, called.1)

  unfoldable pub drop_table :
      Option Topic
      → Bytes
      → TableWorker Class Database
      → TableWorker Class Database × Result (Unit {0})
  unfolding find_model dropped
  drop_table none payload w = (w, ok tt)
  drop_table (some topic) payload w = elim (find_model (full_str topic) w.models) [
    | none ↦ (w, ok tt)
    | some model ↦ dropped (full_str topic) w (drop model w.database)
  ]

  -- self.operator_map.get(node)
  unfoldable pub operator_map :
      String
      → Option (
          Option Topic
          → Bytes
          → TableWorker Class Database
          → TableWorker Class Database × Result (Unit {0}))
  unfolding create_table_for drop_table write_objects
  operator_map node =
      if node =str= "@&"
      then some create_table_for
      else if node =str= "@--"
      then some drop_table
      else if node =str= "@$"
      then some write_objects
      else none

  -- The operator that was found, on the topic behind it.
  unfoldable pub operate :
      Option (
        Option Topic
        → Bytes
        → TableWorker Class Database
        → TableWorker Class Database × Result (Unit {0}))
      → List String
      → Bytes
      → TableWorker Class Database
      → TableWorker Class Database × Result (Option Bool)
  unfolding caught
  operate none nodes payload w = (w, err unknown_operation)
  operate (some operator) nodes payload w = caught (operator (from_nodes nodes none) payload w)

  unfoldable pub handle_nodes :
      List String
      → Bytes
      → TableWorker Class Database
      → TableWorker Class Database × Result (Option Bool)
  unfolding operate
  handle_nodes [] payload w = (w, err index_error)
  handle_nodes (node ∷ nodes) payload w = operate (operator_map node) nodes payload w

  unfoldable pub handle_operation :
      Topic → Bytes → TableWorker Class Database → TableWorker Class Database × Result (Option Bool)
  unfolding handle_nodes
  handle_operation full_topic payload w = handle_nodes (node_list full_topic) payload w

  -- TableWorker.run_tasks
  unfoldable pub run_tasks :
      List (Topic × Bytes)
      → TableWorker Class Database
      → TableWorker Class Database × Result (Unit {0})
  unfolding handle_operation and_rest
  run_tasks [] w = (w, ok tt)
  run_tasks ((full_topic, payload) ∷ tasks) w =
      and_rest (handle_operation full_topic payload w) (run_tasks tasks)
