-- ===== src/Tables/Operations.antt =====
-- Which operations of tables/manager.py raise, and what a batch of them does.
use mote_broker.Prelude.{
  String, Bool, true, false, ◌≡◌, refl, sym, ap, ◌∙◌, ◌=str=◌, Bool-cases, inl, inr, arith, Option,
  none, some, List, [], ◌∷◌, ◌++◌, exists, All, ◌⊎◌,
}
use mote_broker.Protocols.{Bytes}
use mote_broker.Topic.{Topic, node_list, from_nodes, full_str}
use mote_broker.Result.{Error, Result, ok, err, unknown_operation}
use mote_broker.Tables.{
  Call, TableWorker, create_table, create_table_for, drop_table, write_objects, operator_map,
  caught, operate, handle_nodes, handle_operation, and_rest, run_tasks,
}
use mote_broker.Tables.Models.{FieldClass, TableMeta, parse_model_name, build}
use mote_broker.Tables.Models.Fields.{some_unknown, build-raises}

-- The operators that a task may begin with.
abbrev pub is_operator : String → Bool
is_operator node = exists (λ operator. node =str= operator) ("@&" ∷ "@--" ∷ "@$" ∷ [])

-- The first node of a topic is an operator.
abbrev pub HasOperator : Topic → Type 0
HasOperator topic =
    (node : String) × (nodes : List String) × (node_list topic ≡ node ∷ nodes)
    × (is_operator node ≡ true)

module _ {Class Database : Type 0} (build : TableMeta → Result Class)
    (save : TableMeta → Call Database (Unit {0}))
    (makemigrations migrate : Call Database (Unit {0}))
    (drop : Class → Call Database (Unit {0})) where
  operator_map-found :
      (node : String)
      → is_operator node ≡ true
      → (operator : _) × (operator_map build save makemigrations migrate drop node ≡ some operator)
  unfolding operator_map
  operator_map-found node h = elim (Bool-cases (node =str= "@&")) [
    | inl e ↦ (create_table_for build save makemigrations migrate drop, rw (operator_map, e) refl)
    | inr e ↦ elim (Bool-cases (node =str= "@--")) [
      | inl e' ↦ (drop_table build save makemigrations migrate drop, rw (operator_map, e, e') refl)
      | inr e' ↦ elim (Bool-cases (node =str= "@$")) [
        | inl e'' ↦ (write_objects, rw (operator_map, e, e', e'') refl)
        | inr e'' ↦ let no : false ≡ true = rw (e, e', e'') at h in cc
      ]
    ]
  ]

  operator_map-none :
      (node : String)
      → is_operator node ≡ false
      → operator_map build save makemigrations migrate drop node ≡ none
  unfolding operator_map
  operator_map-none node h = ground (arith, h)

  caught-returns :
      {R : Type 0} (call : R × Result (Unit {0}))
      → (result : Option Bool) × ((caught call).1 ≡ ok result)
  unfolding caught
  caught-returns (w, ok done) = (none, refl)
  caught-returns (w, err raised) = (some false, refl)

  -- An operation with an operator returns, whatever happens in it.
  handle_operation-returns :
      (topic : Topic) (payload : Bytes) (w : TableWorker Class Database)
      → HasOperator topic
      → (result : Option Bool) × ((handle_operation build save makemigrations migrate drop topic
            payload w).1
          ≡ ok result)
  unfolding handle_operation handle_nodes operate
  handle_operation-returns topic payload w (node, nodes, e, h) =
      let found = operator_map-found node h in
      let called = caught-returns (found.0 (from_nodes nodes none) payload w) in
      (called.0, rw (e, found.1) called.1)

  handle_operation-unknown :
      (topic : Topic) (payload : Bytes) (w : TableWorker Class Database) (node : String)
      (nodes : List String)
      → node_list topic ≡ node ∷ nodes
      → is_operator node ≡ false
      → handle_operation build save makemigrations migrate drop topic payload w
        ≡ (w, err unknown_operation)
  unfolding handle_operation handle_nodes operate
  handle_operation-unknown topic payload w node nodes e h = rw (e, operator_map-none node h) refl

  and_rest-returns :
      {R : Type 0} (call : R × Result (Option Bool)) (rest : R → R × Result (Unit {0}))
      (result : Option Bool)
      → call.1 ≡ ok result
      → and_rest call rest ≡ rest call.0
  unfolding and_rest
  and_rest-returns (w, ok value) rest result h = refl
  and_rest-returns (w, err raised) rest result h = cc

  -- Tasks with operators are all done, and those behind them go on from there.
  run_tasks-append :
      (before after : List (Topic × Bytes)) (w : TableWorker Class Database)
      → All (λ task. HasOperator task.0) before
      → run_tasks build save makemigrations migrate drop (before ++ after) w
        ≡ run_tasks build save makemigrations migrate drop after
            (run_tasks build save makemigrations migrate drop before w).0
  unfolding run_tasks
  run_tasks-append [] after w h = refl
  run_tasks-append ((topic, payload) ∷ before) after w (known, h) =
      let returned = handle_operation-returns topic payload w known in
      let next = handle_operation build save makemigrations migrate drop topic payload w in
      and_rest-returns next (run_tasks build save makemigrations migrate drop (before ++ after))
        returned.0 returned.1
      ∙ run_tasks-append before after next.0 h
      ∙ ap (λ done. run_tasks build save makemigrations migrate drop after done.0)
          (sym (
            and_rest-returns next (run_tasks build save makemigrations migrate drop before)
              returned.0 returned.1))

  -- A batch whose tasks have operators, but for one, raises UnknownOperation at that one: the tasks
  -- before it are done, whatever happened in them, and those behind it are not.
  pub run_tasks-unknown :
      (before after : List (Topic × Bytes)) (topic : Topic) (payload : Bytes) (node : String)
      (nodes : List String) (w : TableWorker Class Database)
      → All (λ task. HasOperator task.0) before
      → node_list topic ≡ node ∷ nodes
      → is_operator node ≡ false
      → run_tasks build save makemigrations migrate drop (before ++ ((topic, payload) ∷ after)) w
        ≡ ((run_tasks build save makemigrations migrate drop before w).0, err unknown_operation)
  unfolding run_tasks and_rest
  run_tasks-unknown before after topic payload node nodes w h e k =
      run_tasks-append before ((topic, payload) ∷ after) w h
      ∙ ap (λ call. and_rest call (run_tasks build save makemigrations migrate drop after))
          (handle_operation-unknown topic payload
            (run_tasks build save makemigrations migrate drop before w).0 node nodes e k)

  create_table-rejected :
      (topic name : Topic) (payload : Bytes) (nodes : List String) (raised : Error)
      (w : TableWorker Class Database)
      → node_list topic ≡ "@&" ∷ nodes
      → from_nodes nodes none ≡ some name
      → build (record {
        name = parse_model_name (full_str name);
        topic = full_str name;
        field_bytes = payload;
      })
        ≡ err raised
      → handle_operation build save makemigrations migrate drop topic payload w
        ≡ (w, ok (some false))
  unfolding handle_operation handle_nodes operate operator_map create_table_for create_table caught
  create_table-rejected topic name payload nodes raised w e f h = rw (e, f, h) refl

module _ {Attrs Field Class Database : Type 0} (make_field : FieldClass → Attrs → Result Field)
    (make_class : String → List (String × (Field ⊎ String)) → Result Class)
    (loads : Bytes → Result (List (String × (String × Attrs))))
    (save : TableMeta → Call Database (Unit {0}))
    (makemigrations migrate : Call Database (Unit {0}))
    (drop : Class → Call Database (Unit {0})) where
  -- A task to create a table one of whose fields has an unknown type returns False, and leaves the
  -- models and the database as they were.
  pub create_table-unknown_type :
      (topic name : Topic) (payload : Bytes) (nodes : List String)
      (fields : List (String × (String × Attrs))) (w : TableWorker Class Database)
      → node_list topic ≡ "@&" ∷ nodes
      → from_nodes nodes none ≡ some name
      → loads payload ≡ ok fields
      → some_unknown fields ≡ true
      → handle_operation
          (build make_field make_class loads)
          save
          makemigrations
          migrate
          drop
          topic
          payload
          w
        ≡ (w, ok (some false))
  create_table-unknown_type topic name payload nodes fields w e f l h =
      let table : TableMeta = record {
        name = parse_model_name (full_str name);
        topic = full_str name;
        field_bytes = payload;
      } in
      let raised = build-raises make_field make_class loads table fields l h in
      create_table-rejected (build make_field make_class loads) save makemigrations migrate drop
        topic name payload nodes raised.0 w e f raised.1
