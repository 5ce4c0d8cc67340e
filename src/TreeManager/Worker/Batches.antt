-- ===== src/TreeManager/Worker/Batches.antt =====
-- What a batch of tasks leaves in the database.
use mote_broker.Prelude.{
  ℕ, String, ◌≡◌, refl, ap, ◌∙◌, Bool, ◌=str=◌, eq_refl, if◌then◌else◌, none, some, List, [], ◌∷◌,
  exists,
}
use mote_broker.Topic.Split.{join}
use mote_broker.Protocols.{Bytes, Row}
use mote_broker.TreeManager.Worker.{
  Stored, last_stored, MessageTable, delete_list, create_list, is_nil, run_tasks,
}

module _ (db : MessageTable) where
  open db use {Table, lookup, delete, bulk_create, lookup_delete, lookup_bulk_create}

  abbrev pub emptied : String → List Row → Bool
  emptied topic tasks = exists (λ other. other =str= topic) (delete_list tasks)

  lookup-deleted :
      (topic : String) (topics : List String) (t : Table)
      → lookup topic (if is_nil topics then t else delete topics t)
        ≡ (if exists (λ other. other =str= topic) topics then none else lookup topic t)
  lookup-deleted topic [] t = refl
  lookup-deleted topic (x ∷ topics) t = lookup_delete topic (x ∷ topics) t

  lookup-created :
      (topic : String) (rows : List Stored) (t : Table)
      → lookup topic (if is_nil rows then t else bulk_create rows t)
        ≡ last_stored topic rows (lookup topic t)
  lookup-created topic [] t = refl
  lookup-created topic (x ∷ rows) t = lookup_bulk_create topic (x ∷ rows) t

  -- After a batch, a topic has the data of its last row that has data; without such a row it has
  -- nothing if the batch empties it, and otherwise what it had.
  lookup-run_tasks :
      (topic : String) (tasks : List Row) (t : Table)
      → lookup topic (run_tasks db tasks t)
        ≡ last_stored topic
            (create_list tasks)
            (if emptied topic tasks then none else lookup topic t)
  unfolding run_tasks
  lookup-run_tasks topic tasks t =
      lookup-created topic (create_list tasks) _
      ∙ ap (last_stored topic (create_list tasks)) (lookup-deleted topic (delete_list tasks) t)

  -- A row with data and a later row that empties the same topic, in one batch: the data is left in
  -- the database.
  emptied_row_survives :
      (nodes : List String) (b : Bytes) (q r : ℕ) (t : Table)
      → lookup (join nodes) (
          run_tasks db
            (record { topic = nodes; payload = some b; qos = q }
              ∷ record { topic = nodes; payload = none; qos = r }
              ∷ [])
            t)
        ≡ some b
  unfolding delete_list create_list
  emptied_row_survives nodes b q r t = lookup-run_tasks (join nodes) _ t ∙ rw eq_refl
