-- ===== src/TreeManager/Worker.antt =====
-- TreeWorker of tree/manager.py, which writes tasks to the database. The table of messages is Django's:
-- `delete` is the deletion of the rows whose topic is in a list, and `bulk_create` writes rows over
-- those of the same topic.
pub mod Batches
use mote_broker.Prelude.{
  ℕ, String, ◌≡◌, Bool, true, false, ◌=str=◌, if◌then◌else◌, Option, none, some, List, [], ◌∷◌,
  ◌++◌, exists,
}
use mote_broker.Topic.Split.{join}
use mote_broker.Protocols.{Bytes, Retained, Row}

-- a row of the table, with its topic as one text
pub record Stored : Type 0 where
  pub topic : String
  pub payload : Bytes
  pub qos : ℕ

-- The value that the last of the rows for a topic has.
abbrev pub last_stored : String → List Stored → Option Bytes → Option Bytes
last_stored topic [] before = before
last_stored topic (s ∷ rows) before =
    last_stored topic rows (if s.topic =str= topic then some s.payload else before)

-- Two operations of the database, and what a lookup by topic gives after them.
pub record MessageTable : Type 1 where
  pub Table : Type 0
  pub lookup : String → Table → Option Bytes
  pub delete : List String → Table → Table
  pub bulk_create : List Stored → Table → Table
  pub lookup_delete :
      (topic : String) (topics : List String) (t : Table)
      → lookup topic (delete topics t)
        ≡ (if exists (λ other. other =str= topic) topics then none else lookup topic t)
  pub lookup_bulk_create :
      (topic : String) (rows : List Stored) (t : Table)
      → lookup topic (bulk_create rows t) ≡ last_stored topic rows (lookup topic t)

-- the two lists that the loop of run_tasks fills
unfoldable pub delete_list : List Row → List String
delete_list [] = []
delete_list (r ∷ tasks) = elim r.payload [
  | none ↦ join r.topic ∷ delete_list tasks
  | some b ↦ delete_list tasks
]

unfoldable pub create_list : List Row → List Stored
create_list [] = []
create_list (r ∷ tasks) = elim r.payload [
  | none ↦ create_list tasks
  | some b ↦ record { topic = join r.topic; payload = b; qos = r.qos } ∷ create_list tasks
]

abbrev pub is_nil {ℓ} : {A : Type ℓ} → List A → Bool
is_nil [] = true
is_nil (x ∷ xs) = false

module _ (db : MessageTable) where
  open db use {Table, lookup, delete, bulk_create}

  -- TreeWorker.run_tasks
  unfoldable pub run_tasks : List Row → Table → Table
  unfolding delete_list create_list
  run_tasks tasks t =
      let deleted = if is_nil (delete_list tasks) then t else delete (delete_list tasks) t in
      if is_nil (create_list tasks) then deleted else bulk_create (create_list tasks) deleted
