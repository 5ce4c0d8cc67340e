-- ===== src/Tables/Loading.antt =====
-- TableWorker.load_models of tables/manager.py, when the worker process starts, and TableManager.get_message.
-- An exception in it leaves the constructor of the worker, which ends the process.
use mote_broker.Prelude.{
  ℕ, String, ◌≡◌, refl, ap, ◌∙◌, ◌⊎◌, ◌=str=◌, eq_iff, if◌then◌else◌, inl, inr, Option, none, some,
  List, [], ◌∷◌, arith,
}
use mote_broker.Result.{Result, ok, err, Error, ◌>>=◌}
use mote_broker.Protocols.{Bytes}
use mote_broker.Protocols.Filter.{leaf}
use mote_broker.Topic
use mote_broker.Topic.{Topic}
use mote_broker.Messages.{OutgoingMessage}
use mote_broker.Tables.{find_model}
use mote_broker.Tables.Models.{TableMeta, put}

-- TableManager.get_message, where `query` is the answer of the worker
unfoldable pub get_message : (String → Bytes) → Topic → ℕ → OutgoingMessage
get_message query topic qos = record {
  topic = Topic.full_str topic;
  qos = qos;
  payload = leaf (some (query (Topic.full_str topic)));
}

module _ {Class : Type 0} (build : TableMeta → Result Class) where
  -- the dict that the comprehension fills, in the order of the rows
  unfoldable pub load_into : List (String × Class) → List TableMeta → Result (List (String × Class))
  load_into models [] = ok models
  load_into models (table ∷ tables) =
      build table >>= λ model. load_into (put table.topic model models) tables

  unfoldable pub load_models : List TableMeta → Result (List (String × Class))
  unfolding load_into
  load_models tables = load_into [] tables

  -- The class of the last row for a topic, over what was there before.
  abbrev pub last_built : String → List TableMeta → Option Class → Option Class
  last_built key [] before = before
  last_built key (table ∷ tables) before = last_built key tables (
      if table.topic =str= key
      then elim (build table) [ err e ↦ before | ok model ↦ some model ]
      else before)

  -- The first exception of the rows, if there is one.
  abbrev pub first_error : List TableMeta → Option Error
  first_error [] = none
  first_error (table ∷ tables) = elim (build table) [
    | err e ↦ some e
    | ok model ↦ first_error tables
  ]

  find-put :
      (key k : String) (model : Class) (models : List (String × Class))
      → find_model key (put k model models)
        ≡ (if k =str= key then some model else find_model key models)
  unfolding find_model put
  find-put key k model [] = refl
  find-put key k model ((j, m) ∷ models) =
      ground (arith, find-put key k model models, eq_iff j k, eq_iff k key, eq_iff j key)

  -- What the loop does from the models that it has.
  abbrev Loads : List (String × Class) → List TableMeta → Type 0
  Loads models tables =
      ((e : Error) × (first_error tables ≡ some e) × (load_into models tables ≡ err e))
      ⊎ ((loaded : List (String × Class)) × (first_error tables ≡ none)
          × (load_into models tables ≡ ok loaded)
          × ((key : String)
              → find_model key loaded ≡ last_built key tables (find_model key models)))

  load_into-finds : (models : List (String × Class)) (tables : List TableMeta) → Loads models tables
  unfolding load_into
  load_into-finds models [] = inr (models, refl, refl, λ key. refl)
  load_into-finds models (table ∷ tables) =
      by_build (build table) refl (λ model. load_into-finds (put table.topic model models) tables)
    where
      by_build :
          (r : Result Class)
          → build table ≡ r
          → ((model : Class) → Loads (put table.topic model models) tables)
          → Loads models (table ∷ tables)
      by_build (err e) h rest = inl (e, rw (h, first_error) refl, rw h refl)
      by_build (ok model) h rest = elim (rest model) [
        | inl (e, first, raised) ↦ inl (e, rw (h, first_error) first, rw h raised)
        | inr (loaded, none_first, returned, all) ↦ inr (
          loaded,
          rw (h, first_error) none_first,
          rw h returned,
          λ key.
              all key ∙ rw h (ap (last_built key tables) (find-put key table.topic model models)),
        )
      ]

  -- The classes are loaded at start-up: an exception of some row ends it, the first one in their order;
  -- without one each topic has the class of its last row.
  pub load_models-finds :
      (tables : List TableMeta)
      → ((e : Error) × (first_error tables ≡ some e) × (load_models tables ≡ err e))
        ⊎ ((loaded : List (String × Class)) × (first_error tables ≡ none)
            × (load_models tables ≡ ok loaded)
            × ((key : String) → find_model key loaded ≡ last_built key tables none))
  unfolding load_models find_model
  load_models-finds tables = load_into-finds [] tables
