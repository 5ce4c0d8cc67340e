-- ===== src/Broker/MainLoop.antt =====
-- Broker.main_loop of broker/broker.py: a round takes rows from the broadcast queue and, under the lock of
-- the subscriptions, queues their messages. The subscriptions and clients may be others in each round. An
-- exception is logged and does not end the loop; what was queued before it stays queued.
pub mod Publish
use mote_broker.Prelude.{ℕ, Bool, true, false, if◌then◌else◌, List, [], ◌∷◌, ◌++◌}
use mote_broker.Result.{Result}
use mote_broker.Dict.{Dict}
use mote_broker.Protocols.{Bytes, Retained, Row}
use mote_broker.Protocols.Messages.{is_nil}
use mote_broker.Broker.Subscriptions.{Subscriptions}
use mote_broker.Broker.Dispatch.{Queued, process_outgoing_rows}

-- The rows of a round, with what the broker holds then.
pub record Round : Type 0 where
  pub subscriptions : Subscriptions
  pub clients : Dict ℕ
  pub rows : List Row

module _ (json : Dict Retained → Result Bytes) where
  -- if rows: ...
  unfoldable pub run_round : Round → List Queued → List Queued
  run_round r queued =
      if is_nil r.rows
      then queued
      else queued ++ (process_outgoing_rows json r.subscriptions r.clients r.rows).1

  -- The loop, for the rounds that it makes: all that was queued for clients.
  unfoldable pub main_loop : List Round → List Queued → List Queued
  unfolding run_round
  main_loop [] queued = queued
  main_loop (r ∷ rounds) queued = main_loop rounds (run_round r queued)
