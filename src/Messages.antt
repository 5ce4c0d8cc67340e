-- ===== src/Messages.antt =====
-- models/messages.py. `treeify` is `json.loads` of the decoded bytes, `encode` is `str.encode`, and
-- `json` is what protocols/stringify.py makes of a tree. A publish packet without payload has the data
-- `None`.
use mote_broker.Prelude.{
  ℕ, String, Bool, true, false, ◌=str=◌, if◌then◌else◌, Option, none, some, List, [],
}
use mote_broker.Result.{Result, ok, err, index_error, attribute_error, dynamic_message, ◌>>=◌}
use mote_broker.Dict.{Item, Dict, atom, dict, get, pop}
use mote_broker.RecursiveDict.{leaf_key, topic_sep}
use mote_broker.Topic
use mote_broker.Topic.{Topic}
use mote_broker.Protocols.{Bytes, Retained, Row}
use mote_broker.Protocols.Applicable.{all_static}
use mote_broker.Protocols.Applicable
use mote_broker.Protocols.Flatten.{Scalar, flatten_message_into_rows}
use mote_broker.Protocols.Filter.{TreeItem, leaf, tree}

pub record IncomingMessage : Type 0 where
  pub topic : Topic
  pub qos : ℕ
  pub retain : Bool
  pub graft : Bool
  pub payload : Retained

pub record OutgoingMessage : Type 0 where
  pub topic : String
  pub qos : ℕ
  pub payload : TreeItem

-- raw_topic[-1] == "/", which raises at an empty text
unfoldable pub ends_with_sep : String → Result Bool
ends_with_sep String.[] = err index_error
ends_with_sep (String.◌∷◌ c String.[]) = ok (String.◌∷◌ c "" =str= topic_sep)
ends_with_sep (String.◌∷◌ c (String.◌∷◌ d s)) = ends_with_sep (String.◌∷◌ d s)

-- raw_topic[:-1]
unfoldable pub drop_last : String → String
drop_last String.[] = ""
drop_last (String.◌∷◌ c String.[]) = ""
drop_last (String.◌∷◌ c (String.◌∷◌ d s)) = String.◌∷◌ c (drop_last (String.◌∷◌ d s))

-- Topic.from_str, which makes a topic of every text
unfoldable pub topic_of : String → Result Topic
topic_of s = elim (Topic.from_str s) [ none ↦ err attribute_error | some t ↦ ok t ]

unfoldable pub from_raw_data : String → Retained → ℕ → Bool → Result IncomingMessage
unfolding ends_with_sep drop_last topic_of
from_raw_data raw_topic payload qos true = do
  graft ← ends_with_sep raw_topic
  topic ← topic_of (if graft then drop_last raw_topic else raw_topic)
  ok (record { topic = topic; qos = qos; retain = true; graft = graft; payload = payload })
from_raw_data raw_topic payload qos false = do
  topic ← topic_of raw_topic
  ok (record { topic = topic; qos = qos; retain = false; graft = false; payload = payload })

-- IncomingMessage.table
unfoldable pub table : IncomingMessage → Result Bool
table m = Topic.for_table m.topic

unfoldable pub get_applicable_rows : IncomingMessage → Dict Retained → Result (List Row)
get_applicable_rows m t =
    Applicable.get_applicable_rows m.payload m.qos (Topic.node_list m.topic) [] false (dict t)

unfoldable pub as_single_row : IncomingMessage → Result Row
as_single_row m =
    if all_static (Topic.node_list m.topic)
    then ok (record { topic = Topic.node_list m.topic; payload = m.payload; qos = m.qos })
    else err dynamic_message

-- data.pop(LEAF_KEY, None) if isinstance(data, dict) else None
unfoldable pub pop_flags : Item Scalar → Option (Item Scalar) × Item Scalar
pop_flags (atom a) = (none, atom a)
pop_flags (dict d) = (get leaf_key d, dict (pop leaf_key d))

-- self.data.decode(), handed on to the JSON library
unfoldable pub decoded : (Bytes → Result (Item Scalar)) → Retained → Result (Item Scalar)
decoded treeify none = err attribute_error
decoded treeify (some bytes) = treeify bytes

unfoldable pub flatten_into_rows :
    (Bytes → Result (Item Scalar))
    → (String → Bytes)
    → IncomingMessage
    → Dict Retained
    → Result (List Row)
unfolding pop_flags decoded
flatten_into_rows treeify encode m t = do
  given ← decoded treeify m.payload
  flatten_message_into_rows encode m.qos (pop_flags given).0 (Topic.node_list m.topic)
      (pop_flags given).1 [] (dict t)

-- OutgoingMessage.from_tree_item
unfoldable pub from_tree_item :
    (Dict Retained → Result Bytes) → String → ℕ → TreeItem → Result OutgoingMessage
from_tree_item json topic qos (tree d) = do
  s ← json d
  ok (record { topic = topic; qos = qos; payload = leaf (some s) })
from_tree_item json topic qos item = ok (record { topic = topic; qos = qos; payload = item })

-- IncomingMessage.last_will, of the fields of a connect packet
unfoldable pub last_will : String → Retained → ℕ → Bool → Result IncomingMessage
unfolding from_raw_data
last_will last_will_topic last_will_message last_will_qos retain_last_will =
    from_raw_data last_will_topic last_will_message last_will_qos retain_last_will
