-- ===== src/Protocols.antt =====
-- protocols/: what the parts share. A row is a topic's nodes, the data and the quality of service.
-- The data of a retained leaf is `none` where the source stores `None`.
pub mod Matching
pub mod Messages
pub mod Fanout
pub mod Everything
pub mod Applicable
pub mod Filter
pub mod Flatten
use mote_broker.Prelude.{ℕ, String, Bool, not, ◌||◌, ◌=str=◌, List, Option, none, some}
use mote_broker.RecursiveDict.{many_card, everything_card}

abbrev pub Bytes : Type 0
Bytes = List ℕ

-- what a leaf of the retained tree holds
abbrev pub Retained : Type 0
Retained = Option Bytes

-- protocols/is_node_static.py
unfoldable pub is_node_static : String → Bool
is_node_static node = not (node =str= many_card || node =str= everything_card)

pub record Row : Type 0 where
  pub topic : List String
  pub payload : Retained
  pub qos : ℕ
