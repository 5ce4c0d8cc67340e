-- ===== src/Topic.antt =====
-- models/topic.py: a topic is a chain of nodes, each with its parent, and may hold the text that it
-- was made from. `_nodes` and `_str` only keep what is computed once, so that the text which a topic
-- is made with is all of them that counts.
pub mod Split
pub mod RoundTrip
use mathlib.Core.List.{reverse}
use mote_broker.Prelude
use mote_broker.Prelude.{
  ℕ, zero, suc, get_elem?, String, Bool, Option, none, some, List, [], ◌∷◌, ◌=str=◌,
}
use mote_broker.Result.{Result, ok, err, index_error, ◌>>=◌}
use mote_broker.RecursiveDict.{topic_sep, table_flag}
use mote_broker.Topic.Split.{split, join}

pub data Topic : Type 0 where
  root : String → Option String → Topic
  below : Topic → String → Option String → Topic

-- A topic from its nodes, the last first: `nodes[-1]` is the head of the reversed list, and
-- `nodes[:-1]` its tail. The parents are made with no text.
unfoldable pub chain : String → List String → Option String → Topic
chain node [] str = root node str
chain node (parent ∷ rest) str = below (chain parent rest none) node str

from_reversed : List String → Option String → Option Topic
from_reversed [] str = none
from_reversed (node ∷ rest) str = some (chain node rest str)

-- Topic.from_nodes(nodes, full_str=str); `none` is Python's `None`
unfoldable pub from_nodes : List String → Option String → Option Topic
unfolding from_reversed chain
from_nodes nodes str = from_reversed (reverse nodes) str

-- Topic.from_str
unfoldable pub from_str : String → Option Topic
unfolding from_nodes
from_str s = from_nodes (split s) (some s)

-- the nodes that the loop of `node_list` collects, from the topic up
ancestors : Topic → List String
ancestors (root node str) = node ∷ []
ancestors (below parent node str) = node ∷ ancestors parent

unfoldable pub node_list : Topic → List String
unfolding ancestors
node_list t = reverse (ancestors t)

own_str : Topic → Option String
own_str (root node str) = str
own_str (below parent node str) = str

unfoldable pub str_or_join : Option String → List String → String
str_or_join (some s) nodes = s
str_or_join none nodes = join nodes

-- full_str, which is also `str(topic)`
unfoldable pub full_str : Topic → String
unfolding own_str str_or_join node_list
full_str t = str_or_join (own_str t) (node_list t)

-- topic / node
unfoldable pub truediv : Topic → String → Topic
truediv t node = below t node none

-- topic == other
unfoldable pub eq : Topic → Topic → Bool
unfolding full_str
eq t u = full_str t =str= full_str u

-- s[0] == "@", which raises at an empty text
first_is_flag : String → Result Bool
first_is_flag String.[] = err index_error
first_is_flag (String.◌∷◌ c s) = ok (String.◌∷◌ c "" =str= table_flag)

-- node_list[0]
first_node : List String → Result String
first_node [] = err index_error
first_node (n ∷ ns) = ok n

unfoldable pub for_table : Topic → Result Bool
unfolding first_is_flag first_node node_list
for_table t = first_node (node_list t) >>= first_is_flag

-- topic[item], of an index
unfoldable pub getitem : Topic → ℕ → Result String
unfolding node_list
getitem t item = elim (get_elem? (node_list t) item) [ none ↦ err index_error | some n ↦ ok n ]

-- nodes[start:]
drop_nodes : ℕ → List String → List String
drop_nodes zero nodes = nodes
drop_nodes (suc start) [] = []
drop_nodes (suc start) (n ∷ nodes) = drop_nodes start nodes

-- topic[start:]
unfoldable pub getslice : Topic → ℕ → Option Topic
unfolding node_list from_nodes drop_nodes
getslice t start = from_nodes (drop_nodes start (node_list t)) none

unfoldable pub length : Topic → ℕ
unfolding node_list
length t = Prelude.length (node_list t)
