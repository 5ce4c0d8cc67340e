-- ===== src/Protocols/Messages.antt =====
-- protocols/create_messages_for_subscriptions.py. The tree of subscriptions holds at a leaf the
-- clients (`A`); a message goes to these clients, under the filter that they subscribed to.
use mote_broker.Prelude.{
  ℕ, suc, String, Bool, true, false, not, ◌&&◌, ◌==◌, ◌=str=◌, if◌then◌else◌, Option, none, some,
  List, [], ◌∷◌, ◌++◌, length, get_elem?, keep,
}
use mote_broker.Result.{Result, ok, err, index_error, attribute_error, ◌>>=◌}
use mote_broker.Dict.{Item, Dict, atom, dict, empty, entry, set}
use mote_broker.RecursiveDict.{leaf_key, many_card, visit}
use mote_broker.Protocols.{Bytes, Retained, Row, is_node_static}

-- One row written into the tree of a message. The list `base` holds the filter, `key` the `ref_key`
-- of the loop (`none` is its first value, the index into the list around the tree), and the dict is
-- what `ref` holds: with `none` that is the list, so that a write to it leaves the tree alone.
unfoldable pub place :
    List String
    → List String
    → Retained
    → Option String
    → Dict Retained
    → Result (Unit {0}) × Dict Retained
place (f ∷ base) (node ∷ topic) payload none ref =
    place base topic payload (if is_node_static f then none else some node) ref
place (f ∷ base) (node ∷ topic) payload (some key) ref =
    if is_node_static f
    then place base topic payload (some key) ref
    else visit none (place base topic payload (some node)) key ref
place _ _ payload none ref = (ok tt, ref)
place _ _ payload (some key) ref = (ok tt, set key (atom payload) ref)

-- the loop over the rows
unfoldable pub place_rows : List String → List Row → Dict Retained → Result (Dict Retained)
unfolding place
place_rows base [] tree = ok tree
place_rows base (r ∷ rows) tree =
    let (done, tree') = place base r.topic r.payload none tree in
    done >>= λ _. place_rows base rows tree'

-- rows[-1][1]
unfoldable pub last_payload : List Row → Result Retained
last_payload [] = err index_error
last_payload (r ∷ []) = ok r.payload
last_payload (r ∷ s ∷ rows) = last_payload (s ∷ rows)

abbrev pub is_nil : List Row → Bool
is_nil [] = true
is_nil (r ∷ rows) = false

-- depth == len(topic)
abbrev pub ends_at : ℕ → Row → Bool
ends_at depth r = depth == length r.topic

abbrev pub is_some_node : String → Option String → Bool
is_some_node k none = false
is_some_node k (some n) = n =str= k

-- topic[depth] is the node, and the topic is that long
abbrev pub passes : ℕ → String → Row → Bool
passes depth k r = is_some_node k (get_elem? r.topic depth)

pub record Message (A : Type 0) : Type 0 where
  pub clients : Item A
  pub topic : List String
  pub payload : Retained

-- `json` is what protocols/stringify.py makes of a tree by the JSON library.
unfoldable pub build_message_data :
    (Dict Retained → Result Bytes) → List Row → List String → Bool → Result Retained
unfolding place_rows last_payload
build_message_data json leaf_rows base wildcards =
    if wildcards
    then (place_rows base leaf_rows empty >>= λ tree. json tree >>= λ s. ok (some s))
    else last_payload leaf_rows

-- the rows that go on to the branch of a filter node
unfoldable pub rows_for : String → ℕ → List Row → List Row
rows_for filter_node depth rows =
    if filter_node =str= many_card then rows else keep (passes depth filter_node) rows

module _ {A : Type 0} (json : Dict Retained → Result Bytes) where
  -- The entry of the leaf key, where rows end at this depth.
  unfoldable pub leaf_message : Item A → List Row → List String → Bool → Result (List (Message A))
  leaf_message branch leaf_rows base wildcards =
      build_message_data json leaf_rows base wildcards >>= λ response.
      ok (record { clients = branch; topic = base; payload = response } ∷ [])

  -- Below a leaf, the source would go on to iterate the dict of clients: rows get there only by a
  -- node that is the leaf key, which no topic has.
  unfoldable mutual
    pub create_for : Dict A → List Row → List String → ℕ → Bool → Result (List (Message A))
    create_for empty rows base depth wildcards = ok []
    create_for (entry filter_node branch rest) rows base depth wildcards =
        (let leaf_rows = keep (ends_at depth) rows in
          let new_rows = rows_for filter_node depth rows in
          let below =
            create_branch branch new_rows (base ++ filter_node ∷ []) (suc depth)
              (if filter_node =str= many_card then true else wildcards) in
          if not (is_nil leaf_rows) && filter_node =str= leaf_key
          then leaf_message branch leaf_rows base wildcards
          else if is_nil new_rows
          then ok []
          else below)
        >>= λ here. create_for rest rows base depth wildcards >>= λ more. ok (here ++ more)

    pub create_branch : Item A → List Row → List String → ℕ → Bool → Result (List (Message A))
    create_branch (atom clients) rows base depth wildcards = err attribute_error
    create_branch (dict branch) rows base depth wildcards =
        create_for branch rows base depth wildcards

  unfoldable pub create_messages_for_subscriptions : Dict A → List Row → Result (List (Message A))
  unfolding create_for
  create_messages_for_subscriptions subscriptions rows = create_for subscriptions rows [] 0 false
