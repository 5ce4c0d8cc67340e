-- ===== src/Tests/Retained.antt =====
-- Witnesses about the retained tree: filters and grafted messages.
use mote_broker.Prelude.{String, ◌≡◌, refl, true, false, none, some, List, [], ◌∷◌, ◌++◌}
use mote_broker.Result.{Result, ok}
use mote_broker.Dict.{Item, Dict, atom, dict, empty, entry, get, set, pop}
use mote_broker.RecursiveDict.{find, truediv, assign}
use mote_broker.RecursiveDict.Shape.{IsTree}
use mote_broker.RecursiveDict.Distinct.{IsDistinct}
use mote_broker.Protocols.{Bytes, is_node_static}
use mote_broker.Protocols.Filter.{TreeItem}
use mote_broker.Protocols.Filter.Selection.{payload_at, payload_of, selected, worth}
use mote_broker.Protocols.Filter.Wildcards.{IsFiltered, filter_tree-selects}
use mote_broker.Protocols.Flatten.{Scalar, text, flatten_message_into_rows}
use mote_broker.Topic
use mote_broker.Topic.{Topic, root, below}
use mote_broker.Messages.{IncomingMessage, decoded, flatten_into_rows}
use mote_broker.TreeManager.{TreeState, process_message, retain_rows, filter}
use mote_broker.TreeManager.Graft.{graft_rows}
use mote_broker.TreeManager.Graft.Replaces.{IsGraft, replaced, process_message-replaces}
use mote_broker.TreeManager.Snapshot.{at_path_after}
use mote_broker.TreeManager.Published.{process_message-shown}
use mote_broker.Protocols.Everything.{row}
use mote_broker.Tests.Rows.{retained, retained-IsTree}

retained-IsDistinct : IsDistinct retained
unfolding get
retained-IsDistinct = (refl, (refl, (refl, tt, tt), (refl, (refl, tt, tt), tt)), tt)

filter_tree-selects_example : IsFiltered ("light" ∷ "+" ∷ []) retained
filter_tree-selects_example =
    filter_tree-selects ("light" ∷ "+" ∷ []) retained (refl, refl, refl) retained-IsTree
      retained-IsDistinct

abbrev state : TreeState
state = record { tree = retained; tasks = [] }

abbrev every_light : Topic
every_light = below (root "light" none) "+" none

-- {"/": "+", "bedroom": "5"}
abbrev given : Dict Scalar
given = entry "/" (atom (text "+")) (entry "bedroom" (atom (text "5")) empty)

abbrev treeify : Bytes → Result (Item Scalar)
treeify bytes = ok (dict given)

abbrev encode : String → Bytes
encode s = 53 ∷ []

abbrev grafted : IncomingMessage
grafted = record {
  topic = every_light;
  qos = 1;
  retain = true;
  graft = true;
  payload = some (123 ∷ []);
}

grafted-IsGraft : IsGraft treeify grafted ("light" ∷ []) given
unfolding Topic.node_list is_node_static decoded get pop
grafted-IsGraft = record {
  graft = refl;
  nodes = refl;
  static = refl;
  proper = (refl, tt);
  parsed = refl;
  flagged = refl;
  texts = (refl, tt);
  distinct = (refl, tt, (refl, tt, tt));
}

process_message-replaces_example :
    ((process_message treeify encode grafted state).0
      ≡ ok (graft_rows encode 1 ("light" ∷ []) (pop "/" given) retained))
    × IsTree (process_message treeify encode grafted state).1.tree
    × (payload_of
          (find ("light" ∷ "kitchen" ∷ []) (process_message treeify encode grafted state).1.tree)
        ≡ replaced encode ("light" ∷ []) (pop "/" given) retained ("light" ∷ "kitchen" ∷ []))
    × ((process_message treeify encode grafted state).1.tasks
        ≡ [] ++ graft_rows encode 1 ("light" ∷ []) (pop "/" given) retained)
process_message-replaces_example =
    process_message-replaces treeify encode grafted ("light" ∷ []) given state
      ("light" ∷ "kitchen" ∷ []) grafted-IsGraft retained-IsTree retained-IsDistinct

-- the payload of the kitchen is gone, that of the bedroom is the one given
grafted_runs :
    (payload_of
        (find ("light" ∷ "kitchen" ∷ []) (process_message treeify encode grafted state).1.tree)
      ≡ none)
    × (payload_of
          (find ("light" ∷ "bedroom" ∷ []) (process_message treeify encode grafted state).1.tree)
        ≡ some (53 ∷ []))
unfolding process_message find get flatten_into_rows flatten_message_into_rows Topic.node_list pop
    retain_rows truediv assign set
grafted_runs = (refl, refl)

-- 51 is published at light/bedroom
abbrev published : IncomingMessage
published = record {
  topic = below (root "light" none) "bedroom" none;
  qos = 1;
  retain = true;
  graft = false;
  payload = some (51 ∷ []);
}

process_message-shown_example :
    let published_rows = row (some (51 ∷ [])) 1 ("light" ∷ "bedroom" ∷ []) ∷ [] in
    let s' = (process_message treeify encode published state).1 in
    ((process_message treeify encode published state).0 ≡ ok published_rows)
    × IsTree s'.tree
    × IsDistinct s'.tree
    × ((item : TreeItem) × (filter every_light s' ≡ ok item)
        × ((ks : List String)
            → payload_at ks item
              ≡ worth
                  ("light" ∷ "+" ∷ [])
                  (at_path_after (selected ("light" ∷ "+" ∷ []) ks) published_rows retained)))
unfolding Topic.node_list is_node_static
process_message-shown_example =
    process_message-shown treeify encode published "light" ("bedroom" ∷ []) every_light state refl
      refl refl (refl, (refl, tt)) (refl, refl, refl) retained-IsTree retained-IsDistinct
