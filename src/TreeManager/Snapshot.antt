-- ===== src/TreeManager/Snapshot.antt =====
-- What a subscriber is shown of the retained tree after some rows are retained: `TreeManager.filter` after `retain_rows`.
use mote_broker.Prelude.{String, ◌≡◌, refl, ap, ◌∙◌, Option, none, some, List, [], ◌∷◌, All}
use mote_broker.Result.{ok}
use mote_broker.Dict.{Dict}
use mote_broker.RecursiveDict.{find, assign}
use mote_broker.RecursiveDict.Shape.{IsTree}
use mote_broker.RecursiveDict.Find.{IsTree-assign}
use mote_broker.RecursiveDict.Distinct.{IsDistinct, IsDistinct-assign}
use mote_broker.Protocols.{Bytes, Retained, Row}
use mote_broker.Protocols.Filter.{TreeItem}
use mote_broker.Protocols.Filter.Selection.{
  payload_at, selected, payload_of, at_path, worth, IsFilter,
}
use mote_broker.Protocols.Filter.Wildcards.{filter_tree-selects}
use mote_broker.Topic
use mote_broker.Topic.{Topic}
use mote_broker.TreeManager.{TreeState, retain_loop, retain_rows, filter}
use mote_broker.TreeManager.Retain.{
  IsTopic, last_retained, retain_rows-find, retain_row-assign, IsTopic-nodes,
}

retain_loop-IsDistinct :
    (rows : List Row) (d : Dict Retained)
    → All (λ (r : Row). IsTopic r.topic) rows
    → IsTree d
    → IsDistinct d
    → IsDistinct (retain_loop rows d).1
unfolding retain_loop
retain_loop-IsDistinct [] d h t u = u
retain_loop-IsDistinct (r ∷ rows) d h t u = rw (retain_row-assign r.topic r.payload d h.0 t) (
    retain_loop-IsDistinct rows (assign r.topic r.payload d) h.1
      (IsTree-assign r.topic r.payload d (IsTopic-nodes r.topic h.0) t)
      (IsDistinct-assign r.topic r.payload d u))

-- The payload of the last row for a path, or else what is retained there.
abbrev pub at_path_after : Option (List String) → List Row → Dict Retained → Option Bytes
at_path_after none rows d = none
at_path_after (some path) rows d = payload_of (last_retained path rows (find path d))

at_path-after :
    (o : Option (List String)) (rows : List Row) (d d' : Dict Retained)
    → ((q : List String) → find q d' ≡ last_retained q rows (find q d))
    → at_path o d' ≡ at_path_after o rows d
at_path-after none rows d d' found = refl
at_path-after (some path) rows d d' found = ap payload_of (found path)

-- After rows of proper topics are retained, a filter picks for each choice of nodes for its wildcards the payload of the last row for that path, or what was
-- retained there where no row is for it; a last `+` leaves out empty payloads. Distinct keys stay distinct.
pub filter-retain_rows :
    (rows : List Row) (topic : Topic) (s : TreeState)
    → All (λ (r : Row). IsTopic r.topic) rows
    → IsFilter (Topic.node_list topic)
    → IsTree s.tree
    → IsDistinct s.tree
    → IsDistinct (retain_rows rows s).1.tree
      × ((item : TreeItem) × (filter topic (retain_rows rows s).1 ≡ ok item)
          × ((ks : List String)
              → payload_at ks item
                ≡ worth
                    (Topic.node_list topic)
                    (at_path_after (selected (Topic.node_list topic) ks) rows s.tree)))
unfolding filter retain_rows
filter-retain_rows rows topic s h f t u =
    let nodes = Topic.node_list topic in
    let kept = retain_rows-find rows s h t in
    let distinct = retain_loop-IsDistinct rows s.tree h t u in
    let found = filter_tree-selects nodes (retain_rows rows s).1.tree f kept.1 distinct in
    (
      distinct,
      (
        found.item,
        found.returns,
        λ ks.
            found.selects ks
            ∙ ap (worth nodes)
                (at_path-after (selected nodes ks) rows s.tree (retain_rows rows s).1.tree kept.2),
      ),
    )
