-- ===== src/TreeManager/Published.antt =====
-- A retained message without wildcards, from `process_message` to what a later filter shows of it.
use mote_broker.Prelude.{
  String, ◌≡◌, refl, ap, ◌∙◌, Bool, true, false, if◌then◌else◌, List, [], ◌∷◌, All,
}
use mote_broker.Result.{Result, ok}
use mote_broker.Dict.{Item}
use mote_broker.RecursiveDict.Shape.{IsTree, IsNode}
use mote_broker.RecursiveDict.Distinct.{IsDistinct}
use mote_broker.Protocols.{Bytes, Row}
use mote_broker.Protocols.Everything.{row}
use mote_broker.Protocols.Applicable.{all_static}
use mote_broker.Protocols.Applicable.Sound.{applicable-static}
use mote_broker.Protocols.Flatten.{Scalar}
use mote_broker.Protocols.Filter.{TreeItem}
use mote_broker.Protocols.Filter.Selection.{payload_at, selected, worth, IsFilter}
use mote_broker.Topic
use mote_broker.Topic.{Topic}
use mote_broker.Messages
use mote_broker.Messages.{IncomingMessage}
use mote_broker.TreeManager.{
  TreeState, process_message, retain_rows, retained_after, rows_after, filter,
}
use mote_broker.TreeManager.Retain.{retain_rows-find}
use mote_broker.TreeManager.Snapshot.{at_path_after, filter-retain_rows}

retained_after-ok :
    (rows : List Row) (s : TreeState)
    → (retain_rows rows s).0 ≡ ok tt
    → retained_after s (ok rows) ≡ (ok rows, (retain_rows rows s).1)
unfolding retained_after rows_after
retained_after-ok rows s e = rw e refl

module _ (treeify : Bytes → Result (Item Scalar)) (encode : String → Bytes) where
  process_message-plain :
      (m : IncomingMessage) (node : String) (next : List String) (s : TreeState)
      → m.graft ≡ false
      → Topic.node_list m.topic ≡ node ∷ next
      → all_static (node ∷ next) ≡ true
      → All IsNode (node ∷ next)
      → IsTree s.tree
      → process_message treeify encode m s
        ≡ retained_after s (ok (row m.payload m.qos (node ∷ next) ∷ []))
  unfolding process_message
  process_message-plain m node next s graft nodes static proper t = ap (retained_after s) (
      other m.graft (Messages.flatten_into_rows treeify encode m s.tree)
        (Messages.get_applicable_rows m s.tree) graft
      ∙ rows_of)
    where
      rows_of : Messages.get_applicable_rows m s.tree ≡ ok (row m.payload m.qos (node ∷ next) ∷ [])
      rows_of =
          unfold Messages.get_applicable_rows in
          rw nodes (applicable-static m.payload m.qos node next [] s.tree static proper t)

      other : (b : Bool) (x y : Result (List Row)) → b ≡ false → (if b then x else y) ≡ y
      other true x y e = cc
      other false x y e = refl

  -- A retained message without wildcards gives one row, for its own topic. After that every filter picks, for each
  -- choice of nodes for its wildcards, the payload of the message where this is its topic, and what was retained
  -- before elsewhere; a last `+` leaves out empty payloads.
  pub process_message-shown :
      (m : IncomingMessage) (node : String) (next : List String) (topic : Topic) (s : TreeState)
      → m.graft ≡ false
      → Topic.node_list m.topic ≡ node ∷ next
      → all_static (node ∷ next) ≡ true
      → All IsNode (node ∷ next)
      → IsFilter (Topic.node_list topic)
      → IsTree s.tree
      → IsDistinct s.tree
      → let rows = row m.payload m.qos (node ∷ next) ∷ [] in
        let s' = (process_message treeify encode m s).1 in
        ((process_message treeify encode m s).0 ≡ ok rows)
        × IsTree s'.tree
        × IsDistinct s'.tree
        × ((item : TreeItem) × (filter topic s' ≡ ok item)
            × ((ks : List String)
                → payload_at ks item
                  ≡ worth
                      (Topic.node_list topic)
                      (at_path_after (selected (Topic.node_list topic) ks) rows s.tree)))
  process_message-shown m node next topic s graft nodes static proper f t u =
      let rows : List Row = row m.payload m.qos (node ∷ next) ∷ [] in
      let kept = retain_rows-find rows s (proper, tt) t in
      let (distinct, shown) = filter-retain_rows rows topic s (proper, tt) f t u in
      rw
        (process_message-plain m node next s graft nodes static proper t
          ∙ retained_after-ok rows s kept.0)
        (refl, kept.1, distinct, shown)
