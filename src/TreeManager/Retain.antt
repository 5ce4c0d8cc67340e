-- ===== src/TreeManager/Retain.antt =====
-- Retaining rows: the tree as a map from paths to leaves after `retain_rows`.
use mote_broker.Prelude.{
  String, ◌≡◌, refl, ap, ◌∙◌, if◌then◌else◌, Option, none, some, List, [], ◌∷◌, ◌++◌, All, path_eq,
}
use mote_broker.Result.{ok}
use mote_broker.Dict.{Dict}
use mote_broker.RecursiveDict.{assign, find}
use mote_broker.RecursiveDict.Walk.{truediv-ensure, assign-ensure}
use mote_broker.RecursiveDict.Shape.{IsTree, IsNode}
use mote_broker.RecursiveDict.Find.{find-assign, IsTree-assign}
use mote_broker.Protocols.{Retained, Row}
use mote_broker.TreeManager.{TreeState, is_none, set_branch, retain_row, retain_loop, retain_rows}

-- A topic of nodes, with one at least.
abbrev pub IsTopic : List String → Type 0
IsTopic [] = ⊥
IsTopic (n ∷ p) = All IsNode (n ∷ p)

-- The leaf that the last row for a path has.
abbrev pub last_retained : List String → List Row → Option Retained → Option Retained
last_retained q [] before = before
last_retained q (r ∷ rows) before =
    last_retained q rows (if path_eq r.topic q then some r.payload else before)

-- One row of a topic is written, whatever the tree held before.
pub retain_row-assign :
    (nodes : List String) (a : Retained) (d : Dict Retained)
    → IsTopic nodes
    → IsTree d
    → retain_row nodes a d ≡ (ok tt, assign nodes a d)
unfolding retain_row
retain_row-assign [] a d h t = absurd h
retain_row-assign (n ∷ p) a d h t =
    ap (set_branch (n ∷ p) a) (truediv-ensure none is_none n p d h t)
    ∙ ap (λ r. (ok tt, r)) (assign-ensure (n ∷ p) a d)

pub IsTopic-nodes : (nodes : List String) → IsTopic nodes → All IsNode nodes
IsTopic-nodes [] h = tt
IsTopic-nodes (n ∷ p) h = h

retain_loop-find :
    (rows : List Row) (d : Dict Retained)
    → All (λ (r : Row). IsTopic r.topic) rows
    → IsTree d
    → ((retain_loop rows d).0 ≡ ok tt)
      × IsTree (retain_loop rows d).1
      × ((q : List String) → find q (retain_loop rows d).1 ≡ last_retained q rows (find q d))
unfolding retain_loop
retain_loop-find [] d h t = (refl, t, λ q. refl)
retain_loop-find (r ∷ rows) d h t =
    let nodes = IsTopic-nodes r.topic h.0 in
    let (done, t', found) =
      retain_loop-find rows (assign r.topic r.payload d) h.1
        (IsTree-assign r.topic r.payload d nodes t) in
    rw (retain_row-assign r.topic r.payload d h.0 t) (
      done,
      t',
      λ q. found q ∙ ap (last_retained q rows) (find-assign r.topic q r.payload d nodes t),
    )

-- Rows of proper topics are all retained: each path has the data of its last row, and where no row is
-- for it, what it had. The tree stays proper, and the rows are appended to the tasks.
pub retain_rows-find :
    (rows : List Row) (s : TreeState)
    → All (λ (r : Row). IsTopic r.topic) rows
    → IsTree s.tree
    → ((retain_rows rows s).0 ≡ ok tt)
      × IsTree (retain_rows rows s).1.tree
      × ((q : List String)
          → find q (retain_rows rows s).1.tree ≡ last_retained q rows (find q s.tree))
      × ((retain_rows rows s).1.tasks ≡ s.tasks ++ rows)
unfolding retain_rows
retain_rows-find rows s h t =
    let (done, t', found) = retain_loop-find rows s.tree h t in (done, t', found, refl)
