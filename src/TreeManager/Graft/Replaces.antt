-- ===== src/TreeManager/Graft/Replaces.antt =====
-- `process_message` of a grafted message with the flag `+`, as a change to the map from paths to payloads.
use mathlib.Core.Path.{subst}
use mote_broker.Prelude.{
  ℕ, String, ◌≡◌, refl, sym, ap, ◌∙◌, Bool, true, false, ◌=str=◌, eq_iff, eq_refl, if◌then◌else◌,
  Bool-cases, inl, inr, Option, none, some, List, [], ◌∷◌, ◌++◌, All, All-append,
}
use mote_broker.Result.{Result, ok}
use mote_broker.Dict.{Item, Dict, atom, dict, get, pop}
use mote_broker.RecursiveDict.{leaf_key, find, child}
use mote_broker.RecursiveDict.Shape.{IsTree, IsNode}
use mote_broker.RecursiveDict.Distinct.{IsDistinct, IsDistinct-child, IsDistinct-pop}
use mote_broker.Protocols.{Bytes, Retained, Row}
use mote_broker.Protocols.Applicable.{all_static}
use mote_broker.Protocols.Filter.Selection.{payload_of}
use mote_broker.Protocols.Flatten.{Scalar, text}
use mote_broker.Protocols.Flatten.Graft.{AreTexts, descend, IsTree-descend, flatten-rows}
use mote_broker.Topic
use mote_broker.Messages
use mote_broker.Messages.{IncomingMessage, decoded, pop_flags, flatten_into_rows}
use mote_broker.TreeManager.{TreeState, process_message, retained_after, rows_after}
use mote_broker.TreeManager.Retain.{last_retained, retain_rows-find}
use mote_broker.TreeManager.Graft.{given_payload, graft_rows, graft_rows-find}
use mote_broker.TreeManager.Graft.Behind.{
  Extends, given_rows-Extends, emptied_rows-Extends, IsTopic-rows, last_retained_other,
}

-- The node of a path that is one node longer than the base.
abbrev pub behind : List String → List String → Option String
behind [] [] = none
behind [] (k ∷ []) = some k
behind [] (k ∷ m ∷ q) = none
behind (n ∷ base) [] = none
behind (n ∷ base) (m ∷ q) = if n =str= m then behind base q else none

behind-some : (base q : List String) (k : String) → behind base q ≡ some k → q ≡ base ++ k ∷ []
behind-some [] [] k e = cc
behind-some [] (j ∷ []) k e = cc
behind-some [] (j ∷ m ∷ q) k e = cc
behind-some (n ∷ base) [] k e = cc
behind-some (n ∷ base) (m ∷ q) k e = elim (Bool-cases (n =str= m)) [
  | inl same ↦
      let rest = behind-some base q k (rw same at e) in let here = (eq_iff n m).0 same in cc
  | inr apart ↦ let no : none ≡ some k = rw apart at e in cc
]

behind-append : (base : List String) (k : String) → behind base (base ++ k ∷ []) ≡ some k
behind-append [] k = refl
behind-append (n ∷ base) k = rw (eq_refl, behind-append base k) refl

IsDistinct-descend :
    (nodes : List String) (d : Dict Retained) → IsDistinct d → IsDistinct (descend nodes d)
IsDistinct-descend [] d u = u
IsDistinct-descend (n ∷ nodes) d u = IsDistinct-descend nodes (child n d) (IsDistinct-child n d u)

-- The payload of a path once the data is grafted behind the base.
abbrev pub replaced :
    (String → Bytes) → List String → Dict Scalar → Dict Retained → List String → Option Bytes
replaced encode base given d q = elim (behind base q) [
  | some key ↦ given_payload encode (get key given)
  | none ↦ payload_of (find q d)
]

module _ (encode : String → Bytes) (qos : ℕ) where
  graft_rows-Extends :
      (base : List String) (given : Dict Scalar) (d : Dict Retained)
      → AreTexts given
      → IsTree d
      → All (Extends base) (graft_rows encode qos base given d)
  graft_rows-Extends base given d texts t =
      All-append (Extends base) _ _ (given_rows-Extends encode qos base given texts)
        (emptied_rows-Extends encode qos base given (descend base d) (IsTree-descend base d t))

  graft_rows-replaced :
      (base : List String) (given : Dict Scalar) (d : Dict Retained) (q : List String)
      → AreTexts given
      → IsDistinct given
      → IsTree d
      → IsDistinct d
      → payload_of (last_retained q (graft_rows encode qos base given d) (find q d))
        ≡ replaced encode base given d q
  graft_rows-replaced base given d q texts u t v = by_key (behind base q) refl
    where
      by_key :
          (o : Option String)
          → behind base q ≡ o
          → payload_of (last_retained q (graft_rows encode qos base given d) (find q d))
            ≡ elim o as (λ x. Option Bytes) [
              | some key ↦ given_payload encode (get key given)
              | none ↦ payload_of (find q d)
            ]
      by_key (some key) e =
          subst
            (λ p.
              payload_of (last_retained p (graft_rows encode qos base given d) (find p d))
              ≡ given_payload encode (get key given))
            (sym (behind-some base q key e))
            (graft_rows-find encode qos base given d key texts u (IsDistinct-descend base d v))
      by_key none e = ap payload_of (
          last_retained_other q base (graft_rows encode qos base given d) (find q d)
            (λ k same.
              let k_is = behind-append base k in
              let e' = subst (λ p. behind base p ≡ none) same e in cc)
            (graft_rows-Extends base given d texts t))

-- the hypotheses on a message that is grafted at the last `+` behind `base`, with the data `given`
pub record IsGraft (treeify : Bytes → Result (Item Scalar)) (m : IncomingMessage)
    (base : List String) (given : Dict Scalar) : Type 0 where
  pub graft : m.graft ≡ true
  pub nodes : Topic.node_list m.topic ≡ base ++ "+" ∷ []
  pub static : all_static base ≡ true
  pub proper : All IsNode base
  pub parsed : decoded treeify m.payload ≡ ok (dict given)
  pub flagged : get leaf_key given ≡ some (atom (text "+"))
  pub texts : AreTexts (pop leaf_key given)
  pub distinct : IsDistinct given

chosen : {A : Type 0} (b : Bool) (x y : A) → b ≡ true → (if b then x else y) ≡ x
chosen true x y e = refl
chosen false x y e = cc

module _ (treeify : Bytes → Result (Item Scalar)) (encode : String → Bytes) where
  flatten_into_rows-graft :
      (m : IncomingMessage) (base : List String) (given : Dict Scalar) (d : Dict Retained)
      → IsGraft treeify m base given
      → IsTree d
      → flatten_into_rows treeify encode m d
        ≡ ok (graft_rows encode m.qos base (pop leaf_key given) d)
  unfolding flatten_into_rows pop_flags
  flatten_into_rows-graft m base given d g t =
      rw (g.parsed, g.flagged, g.nodes)
        (flatten-rows encode m.qos base [] (pop leaf_key given) d g.static g.proper g.texts t)

  process_message-graft :
      (m : IncomingMessage) (s : TreeState) (r : Result (List Row))
      → m.graft ≡ true
      → flatten_into_rows treeify encode m s.tree ≡ r
      → process_message treeify encode m s ≡ retained_after s r
  unfolding process_message
  process_message-graft m s r graft e =
      ap (retained_after s) (chosen m.graft _ (Messages.get_applicable_rows m s.tree) graft ∙ e)

  -- A grafted message whose topic has a last `+` behind nodes without wildcards, and whose data is an object of texts with the flag `+`, is retained: behind these nodes each path of one more node then has the
  -- payload that the data names for it, and none where the data names none; every other path keeps its payload. The tree stays proper, and
  -- the rows returned are the tasks added.
  pub process_message-replaces :
      (m : IncomingMessage) (base : List String) (given : Dict Scalar) (s : TreeState)
      (q : List String)
      → IsGraft treeify m base given
      → IsTree s.tree
      → IsDistinct s.tree
      → ((process_message treeify encode m s).0
          ≡ ok (graft_rows encode m.qos base (pop leaf_key given) s.tree))
        × IsTree (process_message treeify encode m s).1.tree
        × (payload_of (find q (process_message treeify encode m s).1.tree)
            ≡ replaced encode base (pop leaf_key given) s.tree q)
        × ((process_message treeify encode m s).1.tasks
            ≡ s.tasks ++ graft_rows encode m.qos base (pop leaf_key given) s.tree)
  unfolding retained_after rows_after
  process_message-replaces m base given s q g t u =
      let rows = graft_rows encode m.qos base (pop leaf_key given) s.tree in
      let kept =
        retain_rows-find rows s
          (IsTopic-rows base rows g.proper
            (graft_rows-Extends encode m.qos base (pop leaf_key given) s.tree g.texts t))
          t in
      let behind_base =
        graft_rows-replaced encode m.qos base (pop leaf_key given) s.tree q g.texts
          (IsDistinct-pop leaf_key given g.distinct) t u in
      rw
        (
          process_message-graft m s (ok rows) g.graft
              (flatten_into_rows-graft m base given s.tree g t),
          kept.0,
        )
        (refl, kept.1, ap payload_of (kept.2 q) ∙ behind_base, kept.3)
