-- ===== src/Protocols/Filter/Static.antt =====
-- What a topic without wildcards picks.
use mathlib.Core.Option.{get_or}
use mote_broker.Prelude.{
  String, ◌≡◌, refl, true, Option, none, some, List, [], ◌∷◌, Bool-cases, ◌⊎◌, inl, inr, All, arith,
}
use mote_broker.Result.{Result, ok}
use mote_broker.Dict.{Item, Dict, atom, dict, empty, get}
use mote_broker.RecursiveDict.{leaf_key, find, leaf_of, dict_of}
use mote_broker.RecursiveDict.Shape.{IsTree, IsNode, get-IsEntry}
use mote_broker.Protocols.{Retained, is_node_static}
use mote_broker.Protocols.Applicable.{all_static}
use mote_broker.Protocols.Applicable.Sound.{static-card}
use mote_broker.Protocols.Filter.{
  TreeItem, empty_text, leaf, filter_tree_with_topic, on_branch, leaf_of_branch, leaf_or_none,
  last_is_static,
}

-- The leaf retained for the topic, or `None` or the empty text where none is.
abbrev Picks : Option Retained → Result TreeItem → Type 0
Picks found r = (r ≡ ok (leaf (get_or found none))) ⊎ ((found ≡ none) × (r ≡ ok empty_text))

find-empty : (p : List String) → find {A = Retained} p empty ≡ none
unfolding find get
find-empty [] = refl
find-empty (n ∷ p) = find-empty p

leaf_of_branch-Picks : (d : Dict Retained) → IsTree d → Picks (find [] d) (leaf_of_branch (dict d))
unfolding find leaf_of_branch
leaf_of_branch-Picks d t = by_get (get leaf_key d) refl
  where
    by_get :
        (o : Option (Item Retained)) → get leaf_key d ≡ o → Picks (leaf_of o) (ok (leaf_or_none o))
    by_get none e = inl refl
    by_get (some (atom a)) e = inl refl
    by_get (some (dict s)) e = cc ((get-IsEntry leaf_key (dict s) d t e).0)

on_branch-Picks :
    (f : Item Retained → Result TreeItem) (node : String) (next : List String) (d : Dict Retained)
    → IsNode node
    → IsTree d
    → ((s : Dict Retained) → IsTree s → Picks (find next s) (f (dict s)))
    → Picks (find (node ∷ next) d) (on_branch empty_text f (get node d))
unfolding on_branch find
on_branch-Picks f node next d n t ih = by_get (get node d) refl
  where
    by_get :
        (o : Option (Item Retained))
        → get node d ≡ o
        → Picks (find next (dict_of o)) (on_branch empty_text f o)
    by_get none e = inr (find-empty next, refl)
    by_get (some (atom a)) e = cc (n, get-IsEntry node (atom a) d t e)
    by_get (some (dict s)) e = ih s (get-IsEntry node (dict s) d t e).1

all_static-last :
    (node : String) (next : List String)
    → all_static (node ∷ next) ≡ true
    → last_is_static (node ∷ next) ≡ true
unfolding last_is_static
all_static-last node [] h = ground arith
all_static-last node (m ∷ next) h = elim (Bool-cases (is_node_static node)) [
  | inl static ↦ all_static-last m next (rw static at h)
  | inr card ↦ cc (rw card at h)
]

-- A topic without wildcards picks the leaf that is retained for it; where none is, the result is
-- `None` or the empty text.
filter-static :
    (node : String) (next : List String) (d : Dict Retained)
    → all_static (node ∷ next) ≡ true
    → All IsNode (node ∷ next)
    → IsTree d
    → (filter_tree_with_topic (node ∷ next) (dict d)
        ≡ ok (leaf (get_or (find (node ∷ next) d) none)))
      ⊎ ((find (node ∷ next) d ≡ none)
          × (filter_tree_with_topic (node ∷ next) (dict d) ≡ ok empty_text))
unfolding filter_tree_with_topic
filter-static node [] d h k t = elim (Bool-cases (is_node_static node)) [
  | inl static ↦
      let cards = static-card node static in
      rw (cards.0, cards.1) (on_branch-Picks leaf_of_branch node [] d k.0 t leaf_of_branch-Picks)
  | inr card ↦ cc (rw card at h)
]
filter-static node (m ∷ next) d h k t = elim (Bool-cases (is_node_static node)) [
  | inl static ↦
      let cards = static-card node static in
      let rest : all_static (m ∷ next) ≡ true = rw static at h in
      rw (cards.0, cards.1, all_static-last m next rest)
        (on_branch-Picks (filter_tree_with_topic (m ∷ next)) node (m ∷ next) d k.0 t
          (λ s ts. filter-static m next s rest k.1 ts))
  | inr card ↦ cc (rw card at h)
]
