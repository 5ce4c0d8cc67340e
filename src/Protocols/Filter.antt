-- ===== src/Protocols/Filter.antt =====
-- protocols/filter_tree.py: the part of a retained tree that a topic picks.
pub mod Static
pub mod Loops
pub mod Selection
pub mod Picked
pub mod Wildcards
use mote_broker.Prelude.{
  ℕ, String, ◌≡◌, refl, ap, ◌∙◌, sym, Bool, true, false, ◌=str=◌, if◌then◌else◌, Option, none, some,
  List, [], ◌∷◌, Bool-cases, inl, inr, eq_iff, eq_refl, arith, All,
}
use mote_broker.Result.{
  Result, ok, err, Error, invalid_everything_card, index_error, attribute_error, ◌>>=◌,
}
use mote_broker.Dict.{Item, Dict, atom, dict, empty, entry, get, set}
use mote_broker.Dict.Laws.{get-set}
use mote_broker.RecursiveDict.{leaf_key, many_card, everything_card, find, child}
use mote_broker.RecursiveDict.Shape.{IsTree, IsNode, get-IsEntry}
use mote_broker.Protocols.{Retained, is_node_static}
use mote_broker.Protocols.Applicable.{all_static}

-- What the filter returns: the empty text, a leaf's value or `None`, or a tree.
pub data TreeItem : Type 0 where
  empty_text : TreeItem
  leaf : Retained → TreeItem
  tree : Dict Retained → TreeItem

abbrev pub as_tree_item : Item Retained → TreeItem
as_tree_item (atom a) = leaf a
as_tree_item (dict d) = tree d

-- if leaf: the value of a leaf that is neither missing, nor `None`, nor empty
abbrev pub is_truthy : Option (Item Retained) → Bool
is_truthy (some (atom (some (b ∷ bytes)))) = true
is_truthy (some (dict (entry k it d))) = true
is_truthy _ = false

-- `result[key] = found`, if it is there and worth it
put_if_truthy : String → Option (Item Retained) → Dict Retained → Dict Retained
put_if_truthy key none result = result
put_if_truthy key (some it) result = if is_truthy (some it) then set key it result else result

-- The loop of a last `+`: the leaves of the branches.
unfoldable pub pick_leaves : Dict Retained → Dict Retained → Result (Dict Retained)
unfolding put_if_truthy
pick_leaves empty result = ok result
pick_leaves (entry key (atom a) rest) result =
    if key =str= leaf_key then pick_leaves rest result else err attribute_error
pick_leaves (entry key (dict d) rest) result =
    pick_leaves rest
      (if key =str= leaf_key then result else put_if_truthy key (get leaf_key d) result)

-- if branch not in ["", {}]: result[key] = branch
put_branch : String → TreeItem → Dict Retained → Dict Retained
put_branch key empty_text result = result
put_branch key (tree empty) result = result
put_branch key (tree (entry k it d)) result = set key (dict (entry k it d)) result
put_branch key (leaf a) result = set key (atom a) result

-- The loop of a `+` with more of the topic behind it.
unfoldable pub pick_branches :
    (Item Retained → Result TreeItem) → Dict Retained → Dict Retained → Result (Dict Retained)
unfolding put_branch
pick_branches f empty result = ok result
pick_branches f (entry key val rest) result =
    (if key =str= leaf_key
      then ok result
      else f val >>= λ branch. ok (put_branch key branch result))
    >>= λ result'. pick_branches f rest result'

-- the last node of what is left of a topic
unfoldable pub last_is_static : List String → Bool
last_is_static [] = true
last_is_static (n ∷ []) = is_node_static n
last_is_static (n ∷ m ∷ next) = last_is_static (m ∷ next)

-- What is returned where `tree.get(node)` is `None`, and otherwise what is done with the branch.
unfoldable pub on_branch :
    TreeItem → (Item Retained → Result TreeItem) → Option (Item Retained) → Result TreeItem
on_branch missing f none = ok missing
on_branch missing f (some (atom none)) = ok missing
on_branch missing f (some (atom (some b))) = f (atom (some b))
on_branch missing f (some (dict d)) = f (dict d)

-- branch.get(LEAF_KEY, empty)
leaf_or_none : Option (Item Retained) → TreeItem
leaf_or_none none = leaf none
leaf_or_none (some it) = as_tree_item it

unfoldable pub leaf_of_branch : Item Retained → Result TreeItem
unfolding leaf_or_none
leaf_of_branch (atom a) = err attribute_error
leaf_of_branch (dict d) = ok (leaf_or_none (get leaf_key d))

unfoldable pub filter_dict {ℓ} :
    {B : Type ℓ} → Item Retained → (Dict Retained → Result B) → Result B
filter_dict (atom a) f = err attribute_error
filter_dict (dict d) f = f d

-- The parameter `found_wildcard` of the source is overwritten before each use.
unfoldable pub filter_tree_with_topic : List String → Item Retained → Result TreeItem
unfolding filter_dict pick_leaves pick_branches on_branch leaf_of_branch last_is_static
filter_tree_with_topic [] t = err index_error
filter_tree_with_topic (node ∷ []) t =
    if node =str= everything_card
    then ok (as_tree_item t)
    else if node =str= many_card
    then filter_dict t (λ d. pick_leaves d empty >>= λ result. ok (tree result))
    else filter_dict t (λ d. on_branch empty_text leaf_of_branch (get node d))
filter_tree_with_topic (node ∷ m ∷ next) t =
    let many = filter_dict t (λ d.
      pick_branches (filter_tree_with_topic (m ∷ next)) d empty >>= λ result. ok (tree result)) in
    let one = filter_dict t (λ d.
      on_branch (if last_is_static (m ∷ next) then empty_text else tree empty)
        (filter_tree_with_topic (m ∷ next)) (get node d)) in
    if node =str= everything_card
    then err invalid_everything_card
    else if node =str= many_card
    then many
    else one
