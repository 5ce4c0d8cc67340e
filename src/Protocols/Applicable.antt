-- ===== src/Protocols/Applicable.antt =====
-- protocols/get_applicable_rows.py: the topics of a retained tree that a message is for, each with
-- the message's data.
pub mod Sound
use mote_broker.Prelude.{
  ℕ, String, Bool, true, false, ◌=str=◌, if◌then◌else◌, Option, none, some, List, [], ◌∷◌, ◌++◌,
}
use mote_broker.Result.{
  Result, ok, err, invalid_everything_card, index_error, attribute_error, ◌>>=◌,
}
use mote_broker.Dict.{Item, Dict, atom, dict, empty, entry, get}
use mote_broker.RecursiveDict.{leaf_key, many_card, everything_card}
use mote_broker.Protocols.{Retained, Row, is_node_static}
use mote_broker.Protocols.Everything.{row, get_everything_as_rows}

-- tree.items(), for a value that may be no dict
unfoldable pub with_dict {ℓ} : {B : Type ℓ} → Item Retained → (Dict Retained → Result B) → Result B
with_dict (atom a) f = err attribute_error
with_dict (dict d) f = f d

-- The loop over `tree.items()` that passes the leaf over, and joins what the others give.
unfoldable pub each_branch :
    (String → Item Retained → Result (List Row)) → Dict Retained → Result (List Row)
each_branch f empty = ok []
each_branch f (entry key branch rest) =
    (if key =str= leaf_key then ok [] else f key branch) >>= λ here.
    each_branch f rest >>= λ more. ok (here ++ more)

-- No node of a topic is a wildcard.
abbrev pub all_static : List String → Bool
all_static [] = true
all_static (n ∷ topic) = if is_node_static n then all_static topic else false

-- the branch that `tree.get(node, empty)` found, if it is not `None`
unfoldable pub at_branch :
    (Item Retained → Result (List Row))
    → Result (List Row)
    → Option (Item Retained)
    → Result (List Row)
at_branch go missing none = missing
at_branch go missing (some (atom none)) = missing
at_branch go missing (some (atom (some b))) = go (atom (some b))
at_branch go missing (some (dict d)) = go (dict d)

module _ (payload : Retained) (qos : ℕ) where
  -- where the tree has no such branch: a topic without wildcards is taken as it is
  abbrev pub rows_of_missing : Bool → List String → List String → Result (List Row)
  rows_of_missing found_wildcard next topic =
      if found_wildcard
      then ok []
      else if all_static next
      then ok (row payload qos topic ∷ [])
      else ok []

  unfoldable pub get_applicable_rows :
      List String → List String → Bool → Item Retained → Result (List Row)
  unfolding with_dict each_branch at_branch
  get_applicable_rows [] base found tree = err index_error
  get_applicable_rows (node ∷ []) base found tree =
      if node =str= everything_card
      then with_dict tree (get_everything_as_rows payload qos base true)
      else if node =str= many_card
      then with_dict tree (each_branch λ key branch. ok (row payload qos (base ++ key ∷ []) ∷ []))
      else ok (row payload qos (base ++ node ∷ []) ∷ [])
  get_applicable_rows (node ∷ m ∷ next) base found tree =
      let each =
        with_dict tree (
          each_branch
            λ key branch. get_applicable_rows (m ∷ next) (base ++ key ∷ []) true branch) in
      let one = with_dict tree λ d.
        at_branch (get_applicable_rows (m ∷ next) (base ++ node ∷ []) found)
          (rows_of_missing found (m ∷ next) (base ++ node ∷ m ∷ next)) (get node d) in
      if node =str= everything_card
      then err invalid_everything_card
      else if node =str= many_card
      then each
      else one
