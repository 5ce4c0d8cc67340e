-- ===== src/Protocols/Matching.antt =====
-- What a subscription is meant to receive, stated without the walk over the tree: one message for
-- each subscribed filter that some row's topic matches, of exactly these rows.
pub mod Filters
use mote_broker.Prelude.{
  String, Bool, true, false, ◌=str=◌, if◌then◌else◌, List, [], ◌∷◌, ◌++◌, map, keep, exists, All,
}
use mote_broker.Result.{Result, ok, ◌>>=◌}
use mote_broker.Dict.{Item, Dict, atom, dict, empty, entry}
use mote_broker.RecursiveDict.{leaf_key, many_card}
use mote_broker.RecursiveDict.Shape.{IsNode}
use mote_broker.Protocols.{Bytes, Retained, Row}
use mote_broker.Protocols.Messages.{Message, is_nil, leaf_message}

-- A filter matches a topic of its length, node by node.
abbrev pub matches : List String → List String → Bool
matches [] [] = true
matches [] (n ∷ topic) = false
matches (f ∷ filter) [] = false
matches (f ∷ filter) (n ∷ topic) =
    if (if f =str= many_card then true else n =str= f) then matches filter topic else false

abbrev pub has_many : List String → Bool
has_many = exists (λ f. f =str= many_card)

-- The filters that a tree holds, each with its leaf, in the order of the tree.
abbrev mutual
  pub filters {ℓ} : {A : Type ℓ} → Dict A → List (List String × Item A)
  filters empty = []
  filters (entry k it d) =
      (if k =str= leaf_key then ([], it) ∷ [] else map (λ s. (k ∷ s.0, s.1)) (filters_below it))
      ++ filters d

  pub filters_below {ℓ} : {A : Type ℓ} → Item A → List (List String × Item A)
  filters_below (atom a) = []
  filters_below (dict d) = filters d

abbrev pub collect {ℓ κ} :
    {A : Type ℓ} {B : Type κ} → (A → Result (List B)) → List A → Result (List B)
collect f [] = ok []
collect f (x ∷ xs) = f x >>= λ here. collect f xs >>= λ more. ok (here ++ more)

-- The topics of rows are made of nodes.
abbrev pub IsRow : Row → Type 0
IsRow r = All IsNode r.topic

module _ {A : Type 0} (json : Dict Retained → Result Bytes) where
  abbrev pub answer : List Row → (List String × Item A) → Result (List (Message A))
  answer rows s =
      let hits = keep (λ (r : Row). matches s.0 r.topic) rows in
      if is_nil hits then ok [] else leaf_message json s.1 hits s.0 (has_many s.0)

  abbrev pub answers : Dict A → List Row → Result (List (Message A))
  answers subscriptions rows = collect (answer rows) (filters subscriptions)
