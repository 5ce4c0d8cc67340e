-- ===== src/Protocols/Flatten.antt =====
-- protocols/flatten_message.py: the rows of a message whose data is a tree. `Item Scalar` is what the
-- JSON library reads: an object is a dict, a text keeps its value, and anything else has neither
-- `items` nor `encode`.
pub mod Graft
use mote_broker.Prelude.{
  ℕ, String, Bool, true, false, ◌=str=◌, if◌then◌else◌, Option, none, some, List, [], ◌∷◌, ◌++◌,
}
use mote_broker.Result.{
  Result, ok, err, invalid_everything_card, index_error, attribute_error, ◌>>=◌,
}
use mote_broker.Dict.{Item, Dict, atom, dict, empty, entry, get}
use mote_broker.RecursiveDict.{leaf_key, many_card, everything_card}
use mote_broker.Protocols.{Bytes, Retained, Row}

pub data Scalar : Type 0 where
  text : String → Scalar
  other : Scalar

-- for key, val in data.items()
unfoldable pub each_value :
    (String → Item Scalar → Result (List Row)) → Dict Scalar → Result (List Row)
each_value f empty = ok []
each_value f (entry key val rest) =
    f key val >>= λ here. each_value f rest >>= λ more. ok (here ++ more)

-- whether the branch has a leaf
abbrev pub has_leaf : Dict Retained → Bool
has_leaf d = elim (get leaf_key d) [ none ↦ false | some it ↦ true ]

abbrev pub is_missing {ℓ} : {A : Type ℓ} → Option A → Bool
is_missing none = true
is_missing (some a) = false

-- tree.get(key, {})
unfoldable pub branch_or_empty : String → Item Retained → Result (Item Retained)
branch_or_empty key (atom a) = err attribute_error
branch_or_empty key (dict d) = elim (get key d) [ none ↦ ok (dict empty) | some it ↦ ok it ]

unfoldable pub with_items {ℓ κ} :
    {A : Type ℓ} {B : Type κ} → Item A → (Dict A → Result B) → Result B
with_items (atom a) f = err attribute_error
with_items (dict d) f = f d

abbrev pub is_many_flag : Option (Item Scalar) → Bool
is_many_flag (some (atom (text s))) = s =str= many_card
is_many_flag _ = false

-- `encode` is what `str.encode` makes of a text.
module _ (encode : String → Bytes) (qos : ℕ) where
  -- val.encode(), as the data of a row
  unfoldable pub encoded_row : List String → Item Scalar → Result (List Row)
  encoded_row topic (atom (text s)) =
      ok (record { topic = topic; payload = some (encode s); qos = qos } ∷ [])
  encoded_row topic _ = err attribute_error

  -- a row that empties the leaf
  abbrev pub emptied : List String → Row
  emptied topic = record { topic = topic; payload = none; qos = qos }

  -- The retained leaves that the data does not name.
  unfoldable pub leaves_to_empty : List String → Dict Scalar → Dict Retained → Result (List Row)
  leaves_to_empty base given empty = ok []
  leaves_to_empty base given (entry key (atom a) rest) =
      (if key =str= leaf_key then ok [] else err attribute_error) >>= λ here.
      leaves_to_empty base given rest >>= λ more. ok (here ++ more)
  leaves_to_empty base given (entry key (dict d) rest) = leaves_to_empty base given rest >>= λ more.
      ok (
        (if key =str= leaf_key
          then []
          else if has_leaf d
          then if is_missing (get key given) then emptied (base ++ key ∷ []) ∷ [] else []
          else [])
        ++ more)

  unfoldable pub flatten_message_into_rows :
      Option (Item Scalar)
      → List String
      → Item Scalar
      → List String
      → Item Retained
      → Result (List Row)
  unfolding encoded_row each_value leaves_to_empty branch_or_empty with_items
  flatten_message_into_rows flags [] given base tree = err index_error
  flatten_message_into_rows flags (node ∷ []) given base tree =
      if node =str= everything_card
      then err invalid_everything_card
      else if node =str= many_card
      then with_items given (λ d.
        each_value (λ key val. encoded_row (base ++ key ∷ []) val) d >>= λ results.
        (if is_many_flag flags then with_items tree (leaves_to_empty base d) else ok [])
        >>= λ emptied_rows. ok (results ++ emptied_rows))
      else encoded_row (base ++ node ∷ []) given
  flatten_message_into_rows flags (node ∷ m ∷ next) given base tree =
      let many = with_items given (
        each_value λ key val. branch_or_empty key tree >>= λ branch.
        flatten_message_into_rows flags (m ∷ next) val (base ++ key ∷ []) branch) in
      let one = branch_or_empty node tree >>= λ branch.
      flatten_message_into_rows flags (m ∷ next) given (base ++ node ∷ []) branch in
      if node =str= everything_card
      then err invalid_everything_card
      else if node =str= many_card
      then many
      else one
