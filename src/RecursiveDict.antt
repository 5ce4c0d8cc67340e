-- ===== src/RecursiveDict.antt =====
-- utils/recursive_default_dict.py: a dict that makes what is missing. `missing` is what
-- `default_type()` returns for the leaf key; any other missing key gets an empty dict. An object that
-- a lookup returns is the one that the tree holds, so that what is written to it is written to the
-- tree: the operations return the tree with the change at its place (`visit`).
pub mod Shape
pub mod Distinct
pub mod Find
pub mod Prune
pub mod Walk
use mote_broker.Prelude.{
  String, Bool, true, false, Option, none, some, List, [], ◌∷◌, ◌=str=◌, if◌then◌else◌,
}
use mote_broker.Result.{Result, ok, err, index_error, key_error, type_error}
use mote_broker.Dict.{Item, Dict, atom, dict, empty, entry, get, set, pop, is_empty}

-- models/constants.py
abbrev pub topic_sep : String
topic_sep = "/"

abbrev pub many_card : String
many_card = "+"

abbrev pub table_flag : String
table_flag = "@"

abbrev pub everything_card : String
everything_card = "#"

abbrev pub leaf_key : String
leaf_key = topic_sep

module _ {ℓ} {A : Type ℓ} where
  -- self.pop(LEAF_KEY), with no default
  pop_leaf_found : Dict A → Option (Item A) → Result (Unit {0}) × Dict A
  pop_leaf_found d (some it) = (ok tt, pop leaf_key d)
  pop_leaf_found d none = (err key_error, d)

  unfoldable pub pop_leaf : Dict A → Result (Unit {0}) × Dict A
  unfolding pop_leaf_found
  pop_leaf d = pop_leaf_found d (get leaf_key d)

  -- if not self[node]: self.pop(node)
  drop_found : String → Item A × Dict A → Dict A
  drop_found n (dict empty, d) = pop n d
  drop_found n (_, d) = d

module _ {ℓ} {A : Type ℓ} (missing : A) where
  -- __missing__: the item made for a key
  unfoldable pub make : String → Item A
  make k = if k =str= leaf_key then atom missing else dict empty

  getitem_found : String → Dict A → Option (Item A) → Item A × Dict A
  getitem_found k d (some it) = (it, d)
  getitem_found k d none = (make k, set k (make k) d)

  -- self[k]
  unfoldable pub getitem : String → Dict A → Item A × Dict A
  unfolding getitem_found
  getitem k d = getitem_found k d (get k d)

  -- A method called on an item that stands in `d` at `k`.
  unfoldable pub visit_item {κ} :
      {R : Type κ} → (Dict A → Result R × Dict A) → String → Item A × Dict A → Result R × Dict A
  visit_item f k (atom a, d) = (err type_error, d)
  visit_item f k (dict s, d) = ((f s).0, set k (dict (f s).1) d)

  -- self[k].f()
  unfoldable pub visit {κ} :
      {R : Type κ} → (Dict A → Result R × Dict A) → String → Dict A → Result R × Dict A
  unfolding getitem visit_item
  visit f k d = visit_item f k (getitem k d)

  -- self.leaf
  unfoldable pub leaf : Dict A → Result (Item A) × Dict A
  unfolding getitem
  leaf d = let (it, d') = getitem leaf_key d in (ok it, d')

  -- self << path
  unfoldable pub lshift : List String → Dict A → Result (Item A) × Dict A
  unfolding visit leaf
  lshift [] d = (err index_error, d)
  lshift (n ∷ []) d = visit leaf n d
  lshift (n ∷ m ∷ p) d = visit (lshift (m ∷ p)) n d

  -- What follows a call in the same body: an exception passes it by.
  unfoldable pub drop_if_empty : String → Result (Unit {0}) × Dict A → Result (Unit {0}) × Dict A
  unfolding getitem drop_found
  drop_if_empty n (err e, d) = (err e, d)
  drop_if_empty n (ok u, d) = (ok u, drop_found n (getitem n d))

  unfoldable pub cascade_delete : List String → Dict A → Result (Unit {0}) × Dict A
  unfolding visit pop_leaf drop_if_empty
  cascade_delete [] d = (err index_error, d)
  cascade_delete (n ∷ []) d = drop_if_empty n (visit pop_leaf n d)
  cascade_delete (n ∷ m ∷ p) d = drop_if_empty n (visit (cascade_delete (m ∷ p)) n d)

  module _ (is_none : A → Bool) where
    -- what is left of the path is applied to the item at its first node; `None` ends the walk
    follow :
        (Dict A → Result (Item A) × Dict A) → String → Item A × Dict A → Result (Item A) × Dict A
    follow f k (atom a, d) = if is_none a then (ok (atom a), d) else (err type_error, d)
    follow f k (dict s, d) = ((f s).0, set k (dict (f s).1) d)

    -- self / path
    unfoldable pub truediv : List String → Dict A → Result (Item A) × Dict A
    unfolding getitem follow
    truediv [] d = (err index_error, d)
    truediv (n ∷ []) d = let (it, d') = getitem n d in (ok it, d')
    truediv (n ∷ m ∷ p) d = follow (truediv (m ∷ p)) n (getitem n d)

module _ {ℓ} {A : Type ℓ} where
  -- The dict that stands at a key, if one does.
  unfoldable pub dict_of : Option (Item A) → Dict A
  dict_of (some (dict s)) = s
  dict_of _ = empty

  unfoldable pub child : String → Dict A → Dict A
  unfolding dict_of
  child k d = dict_of (get k d)

  -- node.leaf = a, where `node` is the dict that stands at the path
  unfoldable pub assign : List String → A → Dict A → Dict A
  unfolding child
  assign [] a d = set leaf_key (atom a) d
  assign (n ∷ p) a d = set n (dict (assign p a (child n d))) d

  unfoldable pub leaf_of : Option (Item A) → Option A
  leaf_of (some (atom a)) = some a
  leaf_of _ = none

  -- The leaf that a path leads to: the abstract view of a tree is the map `λ p. find p tree`.
  unfoldable pub find : List String → Dict A → Option A
  unfolding child leaf_of
  find [] d = leaf_of (get leaf_key d)
  find (n ∷ p) d = find p (child n d)
