-- ===== src/Protocols/Filter/Selection.antt =====
-- What a topic selects of a tree: for each choice of nodes for the wildcards the payload that is retained there.
use mote_broker.Prelude.{
  String, ◌≡◌, refl, ap, Bool, false, ◌=str=◌, eq_iff, if◌then◌else◌, Bool-cases, ◌⊎◌, inl, inr,
  Option, none, some, List, [], ◌∷◌,
}
use mote_broker.Dict.{Item, Dict, atom, dict, empty, get}
use mote_broker.RecursiveDict.{leaf_key, many_card, everything_card, find, child, dict_of, leaf_of}
use mote_broker.RecursiveDict.Shape.{IsTree, IsNode, get-IsEntry, child-leaf_key}
use mote_broker.RecursiveDict.Find.{find-empty}
use mote_broker.Protocols.{Retained, Bytes}
use mote_broker.Protocols.Filter.{TreeItem, empty_text, leaf, tree, as_tree_item}

abbrev pub below : (TreeItem → Option Bytes) → Option (Item Retained) → Option Bytes
below at none = none
below at (some it) = at (as_tree_item it)

-- The payload that stands in a result behind some keys, if one does.
abbrev pub payload_at : List String → TreeItem → Option Bytes
payload_at [] (leaf a) = a
payload_at [] empty_text = none
payload_at [] (tree d) = none
payload_at (k ∷ ks) (tree d) = below (payload_at ks) (get k d)
payload_at (k ∷ ks) empty_text = none
payload_at (k ∷ ks) (leaf a) = none

abbrev pub prefixed : String → Option (List String) → Option (List String)
prefixed n none = none
prefixed n (some path) = some (n ∷ path)

-- In a whole tree a payload stands behind its path and the leaf key.
abbrev pub up_to_leaf : List String → Option (List String)
up_to_leaf [] = none
up_to_leaf (k ∷ []) = if k =str= leaf_key then some [] else none
up_to_leaf (k ∷ m ∷ ks) = prefixed k (up_to_leaf (m ∷ ks))

abbrev pub prefixed_by_first :
    List String → (List String → Option (List String)) → Option (List String)
prefixed_by_first [] rest = none
prefixed_by_first (k ∷ ks) rest = prefixed k (rest ks)

-- The path that some keys of the result stand for: a key for each `+` of the topic.
abbrev pub selected : List String → List String → Option (List String)
selected [] [] = some []
selected [] (k ∷ ks) = none
selected (n ∷ topic) ks =
    if n =str= everything_card
    then up_to_leaf ks
    else if n =str= many_card
    then prefixed_by_first ks (selected topic)
    else prefixed n (selected topic ks)

abbrev pub payload_of : Option Retained → Option Bytes
payload_of none = none
payload_of (some a) = a

-- The payload that is retained at a path.
abbrev pub at_path : Option (List String) → Dict Retained → Option Bytes
at_path none d = none
at_path (some path) d = payload_of (find path d)

abbrev pub unless_empty : Option Bytes → Option Bytes
unless_empty (some []) = none
unless_empty o = o

abbrev pub ends_with_many : List String → Bool
ends_with_many [] = false
ends_with_many (n ∷ []) = n =str= many_card
ends_with_many (n ∷ m ∷ topic) = ends_with_many (m ∷ topic)

-- A last `+` passes over empty payloads.
abbrev pub worth : List String → Option Bytes → Option Bytes
worth topic o = if ends_with_many topic then unless_empty o else o

-- A topic with nodes, in which `#` is the last node if any.
abbrev pub IsFilter : List String → Type 0
IsFilter [] = ⊥
IsFilter (n ∷ []) = IsNode n
IsFilter (n ∷ m ∷ topic) = IsNode n × ((n =str= everything_card) ≡ false) × IsFilter (m ∷ topic)

pub at_path-prefixed :
    (n : String) (o : Option (List String)) (d : Dict Retained)
    → at_path (prefixed n o) d ≡ at_path o (child n d)
unfolding find
at_path-prefixed n none d = refl
at_path-prefixed n (some path) d = refl

pub at_path-empty : (o : Option (List String)) → at_path o empty ≡ none
at_path-empty none = refl
at_path-empty (some path) = rw (find-empty {A = Retained} path)

-- A node's entry in a proper tree is a dict, or is not there.
pub node-cases :
    (n : String) (d : Dict Retained)
    → IsNode n
    → IsTree d
    → ((get n d ≡ none) × (child n d ≡ empty))
      ⊎ ((s : Dict Retained) × (get n d ≡ some (dict s)) × (child n d ≡ s) × IsTree s)
unfolding child dict_of
node-cases n d h t = by_get (get n d) refl
  where
    by_get :
        (o : Option (Item Retained))
        → get n d ≡ o
        → ((get n d ≡ none) × (dict_of (get n d) ≡ empty))
          ⊎ ((s : Dict Retained) × (get n d ≡ some (dict s)) × (dict_of (get n d) ≡ s) × IsTree s)
    by_get none e = inl (e, ap dict_of e)
    by_get (some (atom a)) e = cc (h, get-IsEntry n (atom a) d t e)
    by_get (some (dict s)) e = inr (s, e, ap dict_of e, (get-IsEntry n (dict s) d t e).1)

-- The leaf of a proper tree is an atom, or is not there.
pub leaf-cases :
    (d : Dict Retained)
    → IsTree d
    → (get leaf_key d ≡ none) ⊎ ((a : Retained) × (get leaf_key d ≡ some (atom a)))
leaf-cases d t = by_get (get leaf_key d) refl
  where
    by_get :
        (o : Option (Item Retained))
        → get leaf_key d ≡ o
        → (get leaf_key d ≡ none) ⊎ ((a : Retained) × (get leaf_key d ≡ some (atom a)))
    by_get none e = inl e
    by_get (some (atom a)) e = inr (a, e)
    by_get (some (dict s)) e = cc ((get-IsEntry leaf_key (dict s) d t e).0)

-- The leaf of a tree as its payload.
leaf_payload :
    (d : Dict Retained) → IsTree d → below (payload_at []) (get leaf_key d) ≡ at_path (some []) d
unfolding find leaf_of
leaf_payload d t = elim (leaf-cases d t) [ inl e ↦ rw e | inr (a, e) ↦ rw e ]

-- The whole of a tree, which `#` picks.
pub whole_selects :
    (ks : List String) (d : Dict Retained)
    → IsTree d
    → payload_at ks (tree d) ≡ at_path (up_to_leaf ks) d
whole_selects [] d t = refl
whole_selects (k ∷ []) d t = elim (Bool-cases (k =str= leaf_key)) [
  | inl e ↦ rw (e, (eq_iff k leaf_key).0 e) (leaf_payload d t)
  | inr e ↦
      rw e
        (elim (node-cases k d e t) [ inl (gone, c) ↦ rw gone | inr (s, there, c, ts) ↦ rw there ])
]
whole_selects (k ∷ m ∷ ks) d t = elim (Bool-cases (k =str= leaf_key)) [
  | inl e ↦
      rw
        (
          (eq_iff k leaf_key).0 e,
          at_path-prefixed leaf_key (up_to_leaf (m ∷ ks)) d,
          child-leaf_key d t,
          at_path-empty (up_to_leaf (m ∷ ks)),
        )
        (elim (leaf-cases d t) [ inl gone ↦ rw gone | inr (a, there) ↦ rw there ])
  | inr e ↦ elim (node-cases k d e t) [
    | inl (gone, c) ↦
        rw
          (gone, at_path-prefixed k (up_to_leaf (m ∷ ks)) d, c, at_path-empty (up_to_leaf (m ∷ ks)))
    | inr (s, there, c, ts) ↦
        rw (there, at_path-prefixed k (up_to_leaf (m ∷ ks)) d, c) (whole_selects (m ∷ ks) s ts)
  ]
]

pub worth-none : (topic : List String) → worth topic none ≡ none
worth-none topic = elim (Bool-cases (ends_with_many topic)) [ inl e ↦ rw e | inr e ↦ rw e ]
