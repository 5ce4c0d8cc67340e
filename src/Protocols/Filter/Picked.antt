-- ===== src/Protocols/Filter/Picked.antt =====
-- What the loops of protocols/filter_tree.py over the branches of a tree pick.
use mote_broker.Prelude.{
  String, ◌≡◌, refl, sym, ap, ◌∙◌, ◌=str=◌, eq_iff, Bool-cases, ◌⊎◌, inl, inr, Option, none, some,
  List, [], ◌∷◌,
}
use mote_broker.Dict.{Item, Dict, dict, empty, entry, get}
use mote_broker.RecursiveDict.{leaf_key, find, child, leaf_of}
use mote_broker.RecursiveDict.Shape.{IsTree, child-leaf_key}
use mote_broker.RecursiveDict.Distinct.{IsDistinct, get-IsDistinct}
use mote_broker.Protocols.{Retained}
use mote_broker.Protocols.Filter.{TreeItem, empty_text, leaf, tree}
use mote_broker.Protocols.Filter.Loops.{
  worth_leaf, kept, write_picked, picked, or_else, get-write_picked,
}
use mote_broker.Protocols.Filter.Selection.{
  below, payload_at, prefixed_by_first, selected, at_path, unless_empty, worth, at_path-prefixed,
  at_path-empty, node-cases, leaf-cases, worth-none,
}

-- Any key: a loop takes nothing there, or a dict stands there.
key-cases :
    (k : String) (d : Dict Retained)
    → IsTree d
    → (((p : Dict Retained → Option (Item Retained)) → picked p (get k d) ≡ none)
        × (child k d ≡ empty))
      ⊎ ((s : Dict Retained) × (get k d ≡ some (dict s)) × (child k d ≡ s) × IsTree s)
key-cases k d t = elim (Bool-cases (k =str= leaf_key)) [
  | inl e ↦ inl (
    (λ p.
        rw ((eq_iff k leaf_key).0 e)
          (elim (leaf-cases d t) [ inl gone ↦ rw gone | inr (a, there) ↦ rw there ])),
    ap (λ j. child j d) ((eq_iff k leaf_key).0 e) ∙ child-leaf_key d t,
  )
  | inr e ↦ elim (node-cases k d e t) [
    | inl (gone, c) ↦ inl ((λ p. rw gone), c)
    | inr (s, there, c, ts) ↦ inr (s, there, c, ts)
  ]
]

worth_leaf-payload :
    (ks : List String) (d : Dict Retained)
    → IsTree d
    → below (payload_at ks) (or_else (worth_leaf d) none)
      ≡ unless_empty (at_path (selected [] ks) d)
unfolding find leaf_of
worth_leaf-payload [] d t = elim (leaf-cases d t) [
  | inl gone ↦ rw gone
  | inr (none, there) ↦ rw there
  | inr (some [], there) ↦ rw there
  | inr (some (b ∷ bytes), there) ↦ rw there
]
worth_leaf-payload (k ∷ ks) d t = elim (leaf-cases d t) [
  | inl gone ↦ rw gone
  | inr (none, there) ↦ rw there
  | inr (some [], there) ↦ rw there
  | inr (some (b ∷ bytes), there) ↦ rw there
]

-- The loop of a last `+`.
pub leaves-select :
    (ks : List String) (d : Dict Retained)
    → IsTree d
    → IsDistinct d
    → payload_at ks (tree (write_picked worth_leaf d empty))
      ≡ unless_empty (at_path (prefixed_by_first ks (selected [])) d)
unfolding get
leaves-select [] d t u = refl
leaves-select (k ∷ ks) d t u =
    rw (get-write_picked worth_leaf k d empty u) (elim (key-cases k d t) [
      | inl (nothing, c) ↦
          rw
            (
              nothing worth_leaf,
              at_path-prefixed k (selected [] ks) d,
              c,
              at_path-empty (selected [] ks),
            )
            refl
      | inr (s, there, c, ts) ↦
          rw (there, at_path-prefixed k (selected [] ks) d, c) (worth_leaf-payload ks s ts)
    ])

or_else-none : (o : Option (Item Retained)) → or_else o none ≡ o
or_else-none none = refl
or_else-none (some it) = refl

-- What is kept of a branch holds its payloads.
kept-payload :
    (ks : List String) (item : TreeItem) → below (payload_at ks) (kept item) ≡ payload_at ks item
unfolding get
kept-payload [] empty_text = refl
kept-payload (k ∷ ks) empty_text = refl
kept-payload [] (leaf a) = refl
kept-payload (k ∷ ks) (leaf a) = refl
kept-payload [] (tree empty) = refl
kept-payload (k ∷ ks) (tree empty) = refl
kept-payload [] (tree (entry j it d)) = refl
kept-payload (k ∷ ks) (tree (entry j it d)) = refl

-- The loop of another `+`.
pub branches-select :
    (ks : List String) (topic : List String) (g : Dict Retained → TreeItem) (d : Dict Retained)
    → ((s : Dict Retained) (js : List String)
        → IsTree s
        → IsDistinct s
        → payload_at js (g s) ≡ worth topic (at_path (selected topic js) s))
    → IsTree d
    → IsDistinct d
    → payload_at ks (tree (write_picked (λ s. kept (g s)) d empty))
      ≡ worth topic (at_path (prefixed_by_first ks (selected topic)) d)
unfolding get
branches-select [] topic g d h t u = sym (worth-none topic)
branches-select (k ∷ ks) topic g d h t u =
    rw (get-write_picked (λ s. kept (g s)) k d empty u) (elim (key-cases k d t) [
      | inl (nothing, c) ↦
          rw
            (
              nothing (λ s. kept (g s)),
              at_path-prefixed k (selected topic ks) d,
              c,
              at_path-empty (selected topic ks),
            )
            (sym (worth-none topic))
      | inr (s, there, c, ts) ↦
          rw (there, at_path-prefixed k (selected topic ks) d, c)
            (ap (below (payload_at ks)) (or_else-none (kept (g s)))
              ∙ kept-payload ks (g s)
              ∙ h s ks ts (get-IsDistinct k s d u there))
    ])
