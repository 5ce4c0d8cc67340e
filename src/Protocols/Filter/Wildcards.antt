-- ===== src/Protocols/Filter/Wildcards.antt =====
-- What any topic picks of a retained tree, by protocols/filter_tree.py. The nodes that stand for the
-- wildcards of the topic lead into the result; the other nodes of the topic do not stand in it.
use mote_broker.Prelude.{
  String, ◌≡◌, refl, sym, ap, ◌∙◌, Bool, true, false, ◌=str=◌, eq_iff, if◌then◌else◌, Bool-cases,
  inl, inr, none, some, List, [], ◌∷◌,
}
use mote_broker.Result.{Result, ok, err}
use mote_broker.Dict.{Item, Dict, dict, empty, get}
use mote_broker.RecursiveDict.{leaf_key, many_card, everything_card, find, leaf_of}
use mote_broker.RecursiveDict.Shape.{IsTree, IsNode}
use mote_broker.RecursiveDict.Distinct.{IsDistinct, get-IsDistinct}
use mote_broker.Protocols.{Retained}
use mote_broker.Protocols.Filter.{
  TreeItem, empty_text, tree, filter_tree_with_topic, on_branch, leaf_of_branch, leaf_or_none,
  last_is_static, filter_dict,
}
use mote_broker.Protocols.Filter.Loops.{
  worth_leaf, kept, write_picked, pick_leaves-write_picked, pick_branches-write_picked,
}
use mote_broker.Protocols.Filter.Selection.{
  payload_at, prefixed, selected, at_path, worth, IsFilter, at_path-prefixed, at_path-empty,
  node-cases, leaf-cases, whole_selects, worth-none,
}
use mote_broker.Protocols.Filter.Picked.{leaves-select, branches-select}

-- The call returns what the topic selects.
pub record IsFiltered (topic : List String) (d : Dict Retained) : Type 0 where
  pub item : TreeItem
  pub returns : filter_tree_with_topic topic (dict d) ≡ ok item
  pub selects :
      (ks : List String) → payload_at ks item ≡ worth topic (at_path (selected topic ks) d)

-- A node that is no wildcard: what is done with the branch, or `missing`.
on_branch-IsFiltered :
    (n : String) (topic : List String) (missing : TreeItem) (f : Item Retained → Result TreeItem)
    (d : Dict Retained)
    → IsNode n
    → IsTree d
    → ((ks : List String) → payload_at ks missing ≡ none)
    → ((s : Dict Retained)
        → get n d ≡ some (dict s)
        → IsTree s
        → (item : TreeItem) × (f (dict s) ≡ ok item)
          × ((ks : List String) → payload_at ks item ≡ worth topic (at_path (selected topic ks) s)))
    → (item : TreeItem) × (on_branch missing f (get n d) ≡ ok item)
      × ((ks : List String)
          → payload_at ks item ≡ worth topic (at_path (prefixed n (selected topic ks)) d))
unfolding on_branch
on_branch-IsFiltered n topic missing f d h t nothing step = elim (node-cases n d h t) [
  | inl (gone, c) ↦ (
    missing,
    rw gone refl,
    λ ks.
        rw
          (
            nothing ks,
            at_path-prefixed n (selected topic ks) d,
            c,
            at_path-empty (selected topic ks),
          )
          (sym (worth-none topic)),
  )
  | inr (s, there, c, ts) ↦
      let (item, e, selects) = step s there ts in
      (item, rw there e, λ ks. rw (at_path-prefixed n (selected topic ks) d, c) (selects ks))
]

abbrev item_of : Result TreeItem → TreeItem
item_of (err e) = empty_text
item_of (ok item) = item

card-ne-leaf : (n : String) → (n =str= everything_card) ≡ true → (n =str= many_card) ≡ false
card-ne-leaf n e = rw ((eq_iff n everything_card).0 e) refl

nothing_in_text : (ks : List String) → payload_at ks empty_text ≡ none
nothing_in_text [] = refl
nothing_in_text (k ∷ ks) = refl

nothing_in_missing :
    (b : Bool) (ks : List String) → payload_at ks (if b then empty_text else tree empty) ≡ none
unfolding get
nothing_in_missing true ks = nothing_in_text ks
nothing_in_missing false [] = refl
nothing_in_missing false (k ∷ ks) = refl

returned : (r : Result TreeItem) (item : TreeItem) → r ≡ ok item → r ≡ ok (item_of r)
returned r item e = e ∙ ap ok (sym (ap item_of e))

leaf_selects :
    (ks : List String) (d : Dict Retained)
    → IsTree d
    → payload_at ks (leaf_or_none (get leaf_key d)) ≡ at_path (selected [] ks) d
unfolding find leaf_of leaf_or_none
leaf_selects [] d t = elim (leaf-cases d t) [ inl gone ↦ rw gone | inr (a, there) ↦ rw there ]
leaf_selects (k ∷ ks) d t = elim (leaf-cases d t) [ inl gone ↦ rw gone | inr (a, there) ↦ rw there ]

-- A last node that is no wildcard: the leaf of its branch.
leaf_step :
    (d : Dict Retained)
    → IsTree d
    → (item : TreeItem) × (leaf_of_branch (dict d) ≡ ok item)
      × ((ks : List String) → payload_at ks item ≡ worth [] (at_path (selected [] ks) d))
unfolding leaf_of_branch
leaf_step d t = (leaf_or_none (get leaf_key d), refl, λ ks. leaf_selects ks d t)

-- A topic whose `#`, if any, is its last node picks a result of a retained tree that holds, for each choice
-- of a node for every `+`, the payload that is retained at the topic with these nodes, and no other
-- payload; behind `#` the whole of the tree there. A last `+` leaves out empty payloads.
pub filter_tree-selects :
    (topic : List String) (d : Dict Retained)
    → IsFilter topic
    → IsTree d
    → IsDistinct d
    → IsFiltered topic d
unfolding filter_tree_with_topic filter_dict
filter_tree-selects [] d h t u = absurd h
filter_tree-selects (n ∷ []) d h t u = elim (Bool-cases (n =str= everything_card)) [
  | inl e ↦ record {
    item = tree d;
    returns = rw e refl;
    selects = λ ks. rw (e, card-ne-leaf n e) (whole_selects ks d t);
  }
  | inr e ↦ elim (Bool-cases (n =str= many_card)) [
    | inl m ↦ record {
      item = tree (write_picked worth_leaf d empty);
      returns = rw (e, m, pick_leaves-write_picked d empty t) refl;
      selects = λ ks. rw (e, m) (leaves-select ks d t u);
    }
    | inr m ↦
        let (item, e', selects) =
          on_branch-IsFiltered n [] empty_text leaf_of_branch d h t nothing_in_text
            (λ s there ts. leaf_step s ts) in
        record { item = item; returns = rw (e, m) e'; selects = λ ks. rw (e, m) (selects ks) }
  ]
]
filter_tree-selects (n ∷ m ∷ topic) d h t u =
    let rest = λ (s : Dict Retained) (ts : IsTree s) (us : IsDistinct s).
      filter_tree-selects (m ∷ topic) s h.2 ts us in
    let f = filter_tree_with_topic (m ∷ topic) in
    elim (Bool-cases (n =str= many_card)) [
      | inl many ↦
          let g = λ (s : Dict Retained). item_of (f (dict s)) in
          record {
            item = tree (write_picked (λ s. kept (g s)) d empty);
            returns =
                rw
                  (
                    h.1,
                    many,
                    pick_branches-write_picked f g
                        (λ s ts us.
                          returned (f (dict s)) (rest s ts us).item (rest s ts us).returns)
                        d empty t u,
                  )
                  refl;
            selects = λ ks.
                rw (h.1, many)
                  (branches-select ks (m ∷ topic) g d
                    (λ s js ts us.
                      ap (λ r. payload_at js (item_of r)) (rest s ts us).returns
                      ∙ (rest s ts us).selects js)
                    t u);
          }
      | inr other ↦
          let (item, e', selects) =
            on_branch-IsFiltered n (m ∷ topic)
              (if last_is_static (m ∷ topic) then empty_text else tree empty) f d h.0 t
              (nothing_in_missing (last_is_static (m ∷ topic)))
              (λ s there ts.
                let r = rest s ts (get-IsDistinct n s d u there) in
                (r.item, r.returns, r.selects)) in
          record {
            item = item;
            returns = rw (h.1, other) e';
            selects = λ ks. rw (h.1, other) (selects ks);
          }
    ]
