-- ===== src/Protocols/Filter/Loops.antt =====
-- The two loops of protocols/filter_tree.py over the branches of a tree: what they leave at each key.
use mote_broker.Prelude.{
  String, ◌≡◌, refl, sym, ap, ◌∙◌, ◌=str=◌, if◌then◌else◌, Bool-cases, inl, inr, Option, none, some,
}
use mote_broker.Result.{Result, ok}
use mote_broker.Dict.{Item, Dict, atom, dict, empty, entry, get, set}
use mote_broker.Dict.Laws.{get-set, get-same}
use mote_broker.RecursiveDict.{leaf_key}
use mote_broker.RecursiveDict.Shape.{IsTree}
use mote_broker.RecursiveDict.Distinct.{IsDistinct}
use mote_broker.Protocols.{Retained}
use mote_broker.Protocols.Filter.{
  TreeItem, empty_text, leaf, tree, is_truthy, put_if_truthy, pick_leaves, put_branch,
  pick_branches,
}

-- `result[key] = found`, where something is found
abbrev pub put_found : String → Option (Item Retained) → Dict Retained → Dict Retained
put_found key none result = result
put_found key (some it) result = set key it result

-- The first that is there.
abbrev pub or_else : Option (Item Retained) → Option (Item Retained) → Option (Item Retained)
or_else none o = o
or_else (some it) o = some it

module _ (pick : Dict Retained → Option (Item Retained)) where
  -- A loop that writes what each branch gives.
  abbrev pub write_picked : Dict Retained → Dict Retained → Dict Retained
  write_picked empty result = result
  write_picked (entry key (atom a) rest) result = write_picked rest result
  write_picked (entry key (dict d) rest) result = write_picked rest (put_found key (pick d) result)

  abbrev pub picked : Option (Item Retained) → Option (Item Retained)
  picked none = none
  picked (some (atom a)) = none
  picked (some (dict d)) = pick d

  get-put_found :
      (j k : String) (o : Option (Item Retained)) (result : Dict Retained)
      → get j (put_found k o result)
        ≡ (if k =str= j then or_else o (get j result) else get j result)
  get-put_found j k none result = elim (Bool-cases (k =str= j)) [ inl e ↦ rw e | inr e ↦ rw e ]
  get-put_found j k (some it) result = get-set j k it result

  -- Each key has what its branch gives, or else what it had.
  pub get-write_picked :
      (k : String) (d result : Dict Retained)
      → IsDistinct d
      → get k (write_picked d result) ≡ or_else (picked (get k d)) (get k result)
  unfolding get
  get-write_picked k empty result h = refl
  get-write_picked k (entry key (atom a) rest) result h = elim (Bool-cases (key =str= k)) [
    | inl e ↦ rw (e, get-write_picked k rest result h.2, sym (get-same key k rest e) ∙ h.0)
    | inr e ↦ rw e (get-write_picked k rest result h.2)
  ]
  get-write_picked k (entry key (dict d) rest) result h = elim (Bool-cases (key =str= k)) [
    | inl e ↦
        rw
          (
            e,
            get-write_picked k rest (put_found key (pick d) result) h.2,
            sym (get-same key k rest e) ∙ h.0,
          )
          (get-put_found k key (pick d) result ∙ rw e)
    | inr e ↦
        rw (e, get-write_picked k rest (put_found key (pick d) result) h.2)
          (ap (or_else (picked (get k rest))) (get-put_found k key (pick d) result ∙ rw e))
  ]

-- What the loop of a last `+` takes of a branch: its leaf, if that is worth it.
abbrev pub worth_leaf : Dict Retained → Option (Item Retained)
worth_leaf d = if is_truthy (get leaf_key d) then get leaf_key d else none

put_if_truthy-put_found :
    (key : String) (o : Option (Item Retained)) (result : Dict Retained)
    → put_if_truthy key o result ≡ put_found key (if is_truthy o then o else none) result
unfolding put_if_truthy
put_if_truthy-put_found key none result = refl
put_if_truthy-put_found key (some it) result = elim (Bool-cases (is_truthy (some it))) [
  | inl e ↦ rw e
  | inr e ↦ rw e
]

pub pick_leaves-write_picked :
    (d result : Dict Retained)
    → IsTree d
    → pick_leaves d result ≡ ok (write_picked worth_leaf d result)
unfolding pick_leaves
pick_leaves-write_picked empty result t = refl
pick_leaves-write_picked (entry key (atom a) rest) result t =
    rw t.0 (pick_leaves-write_picked rest result t.1)
pick_leaves-write_picked (entry key (dict d) rest) result t =
    rw (t.0.0, put_if_truthy-put_found key (get leaf_key d) result)
      (pick_leaves-write_picked rest _ t.1)

-- What the loop of another `+` takes of the filtered branch.
abbrev pub kept : TreeItem → Option (Item Retained)
kept empty_text = none
kept (tree empty) = none
kept (tree (entry k it d)) = some (dict (entry k it d))
kept (leaf a) = some (atom a)

put_branch-put_found :
    (key : String) (item : TreeItem) (result : Dict Retained)
    → put_branch key item result ≡ put_found key (kept item) result
unfolding put_branch
put_branch-put_found key empty_text result = refl
put_branch-put_found key (tree empty) result = refl
put_branch-put_found key (tree (entry k it d)) result = refl
put_branch-put_found key (leaf a) result = refl

pub pick_branches-write_picked :
    (f : Item Retained → Result TreeItem) (g : Dict Retained → TreeItem)
    → ((s : Dict Retained) → IsTree s → IsDistinct s → f (dict s) ≡ ok (g s))
    → (d result : Dict Retained) → IsTree d
    → IsDistinct d
    → pick_branches f d result ≡ ok (write_picked (λ s. kept (g s)) d result)
unfolding pick_branches
pick_branches-write_picked f g h empty result t u = refl
pick_branches-write_picked f g h (entry key (atom a) rest) result t u =
    rw t.0 (pick_branches-write_picked f g h rest result t.1 u.2)
pick_branches-write_picked f g h (entry key (dict d) rest) result t u =
    rw (t.0.0, h d t.0.1 u.1, put_branch-put_found key (g d) result)
      (pick_branches-write_picked f g h rest _ t.1 u.2)
