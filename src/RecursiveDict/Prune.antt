-- ===== src/RecursiveDict/Prune.antt =====
-- `cascade_delete`: it takes one leaf away, and the branches that this leaves empty.
use mote_broker.Prelude.{
  String, ◌≡◌, refl, ap, ◌∙◌, false, Option, none, some, List, [], ◌∷◌, All, path_eq, ◌=str=◌,
  eq_iff, eq_refl, if◌then◌else◌, arith, Bool-cases, inl, inr, ◌≢◌,
}
use mote_broker.Result.{ok}
use mote_broker.Dict.{Item, Dict, atom, dict, empty, entry, get, set, pop, is_empty}
use mote_broker.Dict.Laws.{
  get-set, get-pop, set-set_self, set-get_self, pop-set_self, pop-set_absent, pop_absent,
  is_empty-set,
}
use mote_broker.RecursiveDict.{
  leaf_key, lshift, child, assign, find, dict_of, pop_leaf, drop_if_empty, cascade_delete,
}
use mote_broker.RecursiveDict.Shape.{
  IsTree, IsNode, IsTree-set, IsTree-pop, get-IsEntry, IsTree-child, child-leaf_key, child-set,
  visit-child,
}
use mathlib.Core.Option.{get_or}
use mathlib.Core.Path.{subst}
use mote_broker.RecursiveDict.Find.{put_back, find-child, find-assign, lshift-value}

-- No dict below is empty.
abbrev mutual
  pub IsFull {ℓ} : {A : Type ℓ} → Item A → Type 0
  IsFull (atom a) = Unit
  IsFull (dict d) = (is_empty d ≡ false) × IsPruned d

  pub IsPruned {ℓ} : {A : Type ℓ} → Dict A → Type 0
  IsPruned empty = Unit
  IsPruned (entry k it d) = IsFull it × IsPruned d

module _ {ℓ} {A : Type ℓ} where
  -- the tree with a dict at a key, or without the key if that dict is empty
  abbrev pub trim : String → Dict A → Dict A → Dict A
  trim n s d = if is_empty s then pop n d else set n (dict s) d

  pub child-trim :
      (m n : String) (s d : Dict A) → child m (trim n s d) ≡ (if n =str= m then s else child m d)
  unfolding child
  child-trim m n empty d = rw get-pop (ground arith)
  child-trim m n (entry k it s) d = rw get-set (ground arith)

  pub find-trim_nil : (n : String) (s d : Dict A) → IsNode n → find [] (trim n s d) ≡ find [] d
  unfolding find
  find-trim_nil n empty d h = rw get-pop (rw h)
  find-trim_nil n (entry k it s) d h = rw get-set (rw h)

  pub IsTree-trim :
      (n : String) (s d : Dict A) → IsNode n → IsTree s → IsTree d → IsTree (trim n s d)
  IsTree-trim n empty d h ts t = IsTree-pop n d t
  IsTree-trim n (entry k it s) d h ts t = IsTree-set n _ d (h, ts) t

  -- What is done after the call on a child.
  drop-trim :
      (missing : A) (n : String) (u : Unit {0}) (s d : Dict A)
      → drop_if_empty missing n (ok u, set n (dict s) d) ≡ (ok u, trim n s d)
  unfolding drop_if_empty
  drop-trim missing n u empty d = rw (get-set, eq_refl, pop-set_self)
  drop-trim missing n u (entry k it s) d = rw (get-set, eq_refl)

  -- The tree without the leaf at a path, as a function of the tree alone.
  pub prune : List String → Dict A → Dict A
  prune [] d = pop leaf_key d
  prune (n ∷ p) d = trim n (prune p (child n d)) d

  pop_leaf-prune : (d : Dict A) → find [] d ≢ none → pop_leaf d ≡ (ok tt, prune [] d)
  unfolding pop_leaf find prune
  pop_leaf-prune d h = ground arith

  -- `cascade_delete` raises nothing where the leaf is there, and leaves the pruned tree.
  pub cascade_delete-prune :
      (missing : A) (n : String) (p : List String) (d : Dict A)
      → All IsNode (n ∷ p)
      → IsTree d
      → find (n ∷ p) d ≢ none
      → cascade_delete missing (n ∷ p) d ≡ (ok tt, prune (n ∷ p) d)
  unfolding cascade_delete prune
  cascade_delete-prune missing n [] d h t f =
      ap (drop_if_empty missing n) (
        visit-child missing pop_leaf n d h.0 t
        ∙ ap (put_back n d) (pop_leaf-prune (child n d) (rw find-child at f)))
      ∙ drop-trim missing n tt _ d
  cascade_delete-prune missing n (m ∷ p) d h t f =
      ap (drop_if_empty missing n) (
        visit-child missing (cascade_delete missing (m ∷ p)) n d h.0 t
        ∙ ap (put_back n d) (
            cascade_delete-prune missing m p (child n d) h.1 (IsTree-child n d t)
              (rw find-child at f)))
      ∙ drop-trim missing n tt _ d

  pub IsTree-prune : (p : List String) (d : Dict A) → All IsNode p → IsTree d → IsTree (prune p d)
  unfolding prune
  IsTree-prune [] d h t = IsTree-pop leaf_key d t
  IsTree-prune (n ∷ p) d h t =
      IsTree-trim n _ d h.0 (IsTree-prune p (child n d) h.1 (IsTree-child n d t)) t

  find-pop_leaf :
      (q : List String) (d : Dict A)
      → IsTree d
      → find q (pop leaf_key d) ≡ (if path_eq [] q then none else find q d)
  unfolding find child
  find-pop_leaf [] d t = rw get-pop
  find-pop_leaf (m ∷ q) d t = elim (Bool-cases (leaf_key =str= m)) [
    | inl same ↦ rw (get-pop, same, ← (eq_iff leaf_key m).0 same) (rw (child-leaf_key d t))
    | inr other ↦ rw (get-pop, other)
  ]

  -- In the map of leaves, one leaf is gone and all others are as before.
  pub find-prune :
      (p q : List String) (d : Dict A)
      → All IsNode p
      → IsTree d
      → find q (prune p d) ≡ (if path_eq p q then none else find q d)
  unfolding prune
  find-prune [] q d h t = find-pop_leaf q d t
  find-prune (n ∷ p) [] d h t = find-trim_nil n _ d h.0
  find-prune (n ∷ p) (m ∷ q) d h t = ground (
    arith,
    find-child m q (trim n (prune p (child n d)) d),
    child-trim m n (prune p (child n d)) d,
    find-prune p q (child n d) h.1 (IsTree-child n d t),
    eq_iff n m,
    find-child m q d,
  )

  IsPruned-set :
      (k : String) (it : Item A) (d : Dict A) → IsFull it → IsPruned d → IsPruned (set k it d)
  unfolding set
  IsPruned-set k it empty e t = (e, tt)
  IsPruned-set k it (entry j jt d) e t = elim (Bool-cases (j =str= k)) [
    | inl same ↦ rw same (e, t.1)
    | inr other ↦ rw other (t.0, IsPruned-set k it d e t.1)
  ]

  IsPruned-pop : (k : String) (d : Dict A) → IsPruned d → IsPruned (pop k d)
  unfolding pop
  IsPruned-pop k empty t = tt
  IsPruned-pop k (entry j jt d) t = elim (Bool-cases (j =str= k)) [
    | inl same ↦ rw same (IsPruned-pop k d t.1)
    | inr other ↦ rw other (t.0, IsPruned-pop k d t.1)
  ]

  get-IsFull : (k : String) (it : Item A) (d : Dict A) → IsPruned d → get k d ≡ some it → IsFull it
  unfolding get
  get-IsFull k it empty t h = cc
  get-IsFull k it (entry j jt d) t h = elim (Bool-cases (j =str= k)) [
    | inl same ↦ let e : jt ≡ it = ground arith in subst IsFull e t.0
    | inr other ↦ get-IsFull k it d t.1 (rw other at h)
  ]

  IsPruned-child : (k : String) (d : Dict A) → IsPruned d → IsPruned (child k d)
  unfolding child
  IsPruned-child k d t = go (get k d) refl
    where
      go : (o : Option (Item A)) → get k d ≡ o → IsPruned (dict_of o)
      go none e = tt
      go (some (atom a)) e = tt
      go (some (dict s)) e = (get-IsFull k (dict s) d t e).1

  IsPruned-trim : (n : String) (s d : Dict A) → IsPruned s → IsPruned d → IsPruned (trim n s d)
  IsPruned-trim n empty d ts t = IsPruned-pop n d t
  IsPruned-trim n (entry k it s) d ts t = IsPruned-set n _ d (refl, ts) t

  pub IsPruned-prune : (p : List String) (d : Dict A) → IsPruned d → IsPruned (prune p d)
  unfolding prune
  IsPruned-prune [] d t = IsPruned-pop leaf_key d t
  IsPruned-prune (n ∷ p) d t =
      IsPruned-trim n _ d (IsPruned-prune p (child n d) (IsPruned-child n d t)) t

  is_empty-assign : (p : List String) (a : A) (d : Dict A) → is_empty (assign p a d) ≡ false
  unfolding assign
  is_empty-assign [] a d = is_empty-set leaf_key (atom a) d
  is_empty-assign (n ∷ p) a d = is_empty-set n _ d

  pub IsPruned-assign :
      (p : List String) (a : A) (d : Dict A) → IsPruned d → IsPruned (assign p a d)
  unfolding assign
  IsPruned-assign [] a d t = IsPruned-set leaf_key (atom a) d tt t
  IsPruned-assign (n ∷ p) a d t =
      IsPruned-set n _ d
        (is_empty-assign p a (child n d), IsPruned-assign p a (child n d) (IsPruned-child n d t)) t

  -- A dict written back where it stood, or dropped where it was not: the tree is as before.
  trim-child :
      (n : String) (d : Dict A) → IsNode n → IsTree d → IsPruned d → trim n (child n d) d ≡ d
  unfolding child
  trim-child n d h t r = go (get n d) refl
    where
      go : (o : Option (Item A)) → get n d ≡ o → trim n (dict_of o) d ≡ d
      go none e = pop_absent n d e
      go (some (atom a)) e = cc (get-IsEntry n (atom a) d t e)
      go (some (dict s)) e = rw (get-IsFull n (dict s) d r e).0 (set-get_self n _ d e)

  trim-set : (n : String) (s s' d : Dict A) → trim n s (set n (dict s') d) ≡ trim n s d
  trim-set n empty s' d = pop-set_self n _ d
  trim-set n (entry k it s) s' d = set-set_self n _ _ d

  no-leaf : (d : Dict A) → IsTree d → find [] d ≡ none → get leaf_key d ≡ none
  unfolding find
  no-leaf d t f = go (get leaf_key d) refl
    where
      go : (o : Option (Item A)) → get leaf_key d ≡ o → get leaf_key d ≡ none
      go none e = e
      go (some (atom a)) e = ground (arith, f)
      go (some (dict s)) e = cc ((get-IsEntry leaf_key (dict s) d t e).0)

  -- A leaf that is made and taken away again leaves no trace.
  pub prune-assign :
      (p : List String) (a : A) (d : Dict A)
      → All IsNode p
      → IsTree d
      → IsPruned d
      → find p d ≡ none
      → prune p (assign p a d) ≡ d
  unfolding prune assign
  prune-assign [] a d h t r f = pop-set_absent leaf_key _ d (no-leaf d t f)
  prune-assign (n ∷ p) a d h t r f =
      rw (child-set, eq_refl, trim-set)
        (rw
          (prune-assign p a (child n d) h.1 (IsTree-child n d t) (IsPruned-child n d r)
            (rw find-child at f))
          (trim-child n d h.0 t r))

-- `<<` returns the leaf at a path, a fresh one where none is, and the only leaf that it changes is a
-- missing one, which it makes.
lshift-find {ℓ} :
    {A : Type ℓ} (missing : A) (n : String) (p : List String) (d : Dict A)
    → All IsNode (n ∷ p)
    → IsTree d
    → ((lshift missing (n ∷ p) d).0 ≡ ok (atom (get_or (find (n ∷ p) d) missing)))
      × ((q : List String)
          → find q (lshift missing (n ∷ p) d).1
            ≡ (if path_eq (n ∷ p) q then some (get_or (find (n ∷ p) d) missing) else find q d))
lshift-find missing n p d h t =
    rw (lshift-value missing n p d h t) (refl, λ q. find-assign (n ∷ p) q _ d h t)

-- Where a leaf is, `cascade_delete` removes it and no other leaf, and leaves no empty branch if there
-- was none.
cascade_delete-find {ℓ} :
    {A : Type ℓ} (missing : A) (n : String) (p : List String) (d : Dict A)
    → All IsNode (n ∷ p)
    → IsTree d
    → IsPruned d
    → find (n ∷ p) d ≢ none
    → ((cascade_delete missing (n ∷ p) d).0 ≡ ok tt)
      × ((q : List String)
          → find q (cascade_delete missing (n ∷ p) d).1
            ≡ (if path_eq (n ∷ p) q then none else find q d))
      × IsTree (cascade_delete missing (n ∷ p) d).1
      × IsPruned (cascade_delete missing (n ∷ p) d).1
cascade_delete-find missing n p d h t r f =
    rw (cascade_delete-prune missing n p d h t f) (
      refl,
      λ q. find-prune (n ∷ p) q d h t,
      IsTree-prune (n ∷ p) d h t,
      IsPruned-prune (n ∷ p) d r,
    )
