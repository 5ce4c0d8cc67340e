-- ===== src/RecursiveDict/Find.antt =====
-- A tree as the map from paths to leaves: what the walk `<<` and a write through it do to the map.
use mathlib.Core.Option.{get_or}
use mote_broker.Prelude.{
  String, ◌≡◌, refl, ap, ◌∙◌, Option, none, some, List, [], ◌∷◌, All, path_eq, path_eq_iff, ◌=str=◌,
  eq_iff, eq_refl, if◌then◌else◌, arith, Bool-cases, inl, inr,
}
use mote_broker.Result.{Result, ok}
use mote_broker.Dict.{Item, Dict, atom, dict, empty, get, set}
use mote_broker.Dict.Laws.{get-set, set-set_self, set-get_self}
use mote_broker.RecursiveDict.{
  leaf_key, make, getitem_found, leaf, lshift, child, dict_of, assign, find, leaf_of,
}
use mote_broker.RecursiveDict.Shape.{
  IsTree, IsNode, IsTree-set, get-IsEntry, IsTree-child, child-leaf_key, child-set, visit-child,
}

module _ {ℓ} {A : Type ℓ} where
  pub find-child : (m : String) (q : List String) (d : Dict A) → find (m ∷ q) d ≡ find q (child m d)
  unfolding find
  find-child m q d = refl

  pub find-set_nil : (n : String) (s d : Dict A) → IsNode n → find [] (set n (dict s) d) ≡ find [] d
  unfolding find
  find-set_nil n s d h = rw get-set (rw h)

  pub find-set_cons :
      (n m : String) (q : List String) (s d : Dict A)
      → find (m ∷ q) (set n (dict s) d) ≡ (if n =str= m then find q s else find (m ∷ q) d)
  unfolding find
  find-set_cons n m q s d = rw child-set (ground arith)

  -- A path that meets the map at the leaf of the root.
  pub find-leaf :
      (q : List String) (a : A) (d : Dict A)
      → IsTree d
      → find q (set leaf_key (atom a) d) ≡ (if path_eq [] q then some a else find q d)
  unfolding find
  find-leaf [] a d t = rw get-set
  find-leaf (m ∷ q) a d t = elim (Bool-cases (leaf_key =str= m)) [
    | inl same ↦ rw (get-set, same, ← (eq_iff leaf_key m).0 same, child-leaf_key d t)
    | inr other ↦ rw get-set (rw other)
  ]

  pub find-assign :
      (p q : List String) (a : A) (d : Dict A)
      → All IsNode p
      → IsTree d
      → find q (assign p a d) ≡ (if path_eq p q then some a else find q d)
  unfolding assign
  find-assign [] q a d h t = find-leaf q a d t
  find-assign (n ∷ p) [] a d h t = find-set_nil n _ d h.0
  find-assign (n ∷ p) (m ∷ q) a d h t = ground (
    arith,
    find-set_cons n m q (assign p a (child n d)) d,
    find-assign p q a (child n d) h.1 (IsTree-child n d t),
    eq_iff n m,
    find-child m q d,
  )

  pub IsTree-assign :
      (p : List String) (a : A) (d : Dict A) → All IsNode p → IsTree d → IsTree (assign p a d)
  unfolding assign
  IsTree-assign [] a d h t = IsTree-set leaf_key (atom a) d refl t
  IsTree-assign (n ∷ p) a d h t =
      IsTree-set n _ d (h.0, IsTree-assign p a (child n d) h.1 (IsTree-child n d t)) t

-- What a method left, with its dict back in its place.
abbrev pub put_back {ℓ κ} :
    {A : Type ℓ} {R : Type κ} → String → Dict A → Result R × Dict A → Result R × Dict A
put_back n d r = (r.0, set n (dict r.1) d)

module _ {ℓ} {A : Type ℓ} (missing : A) where
  -- the leaf that `<<` returns
  abbrev pub value_at : List String → Dict A → A
  value_at p d = get_or (find p d) missing

  leaf-value :
      (d : Dict A)
      → IsTree d
      → leaf missing d ≡ (ok (atom (value_at [] d)), assign [] (value_at [] d) d)
  unfolding leaf find assign make
  leaf-value d t = go (get leaf_key d) refl
    where
      go :
          (o : Option (Item A))
          → get leaf_key d ≡ o
          → (let (it, d') = getitem_found missing leaf_key d o in
              let r : Result (Item A) × Dict A = (ok it, d') in r)
            ≡ (
              ok (atom (get_or (leaf_of o) missing)),
              set leaf_key (atom (get_or (leaf_of o) missing)) d,
            )
      go none e = refl
      go (some (atom a)) e = rw (set-get_self _ _ d e)
      go (some (dict s)) e = cc ((get-IsEntry leaf_key (dict s) d t e).0)

  -- The walk returns the leaf at the path, a fresh one where none is, and afterwards that leaf stands
  -- in the tree.
  pub lshift-value :
      (n : String) (p : List String) (d : Dict A)
      → All IsNode (n ∷ p)
      → IsTree d
      → lshift missing (n ∷ p) d
        ≡ (ok (atom (value_at (n ∷ p) d)), assign (n ∷ p) (value_at (n ∷ p) d) d)
  unfolding lshift assign find
  lshift-value n [] d h t =
      visit-child missing (leaf missing) n d h.0 t
      ∙ ap (put_back n d) (leaf-value (child n d) (IsTree-child n d t))
  lshift-value n (m ∷ p) d h t =
      visit-child missing (lshift missing (m ∷ p)) n d h.0 t
      ∙ ap (put_back n d) (lshift-value m p (child n d) h.1 (IsTree-child n d t))

module _ {ℓ} {A : Type ℓ} where
  -- The last of two writes through one path counts.
  pub assign-assign :
      (p : List String) (a b : A) (d : Dict A) → assign p a (assign p b d) ≡ assign p a d
  unfolding assign
  assign-assign [] a b d = set-set_self leaf_key _ _ d
  assign-assign (n ∷ p) a b d =
      rw (child-set, eq_refl, set-set_self) (rw (assign-assign p a b (child n d)))

  pub find-assign_self :
      (p : List String) (a : A) (d : Dict A)
      → All IsNode p
      → IsTree d
      → find p (assign p a d) ≡ some a
  find-assign_self p a d h t = rw (find-assign p p a d h t, (path_eq_iff p p).1 refl)

  pub find-empty : (p : List String) → find {A = A} p empty ≡ none
  unfolding find get
  find-empty [] = refl
  find-empty (n ∷ p) = find-empty p

  -- Writing back the leaf that is there changes nothing.
  pub assign-find_self :
      (p : List String) (a : A) (d : Dict A)
      → All IsNode p
      → IsTree d
      → find p d ≡ some a
      → assign p a d ≡ d
  unfolding assign find child
  assign-find_self [] a d h t f = by_get (get leaf_key d) refl f
    where
      by_get :
          (o : Option (Item A))
          → get leaf_key d ≡ o
          → leaf_of o ≡ some a
          → set leaf_key (atom a) d ≡ d
      by_get none e f = cc
      by_get (some (atom b)) e f = set-get_self leaf_key (atom a) d (e ∙ ground (arith, f))
      by_get (some (dict s)) e f = cc
  assign-find_self (n ∷ p) a d h t f =
      by_get (get n d) refl (λ s ts. assign-find_self p a s h.1 ts) f
    where
      by_get :
          (o : Option (Item A))
          → get n d ≡ o
          → ((s : Dict A) → IsTree s → find p s ≡ some a → assign p a s ≡ s)
          → find p (dict_of o) ≡ some a
          → set n (dict (assign p a (dict_of o))) d ≡ d
      by_get none e ih f = cc (find-empty p)
      by_get (some (atom b)) e ih f = cc (find-empty p)
      by_get (some (dict s)) e ih f =
          rw (ih s (get-IsEntry n (dict s) d t e).1 f) (set-get_self n (dict s) d e)
