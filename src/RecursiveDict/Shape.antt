-- ===== src/RecursiveDict/Shape.antt =====
-- The shape of a tree: an atom stands at the leaf key, and a dict at every other key.
use mote_broker.Prelude.{
  String, ◌≡◌, refl, true, false, Option, none, some, ◌=str=◌, eq_iff, if◌then◌else◌, arith,
  Bool-cases, inl, inr,
}
use mote_broker.Result.{Result}
use mote_broker.Dict.{Item, Dict, atom, dict, empty, entry, get, set, pop}
use mote_broker.Dict.Laws.{get-set, set-set_self}
use mathlib.Core.Path.{subst}
use mote_broker.RecursiveDict.{dict_of, getitem_found, leaf_key, make, visit_item, visit, child}

abbrev mutual
  pub IsEntry {ℓ} : {A : Type ℓ} → String → Item A → Type 0
  IsEntry k (atom a) = (k =str= leaf_key) ≡ true
  IsEntry k (dict d) = ((k =str= leaf_key) ≡ false) × IsTree d

  pub IsTree {ℓ} : {A : Type ℓ} → Dict A → Type 0
  IsTree empty = Unit
  IsTree (entry k it d) = IsEntry k it × IsTree d

-- A node of a topic: any text but the leaf key.
abbrev pub IsNode : String → Type 0
IsNode n = (n =str= leaf_key) ≡ false

module _ {ℓ} {A : Type ℓ} where
  pub IsTree-set :
      (k : String) (it : Item A) (d : Dict A) → IsEntry k it → IsTree d → IsTree (set k it d)
  unfolding set
  IsTree-set k it empty e t = (e, tt)
  IsTree-set k it (entry j jt d) e t = elim (Bool-cases (j =str= k)) [
    | inl same ↦ rw (same, (eq_iff j k).0 same) (e, t.1)
    | inr other ↦ rw other (t.0, IsTree-set k it d e t.1)
  ]

  pub IsTree-pop : (k : String) (d : Dict A) → IsTree d → IsTree (pop k d)
  unfolding pop
  IsTree-pop k empty t = tt
  IsTree-pop k (entry j jt d) t = elim (Bool-cases (j =str= k)) [
    | inl same ↦ rw same (IsTree-pop k d t.1)
    | inr other ↦ rw other (t.0, IsTree-pop k d t.1)
  ]

  pub get-IsEntry :
      (k : String) (it : Item A) (d : Dict A) → IsTree d → get k d ≡ some it → IsEntry k it
  unfolding get
  get-IsEntry k it empty t h = cc
  get-IsEntry k it (entry j jt d) t h = elim (Bool-cases (j =str= k)) [
    | inl same ↦
        let e : jt ≡ it = ground arith in
        subst (λ i. IsEntry k i) e (subst (λ i. IsEntry i jt) ((eq_iff j k).0 same) t.0)
    | inr other ↦ get-IsEntry k it d t.1 (rw other at h)
  ]

  pub IsTree-child : (k : String) (d : Dict A) → IsTree d → IsTree (child k d)
  unfolding child
  IsTree-child k d t = go (get k d) refl
    where
      go : (o : Option (Item A)) → get k d ≡ o → IsTree (dict_of o)
      go none e = tt
      go (some (atom a)) e = tt
      go (some (dict s)) e = (get-IsEntry k (dict s) d t e).1

  pub child-leaf_key : (d : Dict A) → IsTree d → child leaf_key d ≡ empty
  unfolding child
  child-leaf_key d t = go (get leaf_key d) refl
    where
      go : (o : Option (Item A)) → get leaf_key d ≡ o → dict_of o ≡ empty
      go none e = refl
      go (some (atom a)) e = refl
      go (some (dict s)) e = cc ((get-IsEntry leaf_key (dict s) d t e).0)

  pub child-set :
      (m n : String) (s d : Dict A)
      → child m (set n (dict s) d) ≡ (if n =str= m then s else child m d)
  unfolding child
  child-set m n s d = rw get-set (ground arith)

  -- A method called at a node works on the child there, an empty one if there is none.
  pub visit-child {κ} :
      {R : Type κ} (missing : A) (f : Dict A → Result R × Dict A) (n : String) (d : Dict A)
      → IsNode n
      → IsTree d
      → visit missing f n d ≡ ((f (child n d)).0, set n (dict (f (child n d)).1) d)
  unfolding visit child make
  visit-child missing f n d hn t = go (get n d) refl
    where
      go :
          (o : Option (Item A))
          → get n d ≡ o
          → visit_item missing f n (getitem_found missing n d o)
            ≡ ((f (dict_of o)).0, set n (dict (f (dict_of o)).1) d)
      go none e = rw hn (rw set-set_self)
      go (some (atom a)) e = cc (get-IsEntry n (atom a) d t e)
      go (some (dict s)) e = refl
