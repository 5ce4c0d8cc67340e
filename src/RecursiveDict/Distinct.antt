-- ===== src/RecursiveDict/Distinct.antt =====
-- Each key stands once in a dict, at every depth; writing keeps that.
use mathlib.Core.Path.{subst}
use mote_broker.Prelude.{
  String, ◌≡◌, refl, ◌∙◌, ◌=str=◌, Bool-cases, str-eq_comm, inl, inr, Option, none, some, List, [],
  ◌∷◌,
}
use mote_broker.Dict.{Item, Dict, atom, dict, empty, entry, get, set, pop}
use mote_broker.Dict.Laws.{get-set, get-pop}
use mote_broker.RecursiveDict.{leaf_key, child, dict_of, assign}

-- A dict holds each key once, at every depth.
abbrev mutual
  pub IsDistinctItem {ℓ} : {A : Type ℓ} → Item A → Type ℓ
  IsDistinctItem (atom a) = Unit
  IsDistinctItem (dict d) = IsDistinct d

  pub IsDistinct {ℓ} : {A : Type ℓ} → Dict A → Type ℓ
  IsDistinct empty = Unit
  IsDistinct (entry k it d) = (get k d ≡ none) × IsDistinctItem it × IsDistinct d

pub get-IsDistinct {ℓ} :
    {A : Type ℓ} (k : String) (s d : Dict A) → IsDistinct d → get k d ≡ some (dict s) → IsDistinct s
unfolding get
get-IsDistinct k s empty u e = cc
get-IsDistinct k s (entry j it d) u e = elim (Bool-cases (j =str= k)) [
  | inl same ↦
      let e' : some it ≡ some (dict s) = rw same at e in
      let there : it ≡ dict s = cc in subst (λ i. IsDistinctItem i) there u.1
  | inr other ↦ get-IsDistinct k s d u.2 (rw other at e)
]

module _ {ℓ} {A : Type ℓ} where
  pub IsDistinct-child : (k : String) (d : Dict A) → IsDistinct d → IsDistinct (child k d)
  unfolding child dict_of
  IsDistinct-child k d u = by_get (get k d) refl
    where
      by_get : (o : Option (Item A)) → get k d ≡ o → IsDistinct (dict_of o)
      by_get none e = tt
      by_get (some (atom a)) e = tt
      by_get (some (dict s)) e = get-IsDistinct k s d u e

  IsDistinct-set :
      (k : String) (it : Item A) (d : Dict A)
      → IsDistinctItem it
      → IsDistinct d
      → IsDistinct (set k it d)
  unfolding set get
  IsDistinct-set k it empty i u = (refl, i, tt)
  IsDistinct-set k it (entry j jt d) i u = elim (Bool-cases (j =str= k)) [
    | inl same ↦ rw same (u.0, i, u.2)
    | inr other ↦
        rw other
          (get-set j k it d ∙ rw (str-eq_comm k j ∙ other) u.0, u.1, IsDistinct-set k it d i u.2)
  ]

  pub IsDistinct-pop : (k : String) (d : Dict A) → IsDistinct d → IsDistinct (pop k d)
  unfolding pop
  IsDistinct-pop k empty u = tt
  IsDistinct-pop k (entry j jt d) u = elim (Bool-cases (j =str= k)) [
    | inl same ↦ rw same (IsDistinct-pop k d u.2)
    | inr other ↦
        rw other (get-pop j k d ∙ rw (str-eq_comm k j ∙ other) u.0, u.1, IsDistinct-pop k d u.2)
  ]

  pub IsDistinct-assign :
      (p : List String) (a : A) (d : Dict A) → IsDistinct d → IsDistinct (assign p a d)
  unfolding assign
  IsDistinct-assign [] a d u = IsDistinct-set leaf_key (atom a) d tt u
  IsDistinct-assign (n ∷ p) a d u =
      IsDistinct-set n (dict (assign p a (child n d))) d
        (IsDistinct-assign p a (child n d) (IsDistinct-child n d u)) u
