-- ===== src/RecursiveDict/Walk.antt =====
-- The walk `/` over dicts: it makes a dict at each node of its path, and gives the last.
use mote_broker.Prelude.{
  String, ◌≡◌, refl, ap, ◌∙◌, sym, Bool, eq_refl, Option, none, some, List, [], ◌∷◌, All,
}
use mote_broker.Result.{ok}
use mote_broker.Dict.{Item, Dict, atom, dict, get, set}
use mote_broker.Dict.Laws.{set-get_self, set-set_self}
use mote_broker.RecursiveDict.{getitem_found, make, follow, truediv, assign, child, dict_of}
use mote_broker.RecursiveDict.Shape.{IsTree, IsNode, get-IsEntry, child-set, IsTree-child}

module _ {ℓ} {A : Type ℓ} where
  -- The tree with a dict at each node of the path, and the last of these
  pub ensure : List String → Dict A → Dict A
  ensure [] d = d
  ensure (n ∷ p) d = set n (dict (ensure p (child n d))) d

  pub end_of : List String → Dict A → Dict A
  end_of [] d = d
  end_of (n ∷ p) d = end_of p (child n d)

  pub assign-ensure :
      (p : List String) (a : A) (d : Dict A) → assign p a (ensure p d) ≡ assign p a d
  unfolding assign ensure
  assign-ensure [] a d = refl
  assign-ensure (n ∷ p) a d =
      rw (child-set, eq_refl, set-set_self) (rw (assign-ensure p a (child n d)))

module _ {ℓ} {A : Type ℓ} (missing : A) where
  module _ (n : String) (d : Dict A) (h : IsNode n) (t : IsTree d) where
    abbrev found : Item A × Dict A
    found = getitem_found missing n d (get n d)

    found-child :
        getitem_found missing n d (get n d) ≡ (dict (child n d), set n (dict (child n d)) d)
    unfolding getitem_found child make
    found-child = by_get (get n d) refl
      where
        by_get :
            (o : Option (Item A))
            → get n d ≡ o
            → getitem_found missing n d o ≡ (dict (dict_of o), set n (dict (dict_of o)) d)
        by_get none e = rw h
        by_get (some (atom a)) e = cc (h, get-IsEntry n (atom a) d t e)
        by_get (some (dict s)) e = ap (λ r. (dict s, r)) (sym (set-get_self n (dict s) d e))

module _ {ℓ} {A : Type ℓ} (missing : A) (is_none : A → Bool) where
  pub truediv-ensure :
      (n : String) (p : List String) (d : Dict A)
      → All IsNode (n ∷ p)
      → IsTree d
      → truediv missing is_none (n ∷ p) d ≡ (ok (dict (end_of (n ∷ p) d)), ensure (n ∷ p) d)
  unfolding truediv ensure end_of
  truediv-ensure n [] d h t = rw (found-child missing n d h.0 t)
  truediv-ensure n (m ∷ p) d h t =
      ap (follow missing is_none (truediv missing is_none (m ∷ p)) n)
        (found-child missing n d h.0 t)
      ∙ rw (truediv-ensure m p (child n d) h.1 (IsTree-child n d t), set-set_self)
