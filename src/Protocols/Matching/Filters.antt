-- ===== src/Protocols/Matching/Filters.antt =====
-- The filters that a tree of subscriptions holds are the paths of its leaves.
use mathlib.Core.Path.{subst}
use mathlib.Core.List.{Memᴰ}
use mathlib.Core.List.Memᴰ
use mote_broker.Prelude.{
  String, ◌≡◌, refl, ap, ◌∙◌, sym, ◌=str=◌, eq_iff, Bool-cases, inl, inr, Option, none, some, List,
  [], ◌∷◌,
}
use mote_broker.Dict.{Item, Dict, atom, dict, empty, entry, get}
use mote_broker.RecursiveDict.{leaf_key, find, child, dict_of, leaf_of}
use mote_broker.RecursiveDict.Shape.{IsTree, IsEntry, get-IsEntry}
use mote_broker.RecursiveDict.Find.{find-empty}
use mote_broker.Protocols.Matching.{filters}

module _ {A : Type 0} where
  -- The filters of an entry are among those of the dict.
  of_node :
      (k : String) (b d : Dict A) (s : List String × Item A)
      → IsEntry k (dict b)
      → Memᴰ s (filters b)
      → Memᴰ (k ∷ s.0, s.1) (filters (entry k (dict b) d))
  of_node k b d s e m = rw e.0 (Memᴰ.append_left (filters d) (Memᴰ.map (λ s. (k ∷ s.0, s.1)) m))

  get-filters :
      (n : String) (b d : Dict A) (s : List String × Item A)
      → IsTree d
      → get n d ≡ some (dict b)
      → Memᴰ s (filters b)
      → Memᴰ (n ∷ s.0, s.1) (filters d)
  unfolding get
  get-filters n b empty s t h m = cc
  get-filters n b (entry k it d) s t h m = elim (Bool-cases (k =str= n)) [
    | inl e ↦
        let here : some it ≡ some (dict b) = rw e at h in
        let same : it ≡ dict b = cc in
        let entry_ok : IsEntry k (dict b) = subst (IsEntry k) same t.0 in
        subst (λ i. Memᴰ (n ∷ s.0, s.1) (filters (entry k i d))) (sym same)
          (subst (λ j. Memᴰ (j ∷ s.0, s.1) (filters (entry k (dict b) d))) ((eq_iff k n).0 e)
            (of_node k b d s entry_ok m))
    | inr e ↦ Memᴰ.append_right _ (get-filters n b d s t.1 (rw e at h) m)
  ]

  get-leaf : (a : A) (d : Dict A) → get leaf_key d ≡ some (atom a) → Memᴰ ([], atom a) (filters d)
  unfolding get
  get-leaf a empty h = cc
  get-leaf a (entry k it d) h = elim (Bool-cases (k =str= leaf_key)) [
    | inl e ↦
        let here : some it ≡ some (atom a) = rw e at h in
        let same : it ≡ atom a = cc in rw (e, same) (Memᴰ.head refl)
    | inr e ↦ Memᴰ.append_right _ (get-leaf a d (rw e at h))
  ]

  leaf_of-eq : (o : Option (Item A)) (a : A) → leaf_of o ≡ some a → o ≡ some (atom a)
  unfolding leaf_of
  leaf_of-eq none a h = cc
  leaf_of-eq (some (dict d)) a h = cc
  leaf_of-eq (some (atom b)) a h = cc

  -- Where a filter leads to a leaf, the tree holds the filter with that leaf.
  pub find-filters :
      (f : List String) (d : Dict A) (a : A)
      → IsTree d
      → find f d ≡ some a
      → Memᴰ (f, atom a) (filters d)
  unfolding find child dict_of
  find-filters [] d a t h = get-leaf a d (leaf_of-eq (get leaf_key d) a h)
  find-filters (n ∷ f) d a t h = below (λ b t' h'. find-filters f b a t' h') (get n d) refl h
    where
      below :
          ((b : Dict A) → IsTree b → find f b ≡ some a → Memᴰ (f, atom a) (filters b))
          → (o : Option (Item A)) → get n d ≡ o
          → find f (dict_of o) ≡ some a
          → Memᴰ (n ∷ f, atom a) (filters d)
      below go none e h = cc (h, find-empty {A = A} f)
      below go (some (atom b)) e h = cc (h, find-empty {A = A} f)
      below go (some (dict b)) e h =
          get-filters n b d (f, atom a) t e (go b (get-IsEntry n (dict b) d t e).1 h)

  -- The leaves of a proper tree are atoms.
  pub filters-leaf :
      (d : Dict A) (s : List String × Item A)
      → IsTree d
      → Memᴰ s (filters d)
      → (a : A) × (s.1 ≡ atom a)
  filters-leaf empty s t m = absurd (Memᴰ.not-nil m)
  filters-leaf (entry k (atom a) d) s t m = elim (Memᴰ.append_cases _ (rw t.0 at m)) [
    | inl here ↦ (a, ap (λ s. s.1) (Memᴰ.eq_of_singleton here))
    | inr there ↦ filters-leaf d s t.1 there
  ]
  filters-leaf (entry k (dict b) d) s t m = elim (Memᴰ.append_cases _ (rw t.0.0 at m)) [
    | inl here ↦
        let (r, m', e) = Memᴰ.of_map (λ s. (k ∷ s.0, s.1)) (filters b) here in
        let (a, e') = filters-leaf b r t.0.1 m' in (a, ap (λ s. s.1) (sym e) ∙ e')
    | inr there ↦ filters-leaf d s t.1 there
  ]
