-- ===== src/Dict/Laws.antt =====
-- The laws of `get`, `set` and `pop`.
use mote_broker.Prelude.{
  String, ◌≡◌, refl, ap, true, false, none, some, ◌=str=◌, if◌then◌else◌, eq_iff, arith,
}
use mote_broker.Dict.{Item, Dict, empty, entry, get, set, pop, is_empty}

module _ {ℓ} {A : Type ℓ} where
  pub get-set :
      (j k : String) (it : Item A) (d : Dict A)
      → get j (set k it d) ≡ (if k =str= j then some it else get j d)
  unfolding get set
  get-set j k it empty = refl
  get-set j k it (entry i jt d) =
      ground (arith, get-set j k it d, eq_iff i j, eq_iff i k, eq_iff k j)

  pub get-pop :
      (j k : String) (d : Dict A) → get j (pop k d) ≡ (if k =str= j then none else get j d)
  unfolding get pop
  get-pop j k empty = ground arith
  get-pop j k (entry i jt d) = ground (arith, get-pop j k d, eq_iff i j, eq_iff i k, eq_iff k j)

  pub get-same : (j k : String) (d : Dict A) → (j =str= k) ≡ true → get j d ≡ get k d
  get-same j k d h = ap (λ i. get i d) ((eq_iff j k).0 h)

  -- Writing back what is there changes nothing.
  pub set-get_self : (k : String) (it : Item A) (d : Dict A) → get k d ≡ some it → set k it d ≡ d
  unfolding get set
  set-get_self k it empty h = cc
  set-get_self k it (entry j jt d) h = ground (arith, set-get_self k it d)

  -- The last of two writes to a key counts.
  pub set-set_self : (k : String) (it jt : Item A) (d : Dict A) → set k it (set k jt d) ≡ set k it d
  unfolding set
  set-set_self k it jt empty = ground (arith, eq_iff k k)
  set-set_self k it jt (entry j lt d) = ground (arith, set-set_self k it jt d)

  pub pop_absent : (k : String) (d : Dict A) → get k d ≡ none → pop k d ≡ d
  unfolding get pop
  pop_absent k empty h = refl
  pop_absent k (entry j jt d) h = ground (arith, pop_absent k d)

  -- Popping a key undoes its insertion.
  pub pop-set_absent :
      (k : String) (it : Item A) (d : Dict A) → get k d ≡ none → pop k (set k it d) ≡ d
  unfolding get set pop
  pop-set_absent k it empty h = ground (arith, eq_iff k k)
  pop-set_absent k it (entry j jt d) h = ground (arith, pop-set_absent k it d)

  pub pop-set_self : (k : String) (it : Item A) (d : Dict A) → pop k (set k it d) ≡ pop k d
  unfolding set pop
  pop-set_self k it empty = ground (arith, eq_iff k k)
  pop-set_self k it (entry j jt d) = ground (arith, pop-set_self k it d)

  pub is_empty-set : (k : String) (it : Item A) (d : Dict A) → is_empty (set k it d) ≡ false
  unfolding set
  is_empty-set k it empty = refl
  is_empty-set k it (entry j jt d) = ground arith

pub get-empty {ℓ} : {A : Type ℓ} (k : String) → get {A = A} k empty ≡ none
unfolding get
get-empty k = refl

pub ruleset dict_laws = (get-set, get-pop, get-empty)

pub get-is_empty {ℓ} : {A : Type ℓ} (k : String) (d : Dict A) → is_empty d ≡ true → get k d ≡ none
unfolding get
get-is_empty k empty h = refl
get-is_empty k (entry j it d) h = cc
