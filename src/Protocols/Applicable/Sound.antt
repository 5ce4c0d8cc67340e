-- ===== src/Protocols/Applicable/Sound.antt =====
-- Which rows a message gives.
use mathlib.Core.Path.{subst}
use mote_broker.Prelude.{
  ℕ, String, ◌≡◌, refl, ◌∙◌, sym, Bool, true, false, ◌=str=◌, if◌then◌else◌, Option, none, some,
  List, [], ◌∷◌, ◌++◌, map, All, All-append, append_assoc, Bool-cases, inl, inr, eq_iff, eq_refl,
  arith,
}
use mote_broker.Result.{Result, ok, >>=-eq-ok, ok_nil-seq}
use mote_broker.Dict.{Item, Dict, atom, dict, empty, entry, get}
use mote_broker.RecursiveDict.{many_card, everything_card}
use mote_broker.RecursiveDict.Shape.{IsTree, IsNode, get-IsEntry}
use mote_broker.Protocols.{Retained, Row, is_node_static}
use mote_broker.Protocols.Everything.{
  row, get_everything_as_rows, leaf_paths, get_everything-leaf_paths,
}
use mote_broker.Protocols.Applicable.{
  each_branch, all_static, rows_of_missing, at_branch, get_applicable_rows,
}

abbrev no_more : List String → Bool
no_more [] = true
no_more (f ∷ filter) = false

-- A topic with wildcards covers the topics of its length that match it node by node, and with a `#` at
-- its end the longer ones too.
abbrev pub covers : List String → List String → Bool
covers [] [] = true
covers [] (n ∷ topic) = false
covers (f ∷ filter) [] = if f =str= everything_card then no_more filter else false
covers (f ∷ filter) (n ∷ topic) =
    if f =str= everything_card
    then true
    else if (if f =str= many_card then true else n =str= f)
    then covers filter topic
    else false

not-static-many : is_node_static many_card ≡ false
unfolding is_node_static
not-static-many = refl

pub static-card :
    (n : String)
    → is_node_static n ≡ true
    → ((n =str= many_card) ≡ false) × ((n =str= everything_card) ≡ false)
unfolding is_node_static
static-card n h = ground arith

ok-All : (P : Row → Type 0) {xs rows : List Row} → ok xs ≡ ok rows → All P xs → All P rows
ok-All P {xs} {rows} e a = let e' : xs ≡ rows = cc in subst (All P) e' a

-- A topic without wildcards covers itself.
covers_self : (topic : List String) → all_static topic ≡ true → covers topic topic ≡ true
covers_self [] h = refl
covers_self (n ∷ topic) h = elim (Bool-cases (is_node_static n)) [
  | inl static ↦
      let cards = static-card n static in
      rw (cards.0, cards.1, eq_refl) (covers_self topic (rw static at h))
  | inr card ↦ cc (rw card at h)
]

module _ (payload : Retained) (qos : ℕ) where
  regroup :
      (base : List String) (node : String) (next : List String)
      → ok (row payload qos ((base ++ node ∷ []) ++ next) ∷ [])
        ≡ ok (row payload qos (base ++ node ∷ next) ∷ [])
  regroup base node next = rw append_assoc

  -- A message without wildcards gives one row, its own topic, whatever the tree retains.
  pub applicable-static :
      (node : String) (next base : List String) (d : Dict Retained)
      → all_static (node ∷ next) ≡ true
      → All IsNode (node ∷ next)
      → IsTree d
      → get_applicable_rows payload qos (node ∷ next) base false (dict d)
        ≡ ok (row payload qos (base ++ node ∷ next) ∷ [])
  unfolding get_applicable_rows
  applicable-static node [] base d h k t = ground (arith, static-card node)
  applicable-static node (m ∷ next) base d h k t = elim (Bool-cases (is_node_static node)) [
    | inl static ↦
        let cards = static-card node static in
        let rest : all_static (m ∷ next) ≡ true = rw static at h in
        rw (cards.0, cards.1)
          (go
            (λ s ts.
              applicable-static m next (base ++ node ∷ []) s rest k.1 ts
              ∙ regroup base node (m ∷ next))
            rest (get node d) refl)
    | inr card ↦ cc (rw card at h)
  ]
    where
      go :
          ((s : Dict Retained)
            → IsTree s
            → get_applicable_rows payload qos (m ∷ next) (base ++ node ∷ []) false (dict s)
              ≡ ok (row payload qos (base ++ node ∷ m ∷ next) ∷ []))
          → all_static (m ∷ next) ≡ true
          → (o : Option (Item Retained)) → get node d ≡ o
          → at_branch
              (get_applicable_rows payload qos (m ∷ next) (base ++ node ∷ []) false)
              (rows_of_missing payload qos false (m ∷ next) (base ++ node ∷ m ∷ next))
              o
            ≡ ok (row payload qos (base ++ node ∷ m ∷ next) ∷ [])
      go ih rest none e = rw rest
      go ih rest (some (atom a)) e = cc (k.0, get-IsEntry node (atom a) d t e)
      go ih rest (some (dict s)) e = ih s (get-IsEntry node (dict s) d t e).1

  -- The row is one of the message, for a topic below `base` that the filter covers.
  abbrev pub IsFor : List String → List String → Row → Type 0
  IsFor base filter r =
      (t : List String) × (r.topic ≡ base ++ t)
      × (covers filter t ≡ true)
      × (r.payload ≡ payload)
      × (r.qos ≡ qos)

  each_branch-All :
      (P : Row → Type 0) (f : String → Item Retained → Result (List Row)) (d : Dict Retained)
      (rows : List Row)
      → IsTree d
      → ((k : String) (s : Dict Retained) (rs : List Row)
          → IsNode k
          → IsTree s
          → f k (dict s) ≡ ok rs
          → All P rs)
      → each_branch f d ≡ ok rows
      → All P rows
  unfolding each_branch
  each_branch-All P f empty rows t h e = ok-All P e tt
  each_branch-All P f (entry k (atom a) d) rows t h e =
      each_branch-All P f d rows t.1 h (sym (ok_nil-seq (each_branch f d)) ∙ (rw t.0 at e))
  each_branch-All P f (entry k (dict s) d) rows t h e =
      let (here, e1, e2) = >>=-eq-ok (f k (dict s)) _ (rw t.0.0 at e) in
      let (more, e3, e4) = >>=-eq-ok (each_branch f d) _ e2 in
      let both : All P (here ++ more) =
        All-append P here more (h k s here t.0.0 t.0.1 e1) (each_branch-All P f d more t.1 h e3) in
      ok-All P e4 both

  IsFor-under :
      (base filter : List String) (f k : String)
      → (f =str= everything_card) ≡ false
      → (if f =str= many_card then true else k =str= f) ≡ true
      → (rows : List Row) → All (IsFor (base ++ k ∷ []) filter) rows
      → All (IsFor base (f ∷ filter)) rows
  IsFor-under base filter f k he hk [] a = tt
  IsFor-under base filter f k he hk (r ∷ rows) a =
      let (t, e1, e2, e3, e4) = a.0 in
      (
        (k ∷ t, e1 ∙ append_assoc base (k ∷ []) t, rw (he, hk) e2, e3, e4),
        IsFor-under base filter f k he hk rows a.1,
      )

  everything-All :
      (base : List String) (d : Dict Retained) (rows : List Row)
      → IsTree d
      → get_everything_as_rows payload qos base true d ≡ ok rows
      → All (IsFor base (everything_card ∷ [])) rows
  everything-All base d rows t e =
      ok-All (IsFor base (everything_card ∷ []))
        (sym (get_everything-leaf_paths payload qos base d t) ∙ e) (all_rows (leaf_paths true d))
    where
      all_rows :
          (paths : List (List String))
          → All (IsFor base (everything_card ∷ [])) (map (λ p. row payload qos (base ++ p)) paths)
      all_rows [] = tt
      all_rows ([] ∷ paths) = (([], refl, refl, refl, refl), all_rows paths)
      all_rows ((n ∷ p) ∷ paths) = ((n ∷ p, refl, refl, refl, refl), all_rows paths)

  missing-All :
      (f : String) (filter base : List String) (found : Bool) (rows : List Row)
      → (f =str= everything_card) ≡ false
      → (f =str= many_card) ≡ false
      → rows_of_missing payload qos found filter (base ++ f ∷ filter) ≡ ok rows
      → All (IsFor base (f ∷ filter)) rows
  missing-All f filter base true rows he hm e = ok-All (IsFor base (f ∷ filter)) e tt
  missing-All f filter base false rows he hm e = elim (Bool-cases (all_static filter)) [
    | inl static ↦
        ok-All (IsFor base (f ∷ filter)) (rw static at e)
          ((f ∷ filter, refl, rw (he, hm, eq_refl) (covers_self filter static), refl, refl), tt)
    | inr card ↦ ok-All (IsFor base (f ∷ filter)) (rw card at e) tt
  ]

  branch-All :
      (f : String) (filter base : List String) (found : Bool) (d : Dict Retained) (rows : List Row)
      (go : Item Retained → Result (List Row))
      → IsNode f
      → IsTree d
      → (f =str= everything_card) ≡ false
      → (f =str= many_card) ≡ false
      → ((s : Dict Retained) (rs : List Row)
          → IsTree s
          → go (dict s) ≡ ok rs
          → All (IsFor base (f ∷ filter)) rs)
      → at_branch go (rows_of_missing payload qos found filter (base ++ f ∷ filter)) (get f d)
        ≡ ok rows
      → All (IsFor base (f ∷ filter)) rows
  unfolding at_branch
  branch-All f filter base found d rows go n t he hm ih = by_get (get f d) refl
    where
      by_get :
          (o : Option (Item Retained))
          → get f d ≡ o
          → at_branch go (rows_of_missing payload qos found filter (base ++ f ∷ filter)) o ≡ ok rows
          → All (IsFor base (f ∷ filter)) rows
      by_get none e r = missing-All f filter base found rows he hm r
      by_get (some (atom a)) e r = cc (n, get-IsEntry f (atom a) d t e)
      by_get (some (dict s)) e r = ih s rows (get-IsEntry f (dict s) d t e).1 r

  -- Every row is one for a topic that the message's topic covers, with the message's data.
  pub applicable-covers :
      (filter base : List String) (found : Bool) (d : Dict Retained) (rows : List Row)
      → All IsNode filter
      → IsTree d
      → get_applicable_rows payload qos filter base found (dict d) ≡ ok rows
      → All (IsFor base filter) rows
  unfolding get_applicable_rows
  applicable-covers [] base found d rows k t e = cc
  applicable-covers (f ∷ []) base found d rows k t e = elim (Bool-cases (f =str= everything_card)) [
    | inl every ↦
        rw ((eq_iff f everything_card).0 every) (everything-All base d rows t (rw every at e))
    | inr other ↦ elim (Bool-cases (f =str= many_card)) [
      | inl many ↦
          each_branch-All (IsFor base (f ∷ [])) _ d rows t
            (λ n s rs hn ts es.
              ok-All (IsFor base (f ∷ [])) es ((n ∷ [], refl, rw (other, many), refl, refl), tt))
            (rw (other, many) at e)
      | inr node ↦
          ok-All (IsFor base (f ∷ [])) (rw (other, node) at e)
            ((f ∷ [], refl, rw (other, node, eq_refl), refl, refl), tt)
    ]
  ]
  applicable-covers (f ∷ g ∷ filter) base found d rows k t e =
      elim (Bool-cases (f =str= everything_card)) [
        | inl every ↦ cc (rw every at e)
        | inr other ↦ elim (Bool-cases (f =str= many_card)) [
          | inl many ↦
              each_branch-All (IsFor base (f ∷ g ∷ filter)) _ d rows t
                (λ n s rs hn ts es.
                  IsFor-under base (g ∷ filter) f n other (rw many) rs
                    (applicable-covers (g ∷ filter) (base ++ n ∷ []) true s rs k.1 ts es))
                (rw (other, many) at e)
          | inr node ↦
              branch-All f (g ∷ filter) base found d rows
                (get_applicable_rows payload qos (g ∷ filter) (base ++ f ∷ []) found) k.0 t other
                node
                (λ s rs ts es.
                  IsFor-under base (g ∷ filter) f f other (rw (node, eq_refl)) rs
                    (applicable-covers (g ∷ filter) (base ++ f ∷ []) found s rs k.1 ts es))
                (rw (other, node) at e)
        ]
      ]
