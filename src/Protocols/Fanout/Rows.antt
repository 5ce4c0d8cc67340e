-- ===== src/Protocols/Fanout/Rows.antt =====
-- The rows that a walk down a tree of filters has kept, and results that are collected.
use mote_broker.Prelude.{
  ℕ, zero, suc, String, Bool, true, false, ◌=str=◌, ◌==◌, if◌then◌else◌, List, [], ◌∷◌, ◌++◌, map,
  keep, All, ◌≡◌, refl, ap, ◌∙◌, sym, length, get_elem?, arith, Bool-cases, inl, inr, eq_iff,
}
use mote_broker.Result.{Result, ok, seq, ok_nil-seq, seq_assoc}
use mote_broker.RecursiveDict.{leaf_key, many_card}
use mote_broker.RecursiveDict.Shape.{IsNode}
use mote_broker.Protocols.{Row}
use mote_broker.Protocols.Messages.{is_nil, ends_at, passes, is_some_node, rows_for}
use mote_broker.Protocols.Matching.{matches, collect, IsRow}

-- What is left of a topic from a depth on matches the filter.
abbrev pub match_from : ℕ → List String → List String → Bool
match_from zero filter topic = matches filter topic
match_from (suc d) filter [] = false
match_from (suc d) filter (n ∷ topic) = match_from d filter topic

pub match_from-nil : (d : ℕ) (topic : List String) → match_from d [] topic ≡ (d == length topic)
match_from-nil zero [] = refl
match_from-nil zero (n ∷ topic) = ground arith
match_from-nil (suc d) [] = ground arith
match_from-nil (suc d) (n ∷ topic) = ground (arith, match_from-nil d topic)

pub match_from-many :
    (d : ℕ) (filter topic : List String)
    → match_from d (many_card ∷ filter) topic ≡ match_from (suc d) filter topic
match_from-many zero filter [] = refl
match_from-many zero filter (n ∷ topic) = refl
match_from-many (suc d) filter [] = refl
match_from-many (suc d) filter (n ∷ topic) = match_from-many d filter topic

pub match_from-node :
    (d : ℕ) (k : String) (filter topic : List String)
    → (k =str= many_card) ≡ false
    → match_from d (k ∷ filter) topic
      ≡ (if is_some_node k (get_elem? topic d) then match_from (suc d) filter topic else false)
match_from-node zero k filter [] h = refl
match_from-node zero k filter (n ∷ topic) h = rw h
match_from-node (suc d) k filter [] h = refl
match_from-node (suc d) k filter (n ∷ topic) h = match_from-node d k filter topic h

-- the rows that match from a depth on
abbrev pub hits_from : ℕ → List String → List Row → List Row
hits_from d filter = keep (λ (r : Row). match_from d filter r.topic)

pub hits_from-nil : (d : ℕ) (rows : List Row) → hits_from d [] rows ≡ keep (ends_at d) rows
hits_from-nil d [] = refl
hits_from-nil d (r ∷ rows) = rw match_from-nil (ground (arith, hits_from-nil d rows))

pub hits_from-node :
    (d : ℕ) (k : String) (filter : List String) (rows : List Row)
    → (k =str= many_card) ≡ false
    → hits_from d (k ∷ filter) rows ≡ hits_from (suc d) filter (keep (passes d k) rows)
hits_from-node d k filter [] h = refl
hits_from-node d k filter (r ∷ rows) h =
    rw (match_from-node d k filter r.topic h) (ground (arith, hits_from-node d k filter rows h))

pub hits_from-many :
    (d : ℕ) (filter : List String) (rows : List Row)
    → hits_from d (many_card ∷ filter) rows ≡ hits_from (suc d) filter rows
hits_from-many d filter [] = refl
hits_from-many d filter (r ∷ rows) =
    rw (match_from-many d filter r.topic) (ground (arith, hits_from-many d filter rows))

-- The rows that are handed to a branch are those that can still match.
pub hits_from-rows_for :
    (d : ℕ) (k : String) (filter : List String) (rows : List Row)
    → hits_from d (k ∷ filter) rows ≡ hits_from (suc d) filter (rows_for k d rows)
unfolding rows_for
hits_from-rows_for d k filter rows = elim (Bool-cases (k =str= many_card)) [
  | inl many ↦ rw (many, (eq_iff k many_card).0 many) (hits_from-many d filter rows)
  | inr node ↦ rw node (hits_from-node d k filter rows node)
]

pub keep-IsRow : (p : Row → Bool) (rows : List Row) → All IsRow rows → All IsRow (keep p rows)
keep-IsRow p [] h = tt
keep-IsRow p (r ∷ rows) h = elim (Bool-cases (p r)) [
  | inl e ↦ rw e (h.0, keep-IsRow p rows h.1)
  | inr e ↦ rw e (keep-IsRow p rows h.1)
]

pub rows_for-IsRow :
    (k : String) (d : ℕ) (rows : List Row) → All IsRow rows → All IsRow (rows_for k d rows)
unfolding rows_for
rows_for-IsRow k d rows h = elim (Bool-cases (k =str= many_card)) [
  | inl e ↦ rw e h
  | inr e ↦ rw e (keep-IsRow (passes d k) rows h)
]

-- no node of a topic is the leaf key
pub not-passes-leaf_key :
    (d : ℕ) (topic : List String)
    → All IsNode topic
    → is_some_node leaf_key (get_elem? topic d) ≡ false
not-passes-leaf_key d [] h = refl
not-passes-leaf_key zero (n ∷ topic) h = h.0
not-passes-leaf_key (suc d) (n ∷ topic) h = not-passes-leaf_key d topic h.1

pub keep-leaf_key : (d : ℕ) (rows : List Row) → All IsRow rows → keep (passes d leaf_key) rows ≡ []
keep-leaf_key d [] h = refl
keep-leaf_key d (r ∷ rows) h = rw (not-passes-leaf_key d r.topic h.0) (keep-leaf_key d rows h.1)

pub collect-append {ℓ κ} :
    {A : Type ℓ} {B : Type κ} (f : A → Result (List B)) (xs ys : List A)
    → collect f (xs ++ ys) ≡ seq (collect f xs) (collect f ys)
collect-append f [] ys = sym (ok_nil-seq (collect f ys))
collect-append f (x ∷ xs) ys =
    ap (seq (f x)) (collect-append f xs ys) ∙ sym (seq_assoc (f x) (collect f xs) (collect f ys))

pub collect-map {ℓ κ μ} :
    {A : Type ℓ} {B : Type κ} {C : Type μ} (f : B → Result (List C)) (g : A → B) (xs : List A)
    → collect f (map g xs) ≡ collect (λ x. f (g x)) xs
collect-map f g [] = refl
collect-map f g (x ∷ xs) = rw (collect-map f g xs)

pub collect-none {ℓ κ} :
    {A : Type ℓ} {B : Type κ} (f : A → Result (List B)) (xs : List A)
    → ((x : A) → f x ≡ ok [])
    → collect f xs ≡ ok []
collect-none f [] h = refl
collect-none f (x ∷ xs) h = rw (h x, collect-none f xs h)

pub collect_congr {ℓ κ} :
    {A : Type ℓ} {B : Type κ} (f g : A → Result (List B)) (xs : List A)
    → ((x : A) → f x ≡ g x)
    → collect f xs ≡ collect g xs
collect_congr f g [] h = refl
collect_congr f g (x ∷ xs) h = rw (h x, collect_congr f g xs h)

pub hits_from-no_rows :
    (d : ℕ) (filter : List String) (rows : List Row)
    → is_nil rows ≡ true
    → is_nil (hits_from d filter rows) ≡ true
hits_from-no_rows d filter [] h = refl
hits_from-no_rows d filter (r ∷ rows) h = cc
