-- ===== src/Broker/Subscriptions/Refinement.antt =====
-- The tree of subscriptions implements a map from pairs of a filter and a client to a quality of
-- service.
use mathlib.Core.Option.{get_or}
use mote_broker.Prelude.{
  ℕ, String, ◌≡◌, refl, ap, ◌∙◌, sym, true, false, ◌=str=◌, if◌then◌else◌, Option, none, some, List,
  [], ◌∷◌, All, path_eq, path_eq_iff, exists, Bool-cases, inl, inr, arith, ◌≢◌,
}
use mote_broker.Result.{ok}
use mote_broker.Dict.{Item, atom, empty, get, set, pop, is_empty}
use mote_broker.Dict.Laws.{get-set, get-pop, get-empty, get-is_empty, is_empty-set, pop_absent}
use mote_broker.RecursiveDict.{assign, find}
use mote_broker.RecursiveDict.Shape.{IsTree, IsNode}
use mote_broker.RecursiveDict.Find.{
  find-assign, find-assign_self, assign-find_self, IsTree-assign, assign-assign, value_at,
  lshift-value,
}
use mote_broker.RecursiveDict.Prune.{
  IsPruned, IsPruned-assign, IsPruned-prune, IsTree-prune, prune, find-prune, prune-assign,
  cascade_delete-prune,
}
use mote_broker.Broker.Subscriptions.{
  then_rest, Clients, Subscriptions, subscribe, unsubscribe_one, unsubscribe,
}

unfoldable pub quality_in : String → Option Clients → Option (Item ℕ)
quality_in id none = none
quality_in id (some client_set) = get id client_set

-- The abstract view: the quality of service of a client's subscription to a filter.
unfoldable pub quality : Subscriptions → List String → String → Option (Item ℕ)
unfolding quality_in
quality subs nodes id = quality_in id (find nodes subs)

-- What the broker keeps true of its subscriptions: a proper tree, with no empty branch, and no filter
-- without clients.
pub record IsValid (subs : Subscriptions) : Type 0 where
  pub proper : IsTree subs
  pub pruned : IsPruned subs
  pub inhabited : (q : List String) (cs : Clients) → find q subs ≡ some cs → is_empty cs ≡ false

-- The map with one pair written.
abbrev pub updated :
    (List String → String → Option (Item ℕ))
    → List String
    → String
    → Option (Item ℕ)
    → List String
    → String
    → Option (Item ℕ)
updated view nodes id value q j =
    if path_eq nodes q then if id =str= j then value else view q j else view q j

module _ (id : String) (n : String) (p : List String) (subs : Subscriptions) where
  -- the clients of the filter
  abbrev members : Clients
  members = value_at empty (n ∷ p) subs

  subscribe-assign :
      (qos : ℕ)
      → All IsNode (n ∷ p)
      → IsTree subs
      → subscribe id (n ∷ p) qos subs ≡ (ok true, assign (n ∷ p) (set id (atom qos) members) subs)
  unfolding subscribe
  subscribe-assign qos h t = rw (lshift-value empty n p subs h t) (rw assign-assign)

  -- The tree after one round of `unsubscribe`.
  abbrev without : Subscriptions
  without =
      if is_empty (pop id members)
      then prune (n ∷ p) (assign (n ∷ p) (pop id members) subs)
      else assign (n ∷ p) (pop id members) subs

  unsubscribe_one-without :
      All IsNode (n ∷ p) → IsTree subs → unsubscribe_one id (n ∷ p) subs ≡ (ok tt, without)
  unfolding unsubscribe_one
  unsubscribe_one-without h t =
      rw (lshift-value empty n p subs h t, assign-assign)
        (elim (Bool-cases (is_empty (pop id members))) [
          | inl last ↦ rw last (
              cascade_delete-prune empty n p _ h (IsTree-assign (n ∷ p) _ subs h t)
                (λ e. cc (find-assign_self (n ∷ p) (pop id members) subs h t)))
          | inr others ↦ rw others
        ])

  quality-members : (j : String) → quality_in j (find (n ∷ p) subs) ≡ get j members
  unfolding quality_in
  quality-members j = by_find (find (n ∷ p) subs)
    where
      by_find : (o : Option Clients) → quality_in j o ≡ get j (get_or o empty)
      by_find none = sym (get-empty j)
      by_find (some cs) = refl

  module _ (h : All IsNode (n ∷ p)) (t : IsTree subs) where
    quality-assign :
        (cs : Clients) (q : List String) (j : String)
        → quality (assign (n ∷ p) cs subs) q j
          ≡ (if path_eq (n ∷ p) q then get j cs else quality subs q j)
    unfolding quality
    quality-assign cs q j = rw (find-assign (n ∷ p) q cs subs h t) (ground arith)

    quality-without :
        (q : List String) (j : String)
        → quality without q j
          ≡ (if path_eq (n ∷ p) q then get j (pop id members) else quality subs q j)
    unfolding quality
    quality-without q j = elim (Bool-cases (is_empty (pop id members))) [
      | inl last ↦
          rw
            (
              last,
              find-prune (n ∷ p) q _ h (IsTree-assign (n ∷ p) _ subs h t),
              find-assign (n ∷ p) q _ subs h t,
            )
            (elim (Bool-cases (path_eq (n ∷ p) q)) [
              | inl same ↦ rw same (sym (get-is_empty j (pop id members) last))
              | inr other ↦ rw other
            ])
      | inr others ↦ rw others (quality-assign (pop id members) q j)
    ]

    -- Reading the view at the filter itself.
    at_filter :
        (q : List String) (j : String) (value : Option (Item ℕ)) (cs : Clients)
        → get j cs ≡ (if id =str= j then value else get j members)
        → (if path_eq (n ∷ p) q then get j cs else quality subs q j)
          ≡ updated (quality subs) (n ∷ p) id value q j
    unfolding quality
    at_filter q j value cs e = elim (Bool-cases (path_eq (n ∷ p) q)) [
      | inl same ↦ rw same (rw e (rw (← (path_eq_iff (n ∷ p) q).0 same, quality-members j)))
      | inr other ↦ rw other
    ]

module _ (id : String) (n : String) (p : List String) (subs : Subscriptions)
    (h : All IsNode (n ∷ p)) (v : IsValid subs) where
  -- `subscribe` succeeds, writes one pair of the map and changes no other.
  pub subscribe-updates :
      (qos : ℕ)
      → ((subscribe id (n ∷ p) qos subs).0 ≡ ok true)
        × ((q : List String) (j : String)
            → quality (subscribe id (n ∷ p) qos subs).1 q j
              ≡ updated (quality subs) (n ∷ p) id (some (atom qos)) q j)
  subscribe-updates qos = rw (subscribe-assign id n p subs qos h v.proper) (
    refl,
    λ q j.
        quality-assign id n p subs h v.proper _ q j
        ∙ at_filter id n p subs h v.proper q j (some (atom qos)) _ (get-set j id (atom qos) _),
  )

  -- One round of `unsubscribe` succeeds, erases one pair of the map and changes no other.
  pub unsubscribe_one-erases :
      ((unsubscribe_one id (n ∷ p) subs).0 ≡ ok tt)
      × ((q : List String) (j : String)
          → quality (unsubscribe_one id (n ∷ p) subs).1 q j
            ≡ updated (quality subs) (n ∷ p) id none q j)
  unsubscribe_one-erases = rw (unsubscribe_one-without id n p subs h v.proper) (
    refl,
    λ q j.
        quality-without id n p subs h v.proper q j
        ∙ at_filter id n p subs h v.proper q j none _ (get-pop j id _),
  )

  inhabited-assign : (cs : Clients) → is_empty cs ≡ false → IsValid (assign (n ∷ p) cs subs)
  inhabited-assign cs e = record {
    proper = IsTree-assign (n ∷ p) cs subs h v.proper;
    pruned = IsPruned-assign (n ∷ p) cs subs v.pruned;
    inhabited =
        λ q cs' f. ground (arith, find-assign (n ∷ p) q cs subs h v.proper, e, v.inhabited q cs');
  }

  -- After a subscription to a proper filter the subscriptions are valid, as they were before: a proper tree,
  -- without empty branches and without filters that have no client.
  pub subscribe-IsValid : (qos : ℕ) → IsValid (subscribe id (n ∷ p) qos subs).1
  subscribe-IsValid qos =
      rw (subscribe-assign id n p subs qos h v.proper)
        (inhabited-assign _ (is_empty-set id (atom qos) _))

  pub unsubscribe_one-IsValid : IsValid (unsubscribe_one id (n ∷ p) subs).1
  unsubscribe_one-IsValid =
      rw (unsubscribe_one-without id n p subs h v.proper)
        (elim (Bool-cases (is_empty (pop id (members id n p subs)))) [
          | inl last ↦
              let t' = IsTree-assign (n ∷ p) (pop id (members id n p subs)) subs h v.proper in
              rw last (record {
                proper = IsTree-prune (n ∷ p) _ h t';
                pruned = IsPruned-prune (n ∷ p) _ (IsPruned-assign (n ∷ p) _ subs v.pruned);
                inhabited = λ q cs f. ground (
                  arith,
                  find-prune (n ∷ p) q (assign (n ∷ p) (pop id (members id n p subs)) subs) h t',
                  find-assign (n ∷ p) q (pop id (members id n p subs)) subs h v.proper,
                  v.inhabited q cs,
                );
              })
          | inr others ↦ rw others (inhabited-assign _ others)
        ])

  without-absent : quality subs (n ∷ p) id ≡ none → without id n p subs ≡ subs
  unfolding quality
  without-absent e = by_find (find (n ∷ p) subs) refl e
    where
      by_find :
          (o : Option Clients)
          → find (n ∷ p) subs ≡ o
          → quality_in id o ≡ none
          → without id n p subs ≡ subs
      by_find none f e =
          rw (f, pop_absent id empty (get-empty id))
            (prune-assign (n ∷ p) empty subs h v.proper v.pruned f)
      by_find (some cs) f e =
          rw (f, pop_absent id cs e, v.inhabited (n ∷ p) cs f)
            (assign-find_self (n ∷ p) cs subs h v.proper f)

  -- A client that has no subscription to the filter unsubscribes from it without a trace.
  unsubscribe_one-absent :
      quality subs (n ∷ p) id ≡ none → unsubscribe_one id (n ∷ p) subs ≡ (ok tt, subs)
  unsubscribe_one-absent e =
      rw (unsubscribe_one-without id n p subs h v.proper) (ap (λ d. (ok tt, d)) (without-absent e))

-- Paths that a topic can have.
abbrev pub IsPath : List String → Type 0
IsPath nodes = All IsNode nodes × (nodes ≢ [])

unsubscribe-step :
    (id : String) (nodes : List String) (topics : List (List String)) (subs : Subscriptions)
    → (unsubscribe_one id nodes subs).0 ≡ ok tt
    → unsubscribe id (nodes ∷ topics) subs ≡ unsubscribe id topics (unsubscribe_one id nodes subs).1
unfolding unsubscribe
unsubscribe-step id nodes topics subs e =
    ap (λ r. then_rest (unsubscribe id topics) (r, (unsubscribe_one id nodes subs).1)) e

-- `unsubscribe` over several topics succeeds, keeps the subscriptions valid, and erases nothing but
-- pairs of the client with one of these topics.
pub unsubscribe-erases :
    (id : String) (topics : List (List String)) (subs : Subscriptions)
    → All IsPath topics
    → IsValid subs
    → ((unsubscribe id topics subs).0 ≡ ok true)
      × IsValid (unsubscribe id topics subs).1
      × ((q : List String) (j : String)
          → quality (unsubscribe id topics subs).1 q j ≡ (
              if exists (λ t. path_eq t q) topics
              then if id =str= j then none else quality subs q j
              else quality subs q j))
unsubscribe-erases id [] subs h v = unfold unsubscribe in (refl, v, λ q j. refl)
unsubscribe-erases id ([] ∷ topics) subs h v = absurd (h.0.1 refl)
unsubscribe-erases id ((n ∷ p) ∷ topics) subs h v =
    let (done, erased) = unsubscribe_one-erases id n p subs h.0.0 v in
    let v' = unsubscribe_one-IsValid id n p subs h.0.0 v in
    let (rest, v'', erased') =
      unsubscribe-erases id topics (unsubscribe_one id (n ∷ p) subs).1 h.1 v' in
    rw (unsubscribe-step id (n ∷ p) topics subs done)
      (rest, v'', λ q j. erased' q j ∙ ground (arith, erased q j))
