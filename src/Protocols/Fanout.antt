-- ===== src/Protocols/Fanout.antt =====
-- The walk over the tree of subscriptions gives each filter the rows that match it.
mod Rows
use Rows.{
  hits_from, hits_from-nil, hits_from-rows_for, hits_from-no_rows, rows_for-IsRow, keep-leaf_key,
  collect-append, collect-map, collect-none, collect_congr,
}
use mathlib.Core.Path.{ap₂}
use mote_broker.Prelude.{
  ℕ, zero, suc, String, Bool, true, false, not, ◌&&◌, ◌||◌, ◌=str=◌, ◌==◌, if◌then◌else◌, List, [],
  ◌∷◌, ◌++◌, map, keep, exists, All, ◌≡◌, refl, ap, ◌∙◌, sym, Option, none, some, length, get_elem?,
  append_assoc, append-nil, arith, Bool-cases, inl, inr, eq_iff,
}
use mote_broker.Result.{Result, ok, err, ◌>>=◌, seq, seq-ok_nil}
use mote_broker.Dict.{Item, Dict, atom, dict, empty, entry}
use mote_broker.RecursiveDict.{leaf_key, many_card}
use mote_broker.RecursiveDict.Shape.{IsNode, IsTree, IsEntry}
use mote_broker.Protocols.{Bytes, Retained, Row}
use mote_broker.Protocols.Messages.{
  Message, is_nil, ends_at, passes, is_some_node, leaf_message, rows_for, create_for, create_branch,
  create_messages_for_subscriptions,
}
use mote_broker.Protocols.Matching.{
  matches, has_many, filters, filters_below, collect, IsRow, answer, answers,
}

abbrev step_into : List String → String → List String
step_into base k = base ++ k ∷ []

abbrev wild_below : String → Bool → Bool
wild_below k wild = if k =str= many_card then true else wild

and_false : (b : Bool) → b && false ≡ false
and_false true = refl
and_false false = refl

or_false : (b : Bool) → (if b then true else false) ≡ b
or_false true = refl
or_false false = refl

module _ {A : Type 0} (json : Dict Retained → Result Bytes) where
  -- the answer to a filter that goes on from `base`, from the rows that came that far
  abbrev answer_from :
      List Row → List String → ℕ → Bool → (List String × Item A) → Result (List (Message A))
  answer_from rows base d wild s =
      let hits = hits_from d s.0 rows in
      if is_nil hits
      then ok []
      else leaf_message json s.1 hits (base ++ s.0) (if wild then true else has_many s.0)

  answer_from-step :
      (rows : List Row) (base : List String) (d : ℕ) (wild : Bool) (k : String)
      (s : List String × Item A)
      → answer_from rows base d wild (k ∷ s.0, s.1)
        ≡ answer_from (rows_for k d rows) (step_into base k) (suc d) (wild_below k wild) s
  answer_from-step rows base d wild k s =
      rw (hits_from-rows_for d k s.0 rows, ← append_assoc base (k ∷ []) s.0) (ground arith)

  -- The entry of a node, given that its branch answers its filters.
  node_entry :
      (k : String) (it : Item A) (rows : List Row) (base : List String) (d : ℕ) (wild : Bool)
      → let new_rows = rows_for k d rows in
        create_branch json it new_rows (step_into base k) (suc d) (wild_below k wild)
          ≡ collect
              (answer_from new_rows (step_into base k) (suc d) (wild_below k wild))
              (filters_below it)
        → (if is_nil new_rows
            then ok []
            else create_branch json it new_rows (step_into base k) (suc d) (wild_below k wild))
          ≡ collect (answer_from rows base d wild) (map (λ s. (k ∷ s.0, s.1)) (filters_below it))
  node_entry k it rows base d wild ih = elim (Bool-cases (is_nil (rows_for k d rows))) [
    | inl dry ↦ rw dry (
        sym (
          collect-none _ (filters_below it)
            (λ (s : List String × Item A). rw (hits_from-no_rows (suc d) s.0 _ dry)))
        ∙ sym moved)
    | inr wet ↦ rw wet (ih ∙ sym moved)
  ]
    where
      moved :
          collect (answer_from rows base d wild) (map (λ s. (k ∷ s.0, s.1)) (filters_below it))
          ≡ collect
              (answer_from (rows_for k d rows) (step_into base k) (suc d) (wild_below k wild))
              (filters_below it)
      moved =
          collect-map (answer_from rows base d wild) (λ s. (k ∷ s.0, s.1)) (filters_below it)
          ∙ collect_congr _ _ (filters_below it) (answer_from-step rows base d wild k)

  -- The entry of the leaf key.
  leaf_entry :
      (it : Item A) (rows : List Row) (base : List String) (d : ℕ) (wild : Bool)
      → All IsRow rows
      → (if not (is_nil (keep (ends_at d) rows)) && true
          then leaf_message json it (keep (ends_at d) rows) base wild
          else if is_nil (rows_for leaf_key d rows)
          then ok []
          else create_branch json it
              (rows_for leaf_key d rows)
              (step_into base leaf_key)
              (suc d)
              (wild_below leaf_key wild))
        ≡ collect (answer_from rows base d wild) (([], it) ∷ [])
  unfolding rows_for
  leaf_entry it rows base d wild h =
      rw (hits_from-nil d rows, keep-leaf_key d rows h, append-nil, seq-ok_nil, or_false wild)
        (ground arith)

  mutual
    unfolding create_for

    create_for-answers :
        (d : Dict A) (rows : List Row) (base : List String) (depth : ℕ) (wild : Bool)
        → IsTree d
        → All IsRow rows
        → create_for json d rows base depth wild
          ≡ collect (answer_from rows base depth wild) (filters d)
    create_for-answers empty rows base depth wild t h = refl
    create_for-answers (entry k it d) rows base depth wild t h =
        elim (Bool-cases (k =str= leaf_key)) [
          | inl leaf ↦
              rw (leaf, (eq_iff k leaf_key).0 leaf)
                (ap₂ seq (leaf_entry it rows base depth wild h)
                    (create_for-answers d rows base depth wild t.1 h)
                  ∙ sym (
                      collect-append (answer_from rows base depth wild) (([], it) ∷ [])
                        (filters d)))
          | inr node ↦
              rw (node, and_false)
                (ap₂ seq
                    (node_entry k it rows base depth wild
                      (create_branch-answers it k _ _ _ _ node t.0 (rows_for-IsRow k depth rows h)))
                    (create_for-answers d rows base depth wild t.1 h)
                  ∙ sym (collect-append (answer_from rows base depth wild) _ (filters d)))
        ]

    create_branch-answers :
        (it : Item A) (k : String) (rows : List Row) (base : List String) (depth : ℕ) (wild : Bool)
        → IsNode k
        → IsEntry k it
        → All IsRow rows
        → create_branch json it rows base depth wild
          ≡ collect (answer_from rows base depth wild) (filters_below it)
    create_branch-answers (atom a) k rows base depth wild n e h = cc (n, e)
    create_branch-answers (dict d) k rows base depth wild n e h =
        create_for-answers d rows base depth wild e.1 h

  -- With rows of proper topics and a proper tree of subscriptions, the messages are one for each
  -- subscribed filter that some row matches, made of the rows that match it.
  pub create_messages-answers :
      (subscriptions : Dict A) (rows : List Row)
      → IsTree subscriptions
      → All IsRow rows
      → create_messages_for_subscriptions json subscriptions rows ≡ answers json subscriptions rows
  unfolding create_messages_for_subscriptions
  create_messages-answers subscriptions rows t h =
      create_for-answers subscriptions rows [] 0 false t h
