-- ===== src/Protocols/Flatten/Graft.antt =====
-- The rows of a message that is grafted at a last `+`, by protocols/flatten_message.py: a row for each key
-- of the data, and with the flag `+` a row that empties each other leaf at these nodes.
use mote_broker.Prelude.{
  ℕ, String, ◌≡◌, refl, ap, ◌∙◌, true, false, if◌then◌else◌, Bool-cases, inl, inr, Option, none,
  some, List, [], ◌∷◌, ◌++◌, append-nil, append_assoc, All,
}
use mote_broker.Result.{Result, ok}
use mote_broker.Dict.{Item, Dict, atom, dict, empty, entry, get}
use mote_broker.RecursiveDict.{child, dict_of}
use mote_broker.RecursiveDict.Shape.{IsTree, IsNode, get-IsEntry, IsTree-child}
use mote_broker.Protocols.{Bytes, Retained, Row, is_node_static}
use mote_broker.Protocols.Applicable.{all_static}
use mote_broker.Protocols.Applicable.Sound.{static-card}
use mote_broker.Protocols.Flatten.{
  Scalar, text, other, each_value, has_leaf, is_missing, branch_or_empty, with_items, encoded_row,
  emptied, leaves_to_empty, flatten_message_into_rows,
}

-- An object of texts, under keys that are nodes.
abbrev pub AreTexts : Dict Scalar → Type 0
AreTexts empty = Unit
AreTexts (entry k (atom (text s)) d) = IsNode k × AreTexts d
AreTexts (entry k it d) = ⊥

-- The tree behind some nodes.
abbrev pub descend : List String → Dict Retained → Dict Retained
descend [] d = d
descend (n ∷ nodes) d = descend nodes (child n d)

pub IsTree-descend : (nodes : List String) (d : Dict Retained) → IsTree d → IsTree (descend nodes d)
IsTree-descend [] d t = t
IsTree-descend (n ∷ nodes) d t = IsTree-descend nodes (child n d) (IsTree-child n d t)

module _ (encode : String → Bytes) (qos : ℕ) where
  -- A row for each entry of an object of texts.
  abbrev pub given_rows : List String → Dict Scalar → List Row
  given_rows base empty = []
  given_rows base (entry k (atom (text s)) d) =
      record { topic = base ++ k ∷ []; payload = some (encode s); qos = qos } ∷ given_rows base d
  given_rows base (entry k it d) = given_rows base d

  -- A row for each leaf that the object does not name.
  abbrev pub emptied_rows : List String → Dict Scalar → Dict Retained → List Row
  emptied_rows base given empty = []
  emptied_rows base given (entry k (atom a) d) = emptied_rows base given d
  emptied_rows base given (entry k (dict s) d) =
      (if has_leaf s
        then if is_missing (get k given) then emptied encode qos (base ++ k ∷ []) ∷ [] else []
        else [])
      ++ emptied_rows base given d

  each_value-given_rows :
      (base : List String) (given : Dict Scalar)
      → AreTexts given
      → each_value (λ key val. encoded_row encode qos (base ++ key ∷ []) val) given
        ≡ ok (given_rows base given)
  unfolding each_value encoded_row
  each_value-given_rows base empty h = refl
  each_value-given_rows base (entry k (atom (text s)) d) h = rw (each_value-given_rows base d h.1)
  each_value-given_rows base (entry k (atom other) d) h = absurd h
  each_value-given_rows base (entry k (dict s) d) h = absurd h

  leaves_to_empty-emptied_rows :
      (base : List String) (given : Dict Scalar) (d : Dict Retained)
      → IsTree d
      → leaves_to_empty encode qos base given d ≡ ok (emptied_rows base given d)
  unfolding leaves_to_empty
  leaves_to_empty-emptied_rows base given empty t = refl
  leaves_to_empty-emptied_rows base given (entry k (atom a) d) t =
      rw (t.0, leaves_to_empty-emptied_rows base given d t.1)
  leaves_to_empty-emptied_rows base given (entry k (dict s) d) t =
      rw (t.0.0, leaves_to_empty-emptied_rows base given d t.1)

  branch-child :
      (n : String) (d : Dict Retained)
      → IsNode n
      → IsTree d
      → branch_or_empty n (dict d) ≡ ok (dict (child n d))
  unfolding branch_or_empty child dict_of
  branch-child n d h t = by_get (get n d) refl
    where
      by_get :
          (o : Option (Item Retained))
          → get n d ≡ o
          → elim o as (λ x. Result (Item Retained)) [ none ↦ ok (dict empty) | some it ↦ ok it ]
            ≡ ok (dict (dict_of o))
      by_get none e = refl
      by_get (some (atom a)) e = cc (h, get-IsEntry n (atom a) d t e)
      by_get (some (dict s)) e = refl

  flatten-step :
      (flags : Option (Item Scalar)) (n m : String) (next base : List String) (given : Item Scalar)
      (d : Dict Retained)
      → is_node_static n ≡ true
      → IsNode n
      → IsTree d
      → flatten_message_into_rows encode qos flags (n ∷ m ∷ next) given base (dict d)
        ≡ flatten_message_into_rows encode qos flags
            (m ∷ next)
            given
            (base ++ n ∷ [])
            (dict (child n d))
  unfolding flatten_message_into_rows
  flatten-step flags n m next base given d static k t =
      let cards = static-card n static in rw (cards.0, cards.1, branch-child n d k t) refl

  flatten-last :
      (base : List String) (given : Dict Scalar) (d : Dict Retained)
      → AreTexts given
      → IsTree d
      → flatten_message_into_rows encode qos
          (some (atom (text "+")))
          ("+" ∷ [])
          (dict given)
          base
          (dict d)
        ≡ ok (given_rows base given ++ emptied_rows base given d)
  unfolding flatten_message_into_rows with_items
  flatten-last base given d texts t =
      rw (each_value-given_rows base given texts, leaves_to_empty-emptied_rows base given d t)

  -- The rows of an object of texts that is grafted with the flag `+` at nodes without wildcards and a
  -- last `+`.
  pub flatten-rows :
      (nodes base : List String) (given : Dict Scalar) (d : Dict Retained)
      → all_static nodes ≡ true
      → All IsNode nodes
      → AreTexts given
      → IsTree d
      → flatten_message_into_rows encode qos
          (some (atom (text "+")))
          (nodes ++ ("+" ∷ []))
          (dict given)
          base
          (dict d)
        ≡ ok (
            given_rows (base ++ nodes) given
            ++ emptied_rows (base ++ nodes) given (descend nodes d))
  flatten-rows [] base given d h k texts t = rw append-nil (flatten-last base given d texts t)
  flatten-rows (n ∷ nodes) base given d h k texts t = elim (Bool-cases (is_node_static n)) [
    | inr card ↦ let no : false ≡ true = rw card at h in cc
    | inl static ↦
        let rest =
          flatten-rows nodes (base ++ n ∷ []) given (child n d) (rw static at h) k.1 texts
            (IsTree-child n d t) in
        step nodes static
        ∙ rest
        ∙ ap (λ b. ok (given_rows b given ++ emptied_rows b given (descend nodes (child n d))))
            (append_assoc base (n ∷ []) nodes)
  ]
    where
      step :
          (nodes : List String)
          → is_node_static n ≡ true
          → flatten_message_into_rows encode qos
              (some (atom (text "+")))
              (n ∷ (nodes ++ ("+" ∷ [])))
              (dict given)
              base
              (dict d)
            ≡ flatten_message_into_rows encode qos
                (some (atom (text "+")))
                (nodes ++ ("+" ∷ []))
                (dict given)
                (base ++ n ∷ [])
                (dict (child n d))
      step [] static =
          flatten-step (some (atom (text "+"))) n "+" [] base (dict given) d static k.0 t
      step (m ∷ nodes) static =
          flatten-step (some (atom (text "+"))) n m (nodes ++ ("+" ∷ [])) base (dict given) d static
            k.0 t
