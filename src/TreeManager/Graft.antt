-- ===== src/TreeManager/Graft.antt =====
-- A message that is grafted with the flag `+`: the keys of the retained tree are then those of its data.
pub mod Behind
pub mod Replaces
use mathlib.Core.Path.{subst}
use mote_broker.Prelude.{
  ℕ, String, ◌≡◌, ◌≢◌, refl, sym, ap, ◌∙◌, Bool, true, false, ◌&&◌, ◌=str=◌, eq_iff, eq_refl,
  if◌then◌else◌, Bool-cases, ◌⊎◌, inl, inr, Option, none, some, List, [], ◌∷◌, ◌++◌, append-nil,
  append_assoc, All, All-append, path_eq, path_eq_iff, arith,
}
use mote_broker.Result.{Result, ok, err, ◌>>=◌}
use mote_broker.Dict.{Item, Dict, atom, dict, empty, entry, get, pop}
use mote_broker.Dict.Laws.{get-same}
use mote_broker.RecursiveDict.{leaf_key, find, child, leaf_of, dict_of}
use mote_broker.RecursiveDict.Shape.{IsTree, IsEntry, IsNode, get-IsEntry}
use mote_broker.Protocols.{Bytes, Retained, Row}
use mote_broker.Protocols.Applicable.{all_static}
use mote_broker.RecursiveDict.Distinct.{IsDistinct, IsDistinct-child, IsDistinct-pop}
use mote_broker.Protocols.Filter.Selection.{payload_of}
use mote_broker.Protocols.Flatten.{Scalar, text, other, has_leaf, is_missing, emptied}
use mote_broker.Protocols.Flatten.Graft.{
  AreTexts, descend, IsTree-descend, given_rows, emptied_rows, flatten-rows,
}
use mote_broker.TreeManager.{TreeState, retain_rows}
use mote_broker.TreeManager.Retain.{IsTopic, last_retained, retain_rows-find}

last_retained-append :
    (q : List String) (rows more : List Row) (before : Option Retained)
    → last_retained q (rows ++ more) before ≡ last_retained q more (last_retained q rows before)
last_retained-append q [] more before = refl
last_retained-append q (r ∷ rows) more before = last_retained-append q rows more _

path_eq-last :
    (base : List String) (j k : String) → path_eq (base ++ j ∷ []) (base ++ k ∷ []) ≡ (j =str= k)
path_eq-last [] j k = elim (Bool-cases (j =str= k)) [ inl e ↦ rw e | inr e ↦ rw e ]
path_eq-last (n ∷ base) j k = rw eq_refl (path_eq-last base j k)

find-descend :
    (base q : List String) (d : Dict Retained) → find (base ++ q) d ≡ find q (descend base d)
unfolding find
find-descend [] q d = refl
find-descend (n ∷ base) q d = find-descend base q (child n d)

collapse :
    (b c : Bool) (before : Option Retained)
    → (if b then if c then before else before else before) ≡ before
collapse true true before = refl
collapse true false before = refl
collapse false c before = refl

-- The payload of an entry of the data.
abbrev pub given_payload : (String → Bytes) → Option (Item Scalar) → Option Bytes
given_payload encode (some (atom (text s))) = some (encode s)
given_payload encode o = none

module _ (encode : String → Bytes) (qos : ℕ) where
  -- The leaf of an entry of the data.
  abbrev named : Option (Item Scalar) → Option Retained → Option Retained
  named (some (atom (text s))) before = some (some (encode s))
  named o before = before

  last_retained-given_rows :
      (base : List String) (key : String) (given : Dict Scalar) (before : Option Retained)
      → AreTexts given
      → IsDistinct given
      → last_retained (base ++ key ∷ []) (given_rows encode qos base given) before
        ≡ named (get key given) before
  unfolding get
  last_retained-given_rows base key empty before h u = refl
  last_retained-given_rows base key (entry k (atom (text s)) d) before h u =
      rw
        (
          last_retained-given_rows base key d
              (if path_eq (base ++ k ∷ []) (base ++ key ∷ [])
                then some (some (encode s))
                else before)
              h.1 u.2,
          path_eq-last base k key,
        )
        (elim (Bool-cases (k =str= key)) [
          | inl e ↦ rw (e, sym (get-same k key d e) ∙ u.0) refl
          | inr e ↦ rw e refl
        ])
  last_retained-given_rows base key (entry k (atom other) d) before h u = absurd h
  last_retained-given_rows base key (entry k (dict s) d) before h u = absurd h

  abbrev leaves : Option (Item Retained) → Bool
  leaves (some (dict s)) = has_leaf s
  leaves o = false

  last_retained-one_emptied :
      (q p : List String) (b c : Bool) (rows : List Row) (before : Option Retained)
      → last_retained q
          ((if b then if c then emptied encode qos p ∷ [] else [] else []) ++ rows)
          before
        ≡ last_retained q rows
            (if b then if c then if path_eq p q then some none else before else before else before)
  last_retained-one_emptied q p true true rows before = refl
  last_retained-one_emptied q p true false rows before = refl
  last_retained-one_emptied q p false c rows before = refl

  last_retained-emptied_rows :
      (base : List String) (key : String) (given : Dict Scalar) (d : Dict Retained)
      (before : Option Retained)
      → IsDistinct d
      → last_retained (base ++ key ∷ []) (emptied_rows encode qos base given d) before ≡ (
          if leaves (get key d)
          then if is_missing (get key given) then some none else before
          else before)
  unfolding get
  last_retained-emptied_rows base key given empty before u = refl
  last_retained-emptied_rows base key given (entry k (atom a) d) before u =
      last_retained-emptied_rows base key given d before u.2 ∙ elim (Bool-cases (k =str= key)) [
        | inl e ↦ rw (e, sym (get-same k key d e) ∙ u.0) refl
        | inr e ↦ rw e refl
      ]
  last_retained-emptied_rows base key given (entry k (dict s) d) before u =
      last_retained-one_emptied (base ++ key ∷ []) (base ++ k ∷ []) (has_leaf s)
        (is_missing (get k given)) (emptied_rows encode qos base given d) before
      ∙ last_retained-emptied_rows base key given d _ u.2
      ∙ elim (Bool-cases (k =str= key)) [
        | inl e ↦
            rw (sym (get-same k key d e) ∙ u.0, get-same k key given e, path_eq-last base k key, e)
              refl
        | inr e ↦
            rw (path_eq-last base k key, e, collapse (has_leaf s) (is_missing (get k given)) before)
              refl
      ]

  texts-cases :
      (key : String) (given : Dict Scalar)
      → AreTexts given
      → (get key given ≡ none) ⊎ ((s : String) × (get key given ≡ some (atom (text s))))
  unfolding get
  texts-cases key empty h = inl refl
  texts-cases key (entry k (atom (text s)) d) h = elim (Bool-cases (k =str= key)) [
    | inl e ↦ inr (s, rw e refl)
    | inr e ↦ elim (texts-cases key d h.1) [
      | inl gone ↦ inl (rw e gone)
      | inr (r, there) ↦ inr (r, rw e there)
    ]
  ]
  texts-cases key (entry k (atom other) d) h = absurd h
  texts-cases key (entry k (dict s) d) h = absurd h

  emptied_leaf :
      (o : Option (Item Retained))
      → payload_of (if leaves o then some none else leaf_of (get leaf_key (dict_of o))) ≡ none
  unfolding dict_of leaf_of get
  emptied_leaf none = refl
  emptied_leaf (some (atom a)) = refl
  emptied_leaf (some (dict s)) = by_leaf (get leaf_key s)
    where
      by_leaf :
          (o : Option (Item Retained))
          → payload_of (
              if (elim o as (λ x. Bool) [ none ↦ false | some it ↦ true ])
              then some none
              else leaf_of o)
            ≡ none
      by_leaf none = refl
      by_leaf (some it) = refl

  -- What the rows leave behind the base, from what the tree held there.
  graft_leaf :
      (key : String) (given : Dict Scalar) (d : Dict Retained)
      → AreTexts given
      → payload_of (
          if leaves (get key d)
          then if is_missing (get key given)
            then some none
            else named (get key given) (find (key ∷ []) d)
          else named (get key given) (find (key ∷ []) d))
        ≡ given_payload encode (get key given)
  unfolding find child
  graft_leaf key given d texts = elim (texts-cases key given texts) [
    | inl gone ↦ rw gone (emptied_leaf (get key d))
    | inr (s, there) ↦ elim (Bool-cases (leaves (get key d))) [
      | inl e ↦ rw (there, e)
      | inr e ↦ rw (there, e)
    ]
  ]

  -- The rows of a graft.
  abbrev pub graft_rows : List String → Dict Scalar → Dict Retained → List Row
  graft_rows base given d =
      given_rows encode qos base given ++ emptied_rows encode qos base given (descend base d)

  pub graft_rows-find :
      (base : List String) (given : Dict Scalar) (d : Dict Retained) (key : String)
      → AreTexts given
      → IsDistinct given
      → IsDistinct (descend base d)
      → payload_of
          (last_retained (base ++ key ∷ []) (graft_rows base given d) (find (base ++ key ∷ []) d))
        ≡ given_payload encode (get key given)
  graft_rows-find base given d key texts u v =
      rw
        (
          last_retained-append (base ++ key ∷ []) (given_rows encode qos base given)
              (emptied_rows encode qos base given (descend base d)) (find (base ++ key ∷ []) d),
          last_retained-emptied_rows base key given (descend base d)
              (last_retained (base ++ key ∷ []) (given_rows encode qos base given)
                (find (base ++ key ∷ []) d))
              v,
          last_retained-given_rows base key given (find (base ++ key ∷ []) d) texts u,
          find-descend base (key ∷ []) d,
        )
        (graft_leaf key given (descend base d) texts)
