-- ===== src/TreeManager/Graft/Behind.antt =====
-- The rows of a graft are for nodes behind the base, so that they leave every other path as it is.
use mathlib.Core.Path.{subst}
use mote_broker.Prelude.{
  ℕ, String, ◌≡◌, ◌≢◌, refl, sym, ◌∙◌, Bool, true, false, if◌then◌else◌, Bool-cases, inl, inr,
  Option, List, [], ◌∷◌, ◌++◌, All, All-append, path_eq, path_eq_iff,
}
use mote_broker.Dict.{Dict, atom, dict, empty, entry, get}
use mote_broker.RecursiveDict.Shape.{IsTree, IsNode}
use mote_broker.Protocols.{Bytes, Retained, Row}
use mote_broker.Protocols.Flatten.{Scalar, text, other, has_leaf, is_missing, emptied}
use mote_broker.Protocols.Flatten.Graft.{AreTexts, given_rows, emptied_rows}
use mote_broker.TreeManager.Retain.{IsTopic, last_retained}

IsTopic-last :
    (base : List String) (k : String) → All IsNode base → IsNode k → IsTopic (base ++ k ∷ [])
IsTopic-last [] k h e = (e, tt)
IsTopic-last (n ∷ base) k h e = (h.0, All-append IsNode base (k ∷ []) h.1 (e, tt))

-- The row is for a node behind the base.
abbrev pub Extends : List String → Row → Type 0
Extends base r = (k : String) × (r.topic ≡ base ++ k ∷ []) × IsNode k

pub last_retained_other :
    (q base : List String) (rows : List Row) (before : Option Retained)
    → ((k : String) → q ≢ base ++ k ∷ [])
    → All (Extends base) rows
    → last_retained q rows before ≡ before
last_retained_other q base [] before h e = refl
last_retained_other q base (r ∷ rows) before h ((k, same, node), e) =
    elim (Bool-cases (path_eq r.topic q)) [
      | inl here ↦ absurd (h k (sym ((path_eq_iff r.topic q).0 here) ∙ same))
      | inr apart ↦ rw apart (last_retained_other q base rows before h e)
    ]

pub IsTopic-rows :
    (base : List String) (rows : List Row)
    → All IsNode base
    → All (Extends base) rows
    → All (λ (r : Row). IsTopic r.topic) rows
IsTopic-rows base [] h e = tt
IsTopic-rows base (r ∷ rows) h ((k, same, node), e) =
    (subst IsTopic (sym same) (IsTopic-last base k h node), IsTopic-rows base rows h e)

module _ (encode : String → Bytes) (qos : ℕ) where
  pub given_rows-Extends :
      (base : List String) (given : Dict Scalar)
      → AreTexts given
      → All (Extends base) (given_rows encode qos base given)
  given_rows-Extends base empty h = tt
  given_rows-Extends base (entry k (atom (text s)) d) h =
      ((k, refl, h.0), given_rows-Extends base d h.1)
  given_rows-Extends base (entry k (atom other) d) h = absurd h
  given_rows-Extends base (entry k (dict s) d) h = absurd h

  -- The rows of one branch.
  one_emptied-Extends :
      (base : List String) (k : String) (b c : Bool)
      → IsNode k
      → All
          (Extends base)
          (if b then if c then emptied encode qos (base ++ k ∷ []) ∷ [] else [] else [])
  one_emptied-Extends base k true true h = ((k, refl, h), tt)
  one_emptied-Extends base k true false h = tt
  one_emptied-Extends base k false c h = tt

  pub emptied_rows-Extends :
      (base : List String) (given : Dict Scalar) (d : Dict Retained)
      → IsTree d
      → All (Extends base) (emptied_rows encode qos base given d)
  emptied_rows-Extends base given empty t = tt
  emptied_rows-Extends base given (entry k (atom a) d) t = emptied_rows-Extends base given d t.1
  emptied_rows-Extends base given (entry k (dict s) d) t =
      All-append (Extends base) _ _
        (one_emptied-Extends base k (has_leaf s) (is_missing (get k given)) t.0.0)
        (emptied_rows-Extends base given d t.1)
