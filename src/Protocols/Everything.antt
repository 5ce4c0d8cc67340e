-- ===== src/Protocols/Everything.antt =====
-- protocols/get_everything_as_rows.py: a row for each leaf below the root of a retained tree.
use mote_broker.Prelude.{
  ℕ, String, ◌≡◌, refl, ap, ◌∙◌, Bool, true, false, ◌=str=◌, if◌then◌else◌, none, some, List, [],
  ◌∷◌, ◌++◌, map, append_assoc, Bool-cases, inl, inr, append-nil,
}
use mathlib.Core.List.{map-append, map-map}
use mote_broker.Result.{Result, ok, err, attribute_error, ◌>>=◌}
use mote_broker.Dict.{Item, Dict, atom, dict, empty, entry}
use mote_broker.RecursiveDict.{leaf_key}
use mote_broker.RecursiveDict.Shape.{IsTree, IsEntry, IsNode}
use mote_broker.Protocols.{Retained, Row}

-- The paths of a tree's leaves, the root's own one left out at the start.
abbrev mutual
  pub leaf_paths : Bool → Dict Retained → List (List String)
  leaf_paths start empty = []
  leaf_paths start (entry k it d) =
      (if k =str= leaf_key
        then if start then [] else [] ∷ []
        else map (λ p. k ∷ p) (leaf_paths_below it))
      ++ leaf_paths start d

  pub leaf_paths_below : Item Retained → List (List String)
  leaf_paths_below (atom a) = []
  leaf_paths_below (dict d) = leaf_paths false d

module _ (payload : Retained) (qos : ℕ) where
  abbrev pub row : List String → Row
  row topic = record { topic = topic; payload = payload; qos = qos }

  -- a `None` below a node is logged and passed over
  unfoldable mutual
    pub get_everything_as_rows : List String → Bool → Dict Retained → Result (List Row)
    get_everything_as_rows topic start empty = ok []
    get_everything_as_rows topic start (entry key val rest) =
        (let below = everything_below (topic ++ key ∷ []) val in
          if key =str= leaf_key then ok (if start then [] else row topic ∷ []) else below)
        >>= λ here. get_everything_as_rows topic start rest >>= λ more. ok (here ++ more)

    pub everything_below : List String → Item Retained → Result (List Row)
    everything_below topic (atom none) = ok []
    everything_below topic (atom (some b)) = err attribute_error
    everything_below topic (dict d) = get_everything_as_rows topic false d

  own_leaf :
      (topic : List String) (start : Bool) (paths : List (List String))
      → (if start then [] else row topic ∷ []) ++ map (λ p. row (topic ++ p)) paths
        ≡ map (λ p. row (topic ++ p)) ((if start then [] else [] ∷ []) ++ paths)
  own_leaf topic true paths = refl
  own_leaf topic false paths = rw append-nil

  mutual
    unfolding get_everything_as_rows

    rows-leaf_paths :
        (topic : List String) (start : Bool) (d : Dict Retained)
        → IsTree d
        → get_everything_as_rows topic start d
          ≡ ok (map (λ p. row (topic ++ p)) (leaf_paths start d))
    rows-leaf_paths topic start empty t = refl
    rows-leaf_paths topic start (entry k it d) t = elim (Bool-cases (k =str= leaf_key)) [
      | inl leaf ↦
          rw (leaf, rows-leaf_paths topic start d t.1)
            (ap ok (own_leaf topic start (leaf_paths start d)))
      | inr node ↦ rw (
        node,
        rows-leaf_paths topic start d t.1,
        below-leaf_paths topic k it node t.0,
        map-append,
      )
    ]

    below-leaf_paths :
        (topic : List String) (k : String) (it : Item Retained)
        → IsNode k
        → IsEntry k it
        → everything_below (topic ++ k ∷ []) it
          ≡ ok (map (λ p. row (topic ++ p)) (map (λ p. k ∷ p) (leaf_paths_below it)))
    below-leaf_paths topic k (atom a) n e = cc (n, e)
    below-leaf_paths topic k (dict d) n e =
        rows-leaf_paths (topic ++ k ∷ []) false d e.1 ∙ simp (map-map, append_assoc)

  -- From a proper tree come exactly the rows of its leaves, that of the root left out.
  pub get_everything-leaf_paths :
      (topic : List String) (d : Dict Retained)
      → IsTree d
      → get_everything_as_rows topic true d ≡ ok (map (λ p. row (topic ++ p)) (leaf_paths true d))
  get_everything-leaf_paths topic d t = rows-leaf_paths topic true d t
