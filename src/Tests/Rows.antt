-- ===== src/Tests/Rows.antt =====
-- Witnesses about rows and messages.
use mathlib.Core.List.{map}
use mote_broker.Prelude.{◌≡◌, refl, true, false, none, some, List, [], ◌∷◌, All}
use mote_broker.Result.{Result, ok}
use mote_broker.Dict.{Dict, atom, dict, empty, entry, get}
use mote_broker.RecursiveDict.Shape.{IsTree}
use mote_broker.Broker.Subscriptions.{Subscriptions}
use mote_broker.Protocols.{Bytes, Retained, Row}
use mote_broker.Protocols.Messages.{create_messages_for_subscriptions}
use mote_broker.Protocols.Matching.{answers}
use mote_broker.Protocols.Fanout.{create_messages-answers}
use mote_broker.Protocols.Everything.{
  row, get_everything_as_rows, leaf_paths, get_everything-leaf_paths,
}
use mote_broker.Protocols.Applicable.{get_applicable_rows}
use mote_broker.Protocols.Applicable.Sound.{IsFor, applicable-covers}

abbrev subs : Subscriptions
subs =
    entry "light"
      (dict (
        entry "bedroom" (dict (entry "/" (atom (entry "a" (atom 1) empty)) empty))
          (entry "+" (dict (entry "/" (atom (entry "b" (atom 2) empty)) empty)) empty)))
      empty

-- a JSON library that writes nothing but the mark of a tree
abbrev json : Dict Retained → Result Bytes
json d = ok (123 ∷ 125 ∷ [])

abbrev pub rows : List Row
rows =
    record { topic = "light" ∷ "bedroom" ∷ []; payload = some (49 ∷ []); qos = 0 }
    ∷ record { topic = "light" ∷ "kitchen" ∷ []; payload = some (48 ∷ []); qos = 0 }
    ∷ []

create_messages-answers_example :
    create_messages_for_subscriptions json subs rows ≡ answers json subs rows
create_messages-answers_example =
    create_messages-answers json subs rows
      ((refl, (((refl, (refl, tt)), ((refl, (refl, tt)), tt)))), tt)
      ((refl, (refl, tt)), ((refl, (refl, tt)), tt))

-- what is retained at light/bedroom and light/kitchen
abbrev pub retained : Dict Retained
retained =
    entry "light"
      (dict (
        entry "bedroom" (dict (entry "/" (atom (some (49 ∷ []))) empty))
          (entry "kitchen" (dict (entry "/" (atom (some (48 ∷ []))) empty)) empty)))
      empty

pub retained-IsTree : IsTree retained
retained-IsTree = ((refl, (((refl, (refl, tt)), ((refl, (refl, tt)), tt)))), tt)

get_everything-leaf_paths_example :
    get_everything_as_rows none 0 ("x" ∷ []) true retained
    ≡ ok (map (λ p. row none 0 ("x" ∷ p)) (leaf_paths true retained))
get_everything-leaf_paths_example =
    get_everything-leaf_paths none 0 ("x" ∷ []) retained retained-IsTree

every_light :
    get_applicable_rows none 0 ("light" ∷ "+" ∷ []) [] false (dict retained)
    ≡ ok (row none 0 ("light" ∷ "bedroom" ∷ []) ∷ row none 0 ("light" ∷ "kitchen" ∷ []) ∷ [])
unfolding get_applicable_rows get
every_light = refl

applicable-covers_example :
    All
      (IsFor none 0 [] ("light" ∷ "+" ∷ []))
      (row none 0 ("light" ∷ "bedroom" ∷ []) ∷ row none 0 ("light" ∷ "kitchen" ∷ []) ∷ [])
applicable-covers_example =
    applicable-covers none 0 ("light" ∷ "+" ∷ []) [] false retained _ (refl, (refl, tt))
      retained-IsTree every_light
