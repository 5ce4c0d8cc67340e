-- ===== src/Tests/Trees.antt =====
-- Witnesses about trees, topics and subscriptions.
use mote_broker.Prelude.{
  ℕ, String, ◌≡◌, ◌≢◌, refl, true, none, some, List, [], ◌∷◌, All, path_eq, ◌=str=◌, if◌then◌else◌,
  exists,
}
use mote_broker.Result.{ok}
use mote_broker.Dict.{Dict, atom, dict, empty, entry, get, set}
use mote_broker.RecursiveDict.{make, assign, lshift, find}
use mote_broker.RecursiveDict.Shape.{IsNode}
use mote_broker.RecursiveDict.Find.{find-empty}
use mote_broker.Topic.{Topic, from_str, from_nodes, node_list, full_str, eq}
use mote_broker.Topic.Split.{split}
use mote_broker.Topic.RoundTrip.{from_str-full_str}
use mote_broker.Broker.Subscriptions.{Subscriptions, subscribe, unsubscribe}
use mote_broker.Broker.Subscriptions.Refinement.{
  IsValid, quality, updated, subscribe-updates, subscribe-IsValid, unsubscribe-erases,
}

abbrev pub bedroom : List String
bedroom = "light" ∷ "bedroom" ∷ []

abbrev pub lights : List String
lights = "light" ∷ "+" ∷ []

bedroom-nodes : All IsNode bedroom
bedroom-nodes = (refl, (refl, tt))

lights-nodes : All IsNode lights
lights-nodes = (refl, (refl, tt))

pub no_subs-IsValid : IsValid empty
no_subs-IsValid = record {
  proper = tt;
  pruned = tt;
  inhabited = λ q cs e. cc (find-empty {A = Dict ℕ} q);
}

-- client "a" at light/bedroom, then also client "b" at light/+
abbrev pub one : Subscriptions
one = (subscribe "a" bedroom 1 empty).1

abbrev pub two : Subscriptions
two = (subscribe "b" lights 2 one).1

one-IsValid : IsValid one
one-IsValid = subscribe-IsValid "a" "light" ("bedroom" ∷ []) empty bedroom-nodes no_subs-IsValid 1

pub two-IsValid : IsValid two
two-IsValid = subscribe-IsValid "b" "light" ("+" ∷ []) one lights-nodes one-IsValid 2

two_runs :
    two
    ≡ entry "light"
        (dict (
          entry "bedroom"
            (dict (entry "/" (atom (entry "a" (atom 1) empty)) empty))
            (entry "+" (dict (entry "/" (atom (entry "b" (atom 2) empty)) empty)) empty)))
        empty
unfolding subscribe lshift get set assign make
two_runs = refl

subscribe-updates_example :
    ((subscribe "b" lights 2 one).0 ≡ ok true)
    × ((q : List String) (j : String)
        → quality (subscribe "b" lights 2 one).1 q j
          ≡ updated (quality one) lights "b" (some (atom 2)) q j)
subscribe-updates_example = subscribe-updates "b" "light" ("+" ∷ []) one lights-nodes one-IsValid 2

subscribe-IsValid_example : IsValid two
subscribe-IsValid_example = subscribe-IsValid "b" "light" ("+" ∷ []) one lights-nodes one-IsValid 2

lights-ne-nil : lights ≢ []
lights-ne-nil = λ e. cc

bedroom-ne-nil : bedroom ≢ []
bedroom-ne-nil = λ e. cc

unsubscribe-erases_example :
    ((unsubscribe "a" (lights ∷ bedroom ∷ []) two).0 ≡ ok true)
    × IsValid (unsubscribe "a" (lights ∷ bedroom ∷ []) two).1
    × ((q : List String) (j : String)
        → quality (unsubscribe "a" (lights ∷ bedroom ∷ []) two).1 q j ≡ (
            if exists (λ t. path_eq t q) (lights ∷ bedroom ∷ [])
            then if "a" =str= j then none else quality two q j
            else quality two q j))
unsubscribe-erases_example =
    unsubscribe-erases "a" (lights ∷ bedroom ∷ []) two
      ((lights-nodes, lights-ne-nil), ((bedroom-nodes, bedroom-ne-nil), tt)) two-IsValid

not_subscribed : quality two bedroom "b" ≡ none
unfolding quality subscribe lshift find get set assign make
not_subscribed = refl

bedroom-is-there : find bedroom two ≢ none
unfolding subscribe lshift find get set assign make
bedroom-is-there = λ e. cc

from_str-full_str_example :
    (t : Topic) × (u : Topic) × (from_str "light/bedroom/is_on" ≡ some t)
    × (node_list t ≡ split "light/bedroom/is_on")
    × (full_str t ≡ "light/bedroom/is_on")
    × (from_nodes (node_list t) none ≡ some u)
    × (eq u t ≡ true)
from_str-full_str_example = from_str-full_str "light/bedroom/is_on"

split_runs : split "a//b/" ≡ "a" ∷ "" ∷ "b" ∷ "" ∷ []
unfolding split
split_runs = refl
