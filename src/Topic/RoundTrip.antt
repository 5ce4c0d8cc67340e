-- ===== src/Topic/RoundTrip.antt =====
-- models/topic.py: topics made from nodes and from texts have these nodes and these texts.
use mathlib.Core.List.{reverse, reverse-reverse}
use mote_broker.Prelude.{
  String, ◌≡◌, refl, ap, ◌∙◌, sym, Option, none, some, List, [], ◌∷◌, All, true, eq_refl, ◌≢◌,
}
use mote_broker.Topic.{
  Topic, chain, from_reversed, from_nodes, from_str, ancestors, node_list, own_str, str_or_join,
  full_str, eq,
}
use mote_broker.Topic.Split.{split, join-split, split-join, split-ne-nil, IsPlain}

own_str-chain :
    (n : String) (ns : List String) (str : Option String) → own_str (chain n ns str) ≡ str
unfolding own_str chain
own_str-chain n [] str = refl
own_str-chain n (m ∷ ns) str = refl

ancestors-chain :
    (n : String) (ns : List String) (str : Option String) → ancestors (chain n ns str) ≡ n ∷ ns
unfolding ancestors chain
ancestors-chain n [] str = refl
ancestors-chain n (m ∷ ns) str = ap (λ l. n ∷ l) (ancestors-chain m ns none)

from_reversed-node_list :
    (ns : List String) (str : Option String)
    → ns ≢ []
    → (t : Topic) × (from_reversed ns str ≡ some t) × (node_list t ≡ reverse ns) × (own_str t ≡ str)
unfolding from_reversed node_list
from_reversed-node_list [] str h = absurd (h refl)
from_reversed-node_list (n ∷ ns) str h =
    (chain n ns str, refl, ap reverse (ancestors-chain n ns str), own_str-chain n ns str)

reverse-ne-nil : (ns : List String) → ns ≢ [] → reverse ns ≢ []
reverse-ne-nil ns h e = h (sym (reverse-reverse ns) ∙ ap reverse e)

-- Nodes make a topic with these nodes, whose text is the given one, or the nodes joined.
pub from_nodes-node_list :
    (ns : List String) (str : Option String)
    → ns ≢ []
    → (t : Topic) × (from_nodes ns str ≡ some t)
      × (node_list t ≡ ns)
      × (full_str t ≡ str_or_join str ns)
unfolding from_nodes full_str
from_nodes-node_list ns str h =
    let (t, made, nodes, own) = from_reversed-node_list (reverse ns) str (reverse-ne-nil ns h) in
    let nodes' : node_list t ≡ ns = nodes ∙ reverse-reverse ns in
    (t, made, nodes', cc (own, nodes'))

-- A text makes a topic of its pieces, with that text, and the same pieces make a topic with an equal
-- text again.
pub from_str-full_str :
    (s : String)
    → (t : Topic) × (u : Topic) × (from_str s ≡ some t)
      × (node_list t ≡ split s)
      × (full_str t ≡ s)
      × (from_nodes (node_list t) none ≡ some u)
      × (eq u t ≡ true)
unfolding from_str eq
from_str-full_str s =
    let (t, made, nodes, str) = from_nodes-node_list (split s) (some s) (split-ne-nil s) in
    let (u, remade, nodes', str') = from_nodes-node_list (split s) none (split-ne-nil s) in
    let same : full_str u ≡ s = str' ∙ join-split s in
    (t, u, made, nodes, str, ap (λ l. from_nodes l none) nodes ∙ remade, rw (same, str) (eq_refl s))

-- Nodes without the separator are those of the topic of their joined text.
from_nodes-from_str :
    (n : String) (ns : List String)
    → All IsPlain (n ∷ ns)
    → (t : Topic) × (u : Topic) × (from_nodes (n ∷ ns) none ≡ some t)
      × (from_str (full_str t) ≡ some u)
      × (node_list u ≡ n ∷ ns)
unfolding str_or_join
from_nodes-from_str n ns h =
    let (t, made, nodes, str) = from_nodes-node_list (n ∷ ns) none (λ e. cc) in
    let (u, w, remade, nodes', text, again, equal) = from_str-full_str (full_str t) in
    (t, u, made, remade, nodes' ∙ ap split str ∙ split-join n ns h)
