-- ===== src/Handler/Connection/Covers.antt =====
-- The set of topics of a connection, by the nodes of its topics.
use mote_broker.Prelude.{
  String, ◌≡◌, refl, ap, ◌∙◌, Bool, true, false, ◌=str=◌, eq_iff, if◌then◌else◌, List, [], ◌∷◌,
  ◌++◌, exists, path_eq, Bool-cases, inl, inr, arith,
}
use mote_broker.Topic.Split.{split}
use mote_broker.Handler.Connection.{add_topic, remove_topic}

-- Some topic in the set has these nodes.
abbrev pub covers : List String → List String → Bool
covers q topics = exists (λ topic. path_eq (split topic) q) topics

exists-append {ℓ} :
    {A : Type ℓ} (p : A → Bool) (xs ys : List A)
    → exists p (xs ++ ys) ≡ (if exists p xs then true else exists p ys)
exists-append p [] ys = refl
exists-append p (x ∷ xs) ys = ground (arith, exists-append p xs ys)

covers-member :
    (q : List String) (topic : String) (topics : List String)
    → exists (λ other. other =str= topic) topics ≡ true
    → path_eq (split topic) q ≡ true
    → covers q topics ≡ true
covers-member q topic [] h e = cc h
covers-member q topic (other ∷ topics) h e = elim (Bool-cases (other =str= topic)) [
  | inl same ↦ let q' = (eq_iff other topic).0 same in rw (q', e)
  | inr differs ↦ ground (arith, covers-member q topic topics (rw differs at h) e)
]

if_comm : (a b : Bool) → (if a then true else if b then true else false) ≡ (if b then true else a)
if_comm a b = ground arith

pub covers-add_topic :
    (q : List String) (topic : String) (topics : List String)
    → covers q (add_topic topic topics)
      ≡ (if path_eq (split topic) q then true else covers q topics)
unfolding add_topic
covers-add_topic q topic topics = elim (Bool-cases (exists (λ other. other =str= topic) topics)) [
  | inl old ↦ elim (Bool-cases (path_eq (split topic) q)) [
    | inl e ↦ rw (old, e) (covers-member q topic topics old e)
    | inr e ↦ rw (old, e)
  ]
  | inr new ↦
      rw (new, exists-append (λ t. path_eq (split t) q) topics (topic ∷ []))
        (if_comm (covers q topics) (path_eq (split topic) q))
]

pub covers-remove_topic :
    (q : List String) (topic : String) (topics : List String)
    → path_eq (split topic) q ≡ false
    → covers q topics ≡ true
    → covers q (remove_topic topic topics) ≡ true
unfolding remove_topic
covers-remove_topic q topic [] e h = cc h
covers-remove_topic q topic (other ∷ topics) e h = elim (Bool-cases (other =str= topic)) [
  | inl same ↦
      let q' : path_eq (split other) q ≡ false =
        ap (λ t. path_eq (split t) q) ((eq_iff other topic).0 same) ∙ e in
      rw same (covers-remove_topic q topic topics e (rw q' at h))
  | inr differs ↦ rw differs (ground (arith, h, covers-remove_topic q topic topics e))
]
