-- ===== src/Topic/Split.antt =====
-- str.split and str.join of models/topic.py at the topic separator.
use Prim.Native.Char.{Char}
use Prim.Native.String.append
use Prim.Native.String.{◌++◌ as ◌+++◌}
use mathlib.Core.Path.{subst}
use mote_broker.Prelude.{
  String, ◌≡◌, refl, ap, ◌∙◌, sym, Bool, true, false, List, [], ◌∷◌, ◌=str=◌, All, if◌then◌else◌,
  eq_iff, Bool-cases, inl, inr, ◌≢◌,
}
use mote_broker.RecursiveDict.{topic_sep, leaf_key}
use mote_broker.RecursiveDict.Shape.{IsNode}

-- the text of one character is the separator
abbrev pub is_sep : Char → Bool
is_sep c = String.◌∷◌ c "" =str= topic_sep

-- a character in front of the first piece
unfoldable pub glue : Char → List String → List String
glue c [] = String.◌∷◌ c "" ∷ []
glue c (n ∷ ns) = String.◌∷◌ c n ∷ ns

-- s.split("/")
unfoldable pub split : String → List String
unfolding glue
split String.[] = "" ∷ []
split (String.◌∷◌ c s) = if is_sep c then "" ∷ split s else glue c (split s)

-- "/".join(nodes)
unfoldable pub join : List String → String
join [] = ""
join (n ∷ []) = n
join (n ∷ m ∷ ns) = n +++ (topic_sep +++ join (m ∷ ns))

-- No character of the text is the separator.
abbrev pub IsPlain : String → Type 0
IsPlain String.[] = Unit
IsPlain (String.◌∷◌ c s) = (is_sep c ≡ false) × IsPlain s

glue-ne-nil : (c : Char) (ns : List String) → glue c ns ≢ []
unfolding glue
glue-ne-nil c [] h = cc
glue-ne-nil c (n ∷ ns) h = cc

pub split-ne-nil : (s : String) → split s ≢ []
unfolding split
split-ne-nil String.[] h = cc
split-ne-nil (String.◌∷◌ c s) h = elim (Bool-cases (is_sep c)) [
  | inl sep ↦ let e : "" ∷ split s ≡ [] = rw sep at h in cc
  | inr other ↦ glue-ne-nil c (split s) (rw other at h)
]

sep-eq : (c : Char) (s : String) → is_sep c ≡ true → topic_sep +++ s ≡ String.◌∷◌ c s
sep-eq c s h =
    ap (λ t. t +++ s) (sym ((eq_iff (String.◌∷◌ c "") topic_sep).0 h))
    ∙ append.cons c "" s
    ∙ ap (λ t. String.◌∷◌ c t) (append.nil s)

split-sep : (s : String) → split (topic_sep +++ s) ≡ "" ∷ split s
unfolding split
split-sep s =
    let slash : Char = "/" in
    ap split (append.cons slash "" s ∙ ap (λ t. String.◌∷◌ slash t) (append.nil s))

join-sep : (ns : List String) → ns ≢ [] → join ("" ∷ ns) ≡ topic_sep +++ join ns
unfolding join
join-sep [] h = absurd (h refl)
join-sep (n ∷ ns) h = append.nil _

join-glue : (c : Char) (ns : List String) → ns ≢ [] → join (glue c ns) ≡ String.◌∷◌ c (join ns)
unfolding join glue
join-glue c [] h = absurd (h refl)
join-glue c (n ∷ []) h = refl
join-glue c (n ∷ m ∷ ns) h = append.cons c n _

-- Joining the pieces of a text gives the text.
pub join-split : (s : String) → join (split s) ≡ s
unfolding split
join-split String.[] = unfold join in refl
join-split (String.◌∷◌ c s) = elim (Bool-cases (is_sep c)) [
  | inl sep ↦ rw sep (
      join-sep (split s) (split-ne-nil s)
      ∙ ap (λ t. topic_sep +++ t) (join-split s)
      ∙ sep-eq c s sep)
  | inr other ↦
      rw other (join-glue c (split s) (split-ne-nil s) ∙ ap (λ t. String.◌∷◌ c t) (join-split s))
]

glue-IsPlain :
    (c : Char) (ns : List String) → is_sep c ≡ false → All IsPlain ns → All IsPlain (glue c ns)
unfolding glue
glue-IsPlain c [] h k = ((h, tt), tt)
glue-IsPlain c (n ∷ ns) h k = ((h, k.0), k.1)

-- No piece of a text holds the separator.
pub split-IsPlain : (s : String) → All IsPlain (split s)
unfolding split
split-IsPlain String.[] = (tt, tt)
split-IsPlain (String.◌∷◌ c s) = elim (Bool-cases (is_sep c)) [
  | inl sep ↦ rw sep (tt, split-IsPlain s)
  | inr other ↦ rw other (glue-IsPlain c (split s) other (split-IsPlain s))
]

split-plain : (n : String) → IsPlain n → split n ≡ n ∷ []
unfolding split
split-plain String.[] h = refl
split-plain (String.◌∷◌ c n) h = rw h.0 (rw (split-plain n h.1))

split-append_sep : (n s : String) → IsPlain n → split (n +++ (topic_sep +++ s)) ≡ n ∷ split s
unfolding split
split-append_sep String.[] s h = ap split (append.nil (topic_sep +++ s)) ∙ split-sep s
split-append_sep (String.◌∷◌ c n) s h = rw append.cons (rw h.0 (rw (split-append_sep n s h.1)))

-- Splitting at the separator undoes joining, for nodes that do not hold it.
pub split-join :
    (n : String) (ns : List String) → All IsPlain (n ∷ ns) → split (join (n ∷ ns)) ≡ n ∷ ns
unfolding join
split-join n [] h = split-plain n h.0
split-join n (m ∷ ns) h = split-append_sep n _ h.0 ∙ ap (λ ms. n ∷ ms) (split-join m ns h.1)

-- A plain text is no leaf key.
pub IsPlain-IsNode : (n : String) → IsPlain n → IsNode n
IsPlain-IsNode n h = elim (Bool-cases (n =str= leaf_key)) [
  | inl same ↦ cc ((subst IsPlain ((eq_iff n leaf_key).0 same) h).0)
  | inr other ↦ other
]

pub All-IsPlain-IsNode : (ns : List String) → All IsPlain ns → All IsNode ns
All-IsPlain-IsNode [] h = tt
All-IsPlain-IsNode (n ∷ ns) h = (IsPlain-IsNode n h.0, All-IsPlain-IsNode ns h.1)
