-- ===== src/Tables/Models/Names.antt =====
-- The names that tables/models.py gives to tables.
use Prim.Native.String.append
use Prim.Native.String.{◌++◌ as ◌+++◌}
use mathlib.Core.Path.{subst}
use mote_broker.Prelude.{sym, String, false, ◌≡◌, refl, ap, ◌∙◌, ◌=str=◌, Bool-cases, inl, inr}
use mote_broker.Tables.Models.{replace, parse_model_name}

-- No character of the text is the given one.
abbrev pub Lacks : String → String → Type 0
Lacks old String.[] = Unit
Lacks old (String.◌∷◌ c s) = ((String.◌∷◌ c "" =str= old) ≡ false) × Lacks old s

Lacks-append : (old s t : String) → Lacks old s → Lacks old t → Lacks old (s +++ t)
Lacks-append old String.[] t h k = subst (Lacks old) (sym (append.nil t)) k
Lacks-append old (String.◌∷◌ c s) t (other, h) k =
    subst (Lacks old) (sym (append.cons c s t)) (other, Lacks-append old s t h k)

-- What is replaced is gone, where it is not in what comes for it.
replace-Lacks : (old new s : String) → Lacks old new → Lacks old (replace old new s)
unfolding replace
replace-Lacks old new String.[] h = tt
replace-Lacks old new (String.◌∷◌ c s) h = elim (Bool-cases (String.◌∷◌ c "" =str= old)) [
  | inl e ↦ rw e (Lacks-append old new (replace old new s) h (replace-Lacks old new s h))
  | inr e ↦ rw e (e, replace-Lacks old new s h)
]

-- No character is gained but those that come for the replaced one.
replace-Lacks_other : (x old new s : String) → Lacks x new → Lacks x s → Lacks x (replace old new s)
unfolding replace
replace-Lacks_other x old new String.[] h k = tt
replace-Lacks_other x old new (String.◌∷◌ c s) h (other, k) =
    let rest = replace-Lacks_other x old new s h k in
    elim (Bool-cases (String.◌∷◌ c "" =str= old)) [
      | inl e ↦ rw e (Lacks-append x new (replace old new s) h rest)
      | inr e ↦ rw e (other, rest)
    ]

replace-eq : (old new s : String) → Lacks old s → replace old new s ≡ s
unfolding replace
replace-eq old new String.[] h = refl
replace-eq old new (String.◌∷◌ c s) (other, h) = rw (other, replace-eq old new s h)

-- A text without the characters of topics.
abbrev pub IsName : String → Type 0
IsName s = Lacks "/" s × Lacks "+" s × Lacks "#" s

-- The name of a table has no separator and no wildcard.
pub parse_model_name-IsName : (topic : String) → IsName (parse_model_name topic)
unfolding parse_model_name
parse_model_name-IsName topic =
    let slashes = replace "/" "_" topic in
    let pluses = replace "+" "" slashes in
    (
      replace-Lacks_other "/" "#" "" pluses tt
          (replace-Lacks_other "/" "+" "" slashes tt (replace-Lacks "/" "_" topic (refl, tt))),
      replace-Lacks_other "+" "#" "" pluses tt (replace-Lacks "+" "" slashes tt),
      replace-Lacks "#" "" pluses tt,
    )

-- The name of a table is a topic with the same name: the tables of both have one primary key.
pub parse_model_name-idempotent :
    (topic : String) → parse_model_name (parse_model_name topic) ≡ parse_model_name topic
unfolding parse_model_name
parse_model_name-idempotent topic =
    let name = parse_model_name topic in
    let h = parse_model_name-IsName topic in
    ap (λ s. replace "#" "" (replace "+" "" s)) (replace-eq "/" "_" name h.0)
    ∙ ap (replace "#" "") (replace-eq "+" "" name h.1)
    ∙ replace-eq "#" "" name h.2
