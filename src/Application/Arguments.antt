-- ===== src/Application/Arguments.antt =====
-- What the command line gives.
use Prim.Native.Char.{Char}
use Prim.Native.String.append
use Prim.Native.String.{◌++◌ as ◌+++◌}
use mathlib.Core.Path.{subst}
use mote_broker.Prelude.{String, ◌≡◌, refl, sym, ap, ◌∙◌, false, List, [], ◌∷◌, All, map}
use mote_broker.Result.{ok}
use mote_broker.Dict.{Dict, atom, set}
use mote_broker.Application.{is_equals, strip_dashes, parts, add_setting, parse_args}

-- No character of the text is an equals sign.
abbrev pub IsWord : String → Type 0
IsWord String.[] = Unit
IsWord (String.◌∷◌ c s) = (is_equals c ≡ false) × IsWord s

-- --name=val
abbrev pub argument : String × String → String
argument (name, val) = ("--" +++ name) +++ ("=" +++ val)

parts-word : (s : String) → IsWord s → parts s ≡ s ∷ []
unfolding parts
parts-word String.[] h = refl
parts-word (String.◌∷◌ c s) h = rw (h.0, parts-word s h.1) refl

parts-equals : (s : String) → parts ("=" +++ s) ≡ "" ∷ parts s
unfolding parts
parts-equals s =
    let sign : Char = "=" in
    ap parts (append.cons sign "" s ∙ ap (λ t. String.◌∷◌ sign t) (append.nil s))

parts-setting :
    (name val : String)
    → IsWord name
    → IsWord val
    → parts (name +++ ("=" +++ val)) ≡ name ∷ val ∷ []
unfolding parts
parts-setting String.[] val h k =
    ap parts (append.nil ("=" +++ val)) ∙ parts-equals val ∙ ap (λ l. "" ∷ l) (parts-word val k)
parts-setting (String.◌∷◌ c name) val h k =
    ap parts (append.cons c name ("=" +++ val)) ∙ rw (h.0, parts-setting name val h.1 k) refl

abbrev dash : Char
dash = "-"

dashes : (name : String) → "--" +++ name ≡ String.◌∷◌ dash (String.◌∷◌ dash name)
dashes name =
    append.cons dash "-" name
    ∙ ap (λ t. String.◌∷◌ dash t)
        (append.cons dash "" name ∙ ap (λ t. String.◌∷◌ dash t) (append.nil name))

dashes-IsWord : (name : String) → IsWord name → IsWord ("--" +++ name)
dashes-IsWord name h = subst IsWord (sym (dashes name)) (refl, (refl, h))

strip_dashes-dashes : (name : String) → strip_dashes ("--" +++ name) ≡ name
unfolding strip_dashes
strip_dashes-dashes name = ap strip_dashes (dashes name)

-- the settings, each written over those before
abbrev pub given : List (String × String) → Dict String → Dict String
given [] kwargs = kwargs
given ((name, val) ∷ settings) kwargs = given settings (set name (atom val) kwargs)

-- Arguments of the form --name=val, whose names and values hold no equals sign, are parsed into these settings,
-- of which the last one for a name counts.
pub parse_args-argument :
    (settings : List (String × String)) (kwargs : Dict String)
    → All (λ (setting : String × String). IsWord setting.0 × IsWord setting.1) settings
    → parse_args (map argument settings) kwargs ≡ ok (given settings kwargs)
unfolding parse_args add_setting
parse_args-argument [] kwargs h = refl
parse_args-argument ((name, val) ∷ settings) kwargs h =
    rw
      (parts-setting ("--" +++ name) val (dashes-IsWord name h.0.0) h.0.1, strip_dashes-dashes name)
      (parse_args-argument settings (set name (atom val) kwargs) h.1)
