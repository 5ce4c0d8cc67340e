-- ===== src/Tests/Startup.antt =====
-- Witnesses about the command line and the tables that are loaded.
use mote_broker.Prelude.{String, ◌≡◌, refl, ◌⊎◌, none, some, List, [], ◌∷◌, map}
use mote_broker.Result.{Result, ok, err, Error, corrupt_model, syntax_error}
use mote_broker.Dict.{Dict, atom, empty, entry}
use mote_broker.Application.{
  text, number, Settings, default_settings, parse_args, configure, tcp_address, websocket_address,
}
use mote_broker.Application.Arguments.{argument, given, parse_args-argument}
use mote_broker.Tables.{find_model}
use mote_broker.Tables.Models.{TableMeta}
use mote_broker.Tables.Loading.{load_models, last_built, first_error, load_models-finds}

abbrev settings : List (String × String)
settings = ("ws_host", "h") ∷ ("tcp_port", "1883") ∷ []

parse_args-argument_example : parse_args (map argument settings) empty ≡ ok (given settings empty)
parse_args-argument_example = parse_args-argument settings empty (
  ((refl, (refl, (refl, (refl, (refl, (refl, (refl, tt))))))), (refl, tt)),
  (
    (
      (refl, (refl, (refl, (refl, (refl, (refl, (refl, (refl, tt)))))))),
      (refl, (refl, (refl, (refl, tt)))),
    ),
    tt,
  ),
)

-- an argument without an equals sign
parse_args_runs : parse_args ("--tcp_port" ∷ []) empty ≡ err syntax_error
unfolding parse_args
parse_args_runs = refl

-- the port that is given stays a text
abbrev with_port : Dict String
with_port = entry "tcp_port" (atom "1883") empty

port_runs :
    (s : Settings) × (configure with_port default_settings ≡ ok s)
    × (tcp_address s ≡ (text "0.0.0.0", text "1883"))
    × (websocket_address s ≡ (text "0.0.0.0", number 53535))
unfolding configure tcp_address websocket_address
port_runs = (record default_settings { tcp_port = text "1883" }, refl, refl, refl)

abbrev table_a : TableMeta
table_a = record { name = "a"; topic = "a"; field_bytes = 1 ∷ [] }

abbrev table_b : TableMeta
table_b = record { name = "b"; topic = "b"; field_bytes = [] }

abbrev build : TableMeta → Result String
build table = elim table.field_bytes [ [] ↦ err corrupt_model | b ∷ bytes ↦ ok table.name ]

load_models-finds_example :
    ((e : Error) × (first_error build (table_a ∷ table_b ∷ []) ≡ some e)
      × (load_models build (table_a ∷ table_b ∷ []) ≡ err e))
    ⊎ ((loaded : List (String × String)) × (first_error build (table_a ∷ table_b ∷ []) ≡ none)
        × (load_models build (table_a ∷ table_b ∷ []) ≡ ok loaded)
        × ((key : String)
            → find_model key loaded ≡ last_built build key (table_a ∷ table_b ∷ []) none))
load_models-finds_example = load_models-finds build (table_a ∷ table_b ∷ [])
