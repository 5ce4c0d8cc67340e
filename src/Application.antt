-- ===== src/Application.antt =====
-- app.py: the arguments of the command line, and the settings of broker/broker.py that they become. An
-- argument is a text; a setting that is not given keeps its default.
pub mod Arguments
use Prim.Native.Char.{Char}
use mote_broker.Prelude.{
  ℕ, String, Bool, true, false, not, ◌&&◌, ◌=str=◌, if◌then◌else◌, List, [], ◌∷◌, ◌++◌, exists,
}
use mote_broker.Result.{Result, ok, err, syntax_error, type_error, attribute_error, ◌>>=◌}
use mote_broker.Dict.{Item, Dict, atom, dict, empty, entry, set}
use mote_broker.Topic.Split.{glue}

-- if name[:2] == "--": name = name[2:]
unfoldable pub strip_dashes : String → String
strip_dashes String.[] = ""
strip_dashes (String.◌∷◌ c String.[]) = String.◌∷◌ c ""
strip_dashes (String.◌∷◌ c (String.◌∷◌ d name)) =
    if String.◌∷◌ c (String.◌∷◌ d "") =str= "--" then name else String.◌∷◌ c (String.◌∷◌ d name)

abbrev pub is_equals : Char → Bool
is_equals c = String.◌∷◌ c "" =str= "="

-- arg.split("=")
unfoldable pub parts : String → List String
unfolding glue
parts String.[] = "" ∷ []
parts (String.◌∷◌ c s) = if is_equals c then "" ∷ parts s else glue c (parts s)

-- The pieces of an argument, of which there should be two.
unfoldable pub add_setting : List String → Dict String → Result (Dict String)
unfolding strip_dashes
add_setting (name ∷ val ∷ []) kwargs = ok (set (strip_dashes name) (atom val) kwargs)
add_setting pieces kwargs = err syntax_error

-- the loop over sys.argv[1:], in which `kw` stays None
unfoldable pub parse_args : List String → Dict String → Result (Dict String)
unfolding add_setting parts
parse_args [] kwargs = ok kwargs
parse_args (arg ∷ args) kwargs =
    add_setting (parts arg) kwargs >>= λ kwargs'. parse_args args kwargs'

-- A value of a setting; the command line gives texts only.
pub data Setting : Type 0 where
  missing : Setting
  text : String → Setting
  number : ℕ → Setting

-- the fields of Broker with its default values; `replaced` are the names of its own parts (managers, lock
-- and queue) for which a text was given
pub record Settings : Type 0 where
  pub host : Setting
  pub tcp_host : Setting
  pub ws_host : Setting
  pub tcp_port : Setting
  pub ws_port : Setting
  pub ssl_cert : Setting
  pub ssl_key : Setting
  pub replaced : List String

abbrev pub default_settings : Settings
default_settings = record {
  host = text "0.0.0.0";
  tcp_host = missing;
  ws_host = missing;
  tcp_port = number 1993;
  ws_port = number 53535;
  ssl_cert = missing;
  ssl_key = missing;
  replaced = [];
}

abbrev pub part_names : List String
part_names = "tree_manager" ∷ "table_manager" ∷ "subscription_lock" ∷ "broadcast_queue" ∷ []

-- a keyword argument of the constructor of Broker
unfoldable pub with_setting : String → String → Settings → Result Settings
with_setting name val s =
    if name =str= "host"
    then ok (record s { host = text val })
    else if name =str= "tcp_host"
    then ok (record s { tcp_host = text val })
    else if name =str= "ws_host"
    then ok (record s { ws_host = text val })
    else if name =str= "tcp_port"
    then ok (record s { tcp_port = text val })
    else if name =str= "ws_port"
    then ok (record s { ws_port = text val })
    else if name =str= "ssl_cert"
    then ok (record s { ssl_cert = text val })
    else if name =str= "ssl_key"
    then ok (record s { ssl_key = text val })
    else if exists (λ part. part =str= name) part_names
    then ok (record s { replaced = name ∷ s.replaced })
    else err type_error

-- Broker(**kwargs)
unfoldable pub configure : Dict String → Settings → Result Settings
unfolding with_setting
configure empty s = ok s
configure (entry name (atom val) kwargs) s = with_setting name val s >>= λ s'. configure kwargs s'
configure (entry name (dict d) kwargs) s = err type_error

-- whether Python's `or` goes on behind the value
abbrev pub is_falsy : Setting → Bool
is_falsy missing = true
is_falsy (text s) = s =str= ""
is_falsy (number n) = false

-- self.tcp_host or self.host, and the port
unfoldable pub tcp_address : Settings → Setting × Setting
tcp_address s = (if is_falsy s.tcp_host then s.host else s.tcp_host, s.tcp_port)

unfoldable pub websocket_address : Settings → Setting × Setting
websocket_address s = (if is_falsy s.ws_host then s.host else s.ws_host, s.ws_port)

-- whether ssl_context makes a context
unfoldable pub has_ssl_context : Settings → Bool
has_ssl_context s = not (is_falsy s.ssl_cert) && not (is_falsy s.ssl_key)
