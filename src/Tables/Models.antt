-- ===== src/Tables/Models.antt =====
-- tables/models.py: a table's description in JSON becomes fields, then a class of Django. `make_field`
-- and `make_class` are the calls of Django's field classes and of `type`, `loads` is `json.loads` of the
-- decoded bytes with the items of what it gives.
pub mod Names
pub mod Fields
use Prim.Native.String.{◌++◌ as ◌+++◌}
use mote_broker.Prelude.{
  String, Bool, true, false, ◌=str=◌, if◌then◌else◌, Option, none, some, List, [], ◌∷◌, map, ◌⊎◌,
  inl, inr,
}
use mote_broker.Protocols.{Bytes}
use mote_broker.Result.{Error, Result, ok, err, type_error, json_error, corrupt_model, ◌>>=◌}

pub data FieldClass : Type 0 where
  char_field : FieldClass
  positive_integer_field : FieldClass
  integer_field : FieldClass
  url_field : FieldClass
  binary_field : FieldClass

pub record TableMeta : Type 0 where
  pub name : String
  pub topic : String
  pub field_bytes : Bytes

-- field_class_map.get(type_name, None)
unfoldable pub field_class_map : String → Option FieldClass
field_class_map type_name =
    if type_name =str= "char"
    then some char_field
    else if type_name =str= "uint"
    then some positive_integer_field
    else if type_name =str= "int"
    then some integer_field
    else if type_name =str= "url"
    then some url_field
    else if type_name =str= "bytes"
    then some binary_field
    else none

-- result[key] = value, which keeps the place of a key that is there
unfoldable pub put {ℓ} : {A : Type ℓ} → String → A → List (String × A) → List (String × A)
put key value [] = (key, value) ∷ []
put key value ((k, v) ∷ entries) =
    if k =str= key then (k, value) ∷ entries else (k, v) ∷ put key value entries

-- text.replace(old, new), for an `old` of one character
unfoldable pub replace : String → String → String → String
replace old new String.[] = ""
replace old new (String.◌∷◌ c s) =
    if String.◌∷◌ c "" =str= old
    then new +++ replace old new s
    else String.◌∷◌ c (replace old new s)

unfoldable pub parse_model_name : String → String
unfolding replace
parse_model_name topic = replace "#" "" (replace "+" "" (replace "/" "_" topic))

module _ {Attrs Field : Type 0} (make_field : FieldClass → Attrs → Result Field) where
  -- if type_class is None
  unfoldable pub field_of : Option FieldClass → Attrs → Result Field
  field_of none field_attrs = err type_error
  field_of (some type_class) field_attrs = make_field type_class field_attrs

  unfoldable pub parse_field : String → Attrs → Result Field
  unfolding field_of
  parse_field type_name field_attrs = field_of (field_class_map type_name) field_attrs

  -- The loop of parse_fields, with the `result` that it fills.
  unfoldable pub parse_into :
      List (String × Field) → List (String × (String × Attrs)) → Result (List (String × Field))
  parse_into result [] = ok result
  parse_into result ((field_name, (type_name, field_attrs)) ∷ fields) =
      parse_field type_name field_attrs >>= λ field. parse_into (put field_name field result) fields

  unfoldable pub parse_fields : List (String × (String × Attrs)) → Result (List (String × Field))
  unfolding parse_into
  parse_fields fields = parse_into [] fields

  module _ {Class : Type 0}
      (make_class : String → List (String × (Field ⊎ String)) → Result Class) where
    -- The fields as attributes of a class, among which `__module__` is a text.
    unfoldable pub class_attrs : List (String × Field) → List (String × (Field ⊎ String))
    unfolding put
    class_attrs fields = put "__module__" (inr "tables.models") (map (λ f. (f.0, inl f.1)) fields)

    unfoldable pub create_model_class : String → List (String × (String × Attrs)) → Result Class
    unfolding parse_fields class_attrs parse_model_name
    create_model_class topic fields =
        parse_fields fields >>= λ attrs. make_class (parse_model_name topic) (class_attrs attrs)

    module _ (loads : Bytes → Result (List (String × (String × Attrs)))) where
      -- except json.JSONDecodeError
      unfoldable pub as_corrupt : {R : Type 0} → Result R → Result R
      as_corrupt (ok value) = ok value
      as_corrupt (err json_error) = err corrupt_model
      as_corrupt (err raised) = err raised

      -- TableMeta.build, of the topic and the bytes that the row holds
      unfoldable pub build : TableMeta → Result Class
      unfolding as_corrupt create_model_class
      build table = as_corrupt (loads table.field_bytes) >>= create_model_class table.topic
