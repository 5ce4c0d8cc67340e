-- ===== src/Tables/Models/Fields.antt =====
-- The descriptions of tables that tables/models.py accepts.
use mathlib.Core.Path.{subst}
use mathlib.Core.Logic.{◌↔◌}
use mote_broker.Prelude.{
  String, Bool, true, false, ◌≡◌, refl, Bool-cases, inl, inr, List, [], ◌∷◌, exists, Option, none,
  some, ◌⊎◌,
}
use mote_broker.Result.{Error, Result, ok, err, type_error, ◌>>=◌}
use mote_broker.Protocols.{Bytes}
use mote_broker.Tables.Models.{
  FieldClass, TableMeta, field_class_map, field_of, put, parse_field, parse_into, parse_fields,
  create_model_class, as_corrupt, build,
}

-- No class was found.
abbrev pub is_none {ℓ} : {A : Type ℓ} → Option A → Bool
is_none none = true
is_none (some value) = false

-- A field has a type without a class.
abbrev pub some_unknown : {Attrs : Type 0} → List (String × (String × Attrs)) → Bool
some_unknown fields = exists (λ f. is_none (field_class_map f.1.0)) fields

-- The result is an exception.
abbrev pub IsRaised : {R : Type 0} → Result R → Type 0
IsRaised (ok value) = ⊥
IsRaised (err raised) = Unit

IsRaised-before :
    {R S : Type 0} (call : Result R) (rest : R → Result S)
    → ((value : R) → IsRaised (rest value))
    → IsRaised (call >>= rest)
IsRaised-before (ok value) rest h = h value
IsRaised-before (err raised) rest h = tt

module _ {Attrs Field : Type 0} (make_field : FieldClass → Attrs → Result Field) where
  field_of-unknown :
      (found : Option FieldClass) (field_attrs : Attrs)
      → is_none found ≡ true
      → field_of make_field found field_attrs ≡ err type_error
  unfolding field_of
  field_of-unknown none field_attrs h = refl
  field_of-unknown (some type_class) field_attrs h = cc

  parse_into-raises :
      (result : List (String × Field)) (fields : List (String × (String × Attrs)))
      → some_unknown fields ≡ true
      → IsRaised (parse_into make_field result fields)
  unfolding parse_into parse_field
  parse_into-raises result [] h = cc
  parse_into-raises result ((field_name, (type_name, field_attrs)) ∷ fields) h =
      elim (Bool-cases (is_none (field_class_map type_name))) [
        | inl e ↦ rw (field_of-unknown (field_class_map type_name) field_attrs e) tt
        | inr e ↦
            IsRaised-before _ _
              λ field. parse_into-raises (put field_name field result) fields (rw e at h)
      ]

  -- Django takes the attributes of every field.
  abbrev pub IsTaken : Type 0
  IsTaken =
      (type_class : FieldClass) (field_attrs : Attrs)
      → (field : Field) × (make_field type_class field_attrs ≡ ok field)

  field_of-known :
      (found : Option FieldClass) (field_attrs : Attrs)
      → IsTaken
      → is_none found ≡ false
      → (field : Field) × (field_of make_field found field_attrs ≡ ok field)
  unfolding field_of
  field_of-known none field_attrs taken h = cc
  field_of-known (some type_class) field_attrs taken h = taken type_class field_attrs

  parse_into-known :
      (result : List (String × Field)) (fields : List (String × (String × Attrs)))
      → IsTaken
      → some_unknown fields ≡ false
      → (attrs : List (String × Field)) × (parse_into make_field result fields ≡ ok attrs)
  unfolding parse_into parse_field
  parse_into-known result [] taken h = (result, refl)
  parse_into-known result ((field_name, (type_name, field_attrs)) ∷ fields) taken h =
      elim (Bool-cases (is_none (field_class_map type_name))) [
        | inl e ↦ let no : true ≡ false = rw e at h in cc
        | inr e ↦
            let field = field_of-known (field_class_map type_name) field_attrs taken e in
            let rest = parse_into-known (put field_name field.0 result) fields taken (rw e at h) in
            (rest.0, rw (field.1, rest.1))
      ]

  -- Where Django takes the attributes of every field, parse_fields returns if each field has a known type,
  -- and raises otherwise.
  pub parse_fields_iff :
      (fields : List (String × (String × Attrs)))
      → IsTaken
      → (some_unknown fields ≡ false)
        ↔ ((attrs : List (String × Field)) × (parse_fields make_field fields ≡ ok attrs))
  unfolding parse_fields
  parse_fields_iff fields taken = (
    λ h. parse_into-known [] fields taken h,
    λ p. elim (Bool-cases (some_unknown fields)) [
      | inl e ↦ absurd (subst IsRaised p.1 (parse_into-raises [] fields e))
      | inr e ↦ e
    ],
  )

raised-eq : {R : Type 0} (call : Result R) → IsRaised call → (raised : Error) × (call ≡ err raised)
raised-eq (ok value) h = absurd h
raised-eq (err raised) h = (raised, refl)

module _ {Attrs Field Class : Type 0} (make_field : FieldClass → Attrs → Result Field)
    (make_class : String → List (String × (Field ⊎ String)) → Result Class)
    (loads : Bytes → Result (List (String × (String × Attrs)))) where
  pub build-raises :
      (table : TableMeta) (fields : List (String × (String × Attrs)))
      → loads table.field_bytes ≡ ok fields
      → some_unknown fields ≡ true
      → (raised : Error) × (build make_field make_class loads table ≡ err raised)
  unfolding build as_corrupt create_model_class parse_fields
  build-raises table fields l h =
      let parsed = raised-eq _ (parse_into-raises make_field [] fields h) in
      (parsed.0, rw (l, parsed.1))
