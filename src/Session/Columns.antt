-- ===== src/Session/Columns.antt =====
-- The columns of an entity, as `_encode_pending` reads them: the four labels of a protected class, and its fields.
use datacrystal.Base.{
  String, Bool, true, false, List, [], ◌∷◌, none, some, ◌≡◌, refl, ◌⊎◌, ◌==◌, ◌&&◌, ◌||◌,
  Bool-cases, inl, inr, string_eq, ==_iff, if◌then◌else◌,
}
use datacrystal.Errors.{ok, ok-inj, >>=-eq-ok}
use datacrystal.Permissions.{Labels}
use datacrystal.Session.Live.{
  Value, number, sequence, numbers, Field, Live, label_column, field_value, column_value, attribute,
  attributes,
}
use mathlib.Core.Path.{subst}

-- `name in PERM_FIELDS`
abbrev is_label : String → Bool
is_label name =
    name == "_dc_owner"
    || (name == "_dc_groups" || (name == "_dc_read_floor" || name == "_dc_write_floor"))

-- The value of a label column.
abbrev IsLabel : Labels → String → Value → Type 0
IsLabel l name v =
    (name ≡ "_dc_owner") × (v ≡ number l.owner)
    ⊎ (name ≡ "_dc_groups") × (v ≡ sequence (numbers l.groups))
    ⊎ (name ≡ "_dc_read_floor") × (v ≡ number l.read_floor)
    ⊎ (name ≡ "_dc_write_floor") × (v ≡ number l.write_floor)

-- A field has the name and the value.
abbrev Holds : List Field → String → Value → Type 0
Holds [] name v = ⊥
Holds (f ∷ fs) name v = (f.name ≡ name) × (f.value ≡ v) ⊎ Holds fs name v

abbrev IsColumnAs : Bool → Labels → List Field → String → Value → Type 0
IsColumnAs true l fs name v = IsLabel l name v
IsColumnAs false l fs name v = Holds fs name v

-- A value under a name: a label if the class is protected and the name is that of a label, else a field.
abbrev IsColumn : Live → String → Value → Type 0
IsColumn x name v = IsColumnAs (x.type.protected && is_label name) x.labels x.fields name v

abbrev pub AreColumns : Live → List String → List Value → Type 0
AreColumns x [] [] = Unit {0}
AreColumns x [] (v ∷ vs) = ⊥
AreColumns x (name ∷ names) [] = ⊥
AreColumns x (name ∷ names) (v ∷ vs) = IsColumn x name v × AreColumns x names vs

field_value-Holds :
    (fs : List Field) (name : String) (v : Value) → field_value fs name ≡ ok v → Holds fs name v
unfolding field_value
field_value-Holds [] name v h = absurd (cc h)
field_value-Holds (f ∷ fs) name v h = elim (Bool-cases (f.name == name)) [
  | inl y ↦ inl ((==_iff f.name name).0 y, ok-inj (rw y at h))
  | inr n ↦ inr (field_value-Holds fs name v (rw n at h))
]

label_column-lem :
    (l : Labels) (name : String)
    → (is_label name ≡ false) × (label_column l name ≡ none)
      ⊎ (v : Value) × (is_label name ≡ true) × (label_column l name ≡ some v) × IsLabel l name v
unfolding label_column
label_column-lem l name = elim (Bool-cases (name == "_dc_owner")) [
  | inl y ↦ inr (number l.owner, rw y refl, rw y refl, inl ((==_iff name _).0 y, refl))
  | inr a ↦ elim (Bool-cases (name == "_dc_groups")) [
    | inl y ↦ inr (
      sequence (numbers l.groups),
      rw (a, y) refl,
      rw (a, y) refl,
      inr (inl ((==_iff name _).0 y, refl)),
    )
    | inr b ↦ elim (Bool-cases (name == "_dc_read_floor")) [
      | inl y ↦ inr (
        number l.read_floor,
        rw (a, b, y) refl,
        rw (a, b, y) refl,
        inr (inr (inl ((==_iff name _).0 y, refl))),
      )
      | inr c ↦ elim (Bool-cases (name == "_dc_write_floor")) [
        | inl y ↦ inr (
          number l.write_floor,
          rw (a, b, c, y) refl,
          rw (a, b, c, y) refl,
          inr (inr (inr ((==_iff name _).0 y, refl))),
        )
        | inr d ↦ inl (rw (a, b, c, d) refl, rw (a, b, c, d) refl)
      ]
    ]
  ]
]

column_value-IsColumnAs :
    (protected : Bool) (l : Labels) (fs : List Field) (name : String) (v : Value)
    → column_value (if protected then label_column l name else none) fs name ≡ ok v
    → IsColumnAs (protected && is_label name) l fs name v
unfolding column_value
column_value-IsColumnAs false l fs name v h = field_value-Holds fs name v h
column_value-IsColumnAs true l fs name v h = elim (label_column-lem l name) [
  | inl (e, none_else) ↦ rw e (field_value-Holds fs name v (rw none_else at h))
  | inr (w, e, found, is) ↦ rw e (subst (IsLabel l name) (ok-inj (rw found at h)) is)
]

attribute-IsColumn :
    (x : Live) (name : String) (v : Value) → attribute x name ≡ ok v → IsColumn x name v
unfolding attribute
attribute-IsColumn x name v h = column_value-IsColumnAs x.type.protected x.labels x.fields name v h

pub attributes-AreColumns :
    (x : Live) (names : List String) (vs : List Value)
    → attributes x names ≡ ok vs
    → AreColumns x names vs
unfolding attributes
attributes-AreColumns x [] [] h = tt
attributes-AreColumns x [] (v ∷ vs) h = absurd (cc h)
attributes-AreColumns x (name ∷ names) vs h =
    let (v, one, h') = >>=-eq-ok (attribute x name) _ h in
    let (vs', rest, h'') = >>=-eq-ok (attributes x names) _ h' in
    subst (AreColumns x (name ∷ names)) (ok-inj h'')
      (attribute-IsColumn x name v one, attributes-AreColumns x names vs' rest)
