-- ===== src/Models/Values.antt =====
-- The properties of an object after some are set.
use infernet_protocol.Common.{
  ◌≡◌, refl, sym, subst, ◌∙◌, inl, inr, Bool, true, false, not, ◌&&◌, ◌||◌, Bool-cases, [], ◌∷◌,
  String, str_eq, eq_iff, arith, if◌then◌else◌,
}
use infernet_protocol.Common.Js.{Js, undefined, Fields, end, field, get_field}
use infernet_protocol.Engine.Protocol.{set_field, spread}
use infernet_protocol.Models.Rows.{first_defined, add_defined, Columns, pick_columns}

pub get_field-set_field :
    (k j : String) (v : Js) (fs : Fields)
    → get_field j (set_field k v fs) ≡ (if str_eq k j then v else get_field j fs)
unfolding set_field
get_field-set_field k j v end = refl
get_field-set_field k j v (field i w fs) =
    ground (arith, eq_iff k j, eq_iff i k, eq_iff i j, get_field-set_field k j v fs)

-- Whether an object has a property.
abbrev pub has_key : String → Fields → Bool
has_key k end = false
has_key k (field j v fs) = str_eq j k || has_key k fs

abbrev pub IsDistinct : Fields → Type 0
IsDistinct end = Unit {0}
IsDistinct (field k v fs) = (has_key k fs ≡ false) × IsDistinct fs

has_key-set_field :
    (k j : String) (v : Js) (fs : Fields)
    → has_key j (set_field k v fs) ≡ (str_eq k j || has_key j fs)
unfolding set_field
has_key-set_field k j v end = refl
has_key-set_field k j v (field i w fs) =
    ground (arith, eq_iff k j, eq_iff i k, eq_iff i j, has_key-set_field k j v fs)

pub set_field-IsDistinct :
    (k : String) (v : Js) (fs : Fields) → IsDistinct fs → IsDistinct (set_field k v fs)
unfolding set_field
set_field-IsDistinct k v end h = (refl, tt)
set_field-IsDistinct k v (field i w fs) (new, h) = elim (Bool-cases (str_eq i k)) [
  | inl e ↦ rw e (new, h)
  | inr e ↦ rw e (
    has_key-set_field k i v fs ∙ other (str_eq k i) (has_key i fs) (turned e) new,
    set_field-IsDistinct k v fs h,
  )
]
  where
    turned : str_eq i k ≡ false → str_eq k i ≡ false
    turned e = ground (arith, eq_iff i k, eq_iff k i)

    other : (a b : Bool) → a ≡ false → b ≡ false → (a || b) ≡ false
    other a b e h = ground arith

-- `{ ...base, ...more }` has the properties of `more`, and else those of `base`.
pub get_field-spread :
    (k : String) (base more : Fields)
    → IsDistinct more
    → get_field k (spread base more)
      ≡ (if has_key k more then get_field k more else get_field k base)
unfolding spread
get_field-spread k base end h = refl
get_field-spread k base (field j v fs) (new, h) =
    get_field-spread k (set_field j v base) fs h ∙ rest
  where
    rest : (if has_key k fs then get_field k fs else get_field k (set_field j v base)) ≡ (
        if str_eq j k || has_key k fs
        then (if str_eq j k then v else get_field k fs)
        else get_field k base)
    rest = elim (Bool-cases (str_eq j k)) [
      | inl e ↦
          let none_later : has_key k fs ≡ false =
            subst (λ x. has_key x fs ≡ false) ((eq_iff j k).0 e) new in
          rw (e, none_later, get_field-set_field j k v base, e) refl
      | inr e ↦ rw (e, get_field-set_field j k v base, e) refl
    ]

-- The names of the columns.
abbrev pub is_column : String → Columns → Bool
is_column k [] = false
is_column k ((c, others) ∷ cols) = str_eq c k || is_column k cols

-- No column is there twice.
abbrev pub are_distinct : Columns → Bool
are_distinct [] = true
are_distinct ((c, others) ∷ cols) = not (is_column c cols) && are_distinct cols

-- What is set of a column.
abbrev pub column_value : Columns → String → Fields → Js
column_value [] k input = undefined
column_value ((c, others) ∷ cols) k input =
    let later = column_value cols k input in
    if str_eq c k then first_defined (c ∷ others) input else later

-- What holds of an object, and of it with a property before it, holds with what is defined.
add_defined_rule :
    (Q : Fields → Type 0) (c : String) (v : Js) (fs : Fields)
    → (v ≡ undefined → Q fs)
    → Q (field c v fs)
    → Q (add_defined c v fs)
add_defined_rule Q c undefined fs h k = h refl
add_defined_rule Q c Js.null fs h k = k
add_defined_rule Q c (Js.bool b) fs h k = k
add_defined_rule Q c (Js.num n) fs h k = k
add_defined_rule Q c (Js.str t) fs h k = k
add_defined_rule Q c (Js.arr xs) fs h k = k
add_defined_rule Q c (Js.obj o) fs h k = k

or_right : (a b : Bool) → b ≡ true → (a || b) ≡ true
or_right a b h = ground arith

either : (a b c : Bool) → (b ≡ true → c ≡ true) → (a || b) ≡ true → (a || c) ≡ true
either true b c f h = refl
either false b c f h = f h

has_key-pick_columns :
    (cols : Columns) (k : String) (input : Fields)
    → has_key k (pick_columns cols input) ≡ true
    → is_column k cols ≡ true
unfolding pick_columns
has_key-pick_columns [] k input = λ h. h
has_key-pick_columns ((c, others) ∷ cols) k input =
    add_defined_rule (λ fs. has_key k fs ≡ true → (str_eq c k || is_column k cols) ≡ true) c
      (first_defined (c ∷ others) input) (pick_columns cols input)
      (λ u h. or_right (str_eq c k) (is_column k cols) (has_key-pick_columns cols k input h))
      (either (str_eq c k) (has_key k (pick_columns cols input)) (is_column k cols)
        (has_key-pick_columns cols k input))

new_column :
    (cols : Columns) (c : String) (input : Fields)
    → is_column c cols ≡ false
    → has_key c (pick_columns cols input) ≡ false
new_column cols c input h = elim (Bool-cases (has_key c (pick_columns cols input))) [
  | inl e ↦ let wrong = has_key-pick_columns cols c input e in cc
  | inr e ↦ e
]

distinct_parts : (a b : Bool) → (not a && b) ≡ true → (a ≡ false) × (b ≡ true)
distinct_parts true b h = cc
distinct_parts false b h = (refl, h)

pub pick_columns-IsDistinct :
    (cols : Columns) (input : Fields)
    → are_distinct cols ≡ true
    → IsDistinct (pick_columns cols input)
unfolding pick_columns
pick_columns-IsDistinct [] input h = tt
pick_columns-IsDistinct ((c, others) ∷ cols) input h =
    let (new, rest) = distinct_parts (is_column c cols) (are_distinct cols) h in
    let later = pick_columns-IsDistinct cols input rest in
    add_defined_rule IsDistinct c (first_defined (c ∷ others) input) (pick_columns cols input)
      (λ u. later) (new_column cols c input new, later)

absent : (k : String) (fs : Fields) → has_key k fs ≡ false → get_field k fs ≡ undefined
absent k end h = refl
absent k (field j v fs) h = ground (arith, absent k fs)

-- Each column is set to the first of its properties that is defined, and no other is set.
pub get_field-pick_columns :
    (cols : Columns) (k : String) (input : Fields)
    → are_distinct cols ≡ true
    → get_field k (pick_columns cols input) ≡ column_value cols k input
unfolding pick_columns
get_field-pick_columns [] k input h = refl
get_field-pick_columns ((c, others) ∷ cols) k input h =
    let (new, rest) = distinct_parts (is_column c cols) (are_distinct cols) h in
    let later = get_field-pick_columns cols k input rest in
    add_defined_rule
      (λ fs.
        get_field k fs
        ≡ (if str_eq c k then first_defined (c ∷ others) input else column_value cols k input))
      c (first_defined (c ∷ others) input) (pick_columns cols input)
      (λ u. elim (Bool-cases (str_eq c k)) [
        | inl e ↦ rw e (
            absent k (pick_columns cols input) (
              new_column cols k input
                (subst (λ x. is_column x cols ≡ false) ((eq_iff c k).0 e) new))
            ∙ sym u)
        | inr e ↦ rw e later
      ])
      (elim (Bool-cases (str_eq c k)) [ inl e ↦ rw e refl | inr e ↦ rw e later ])
