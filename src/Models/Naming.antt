-- ===== src/Models/Naming.antt =====
-- packages/db/src/models: which property of an object sets which column. A column takes the property
-- of its name, and else the one of its name in camel case.
use text.Mathlib.TextEquality.{Char-path}
use Prim.Native.Char.{code}
use Prim.Native.String.{String}
use infernet_protocol.Common.{
  ℕ, ◌-◌, ◌≡◌, refl, sym, ap, subst, ◌∙◌, inl, inr, Bool-cases, List, [], ◌∷◌, str_eq, eq_iff, any,
  All, ◌==◌, if◌then◌else◌,
}
use infernet_protocol.Common.Js.{
  Js, undefined, null, bool, num, str, arr, obj, Fields, get_field, codes,
}
use infernet_protocol.Models.Rows.{Columns, first_defined, pick_columns}
use infernet_protocol.Models.Jobs.{job_columns, pick_job_columns}
use infernet_protocol.Models.Kinds.{provider_columns, client_columns}
use infernet_protocol.Models.Values.{column_value, get_field-pick_columns}

-- The code points of a name in camel case: an underscore is dropped and the small letter after it
-- becomes the capital.
abbrev pub camel : List ℕ → List ℕ
camel [] = []
camel (c ∷ []) = c ∷ []
camel (c ∷ d ∷ cs) =
    let rest = camel cs in
    let kept = camel (d ∷ cs) in if c == 95 then (d - 32) ∷ rest else c ∷ kept

abbrev pub IsCamelOf : String → String → Type 0
IsCamelOf k j = codes j ≡ camel (codes k)

-- `v`, or `w` where it is undefined.
abbrev pub defined_or : Js → Js → Js
defined_or undefined w = w
defined_or v w = v

abbrev pub job_names : List String
job_names =
    "title" ∷ "status" ∷ "payment_offer" ∷ "model_name" ∷ "client_name" ∷ "type" ∷ "client_id"
    ∷ "provider_id" ∷ "aggregator_id" ∷ "input_spec" ∷ "result" ∷ "error" ∷ "payment_coin"
    ∷ "payment_tx_hash" ∷ "payment_status" ∷ "payment_invoice" ∷ "assigned_at" ∷ "completed_at"
    ∷ "updated_at" ∷ []

abbrev pub provider_names : List String
provider_names =
    "name" ∷ "status" ∷ "gpu_model" ∷ "price" ∷ "reputation" ∷ "node_id" ∷ "public_key" ∷ "address"
    ∷ "port" ∷ "specs" ∷ "last_seen" ∷ []

abbrev pub client_names : List String
client_names =
    "name" ∷ "status" ∷ "budget_usd" ∷ "node_id" ∷ "public_key" ∷ "address" ∷ "last_seen" ∷ []

codes-injective : (s t : String) → codes s ≡ codes t → s ≡ t
codes-injective String.[] String.[] h = refl
codes-injective String.[] (String.◌∷◌ c t) h = cc
codes-injective (String.◌∷◌ c s) String.[] h = cc
codes-injective (String.◌∷◌ c s) (String.◌∷◌ d t) h =
    let head : code c ≡ code d = cc in
    let tail : codes s ≡ codes t = cc in
    ap (λ x. String.◌∷◌ x s) (Char-path c d head) ∙ ap (String.◌∷◌ d) (codes-injective s t tail)

-- A column whose only other name is the one in camel case.
abbrev IsCamelColumn : String × List String → Type 0
IsCamelColumn (c, []) = IsCamelOf c c
IsCamelColumn (c, o ∷ []) = IsCamelOf c o
IsCamelColumn (c, o ∷ p ∷ others) = ⊥

first_defined-two :
    (k j : String) (input : Fields)
    → first_defined (k ∷ j ∷ []) input ≡ defined_or (get_field k input) (get_field j input)
first_defined-two k j input = two (get_field k input) (get_field j input)
  where
    two :
        (v w : Js)
        → elim v as (λ _. Js) [
          | undefined ↦ elim w as (λ _. Js) [ undefined ↦ undefined | x ↦ x ]
          | x ↦ x
        ]
          ≡ defined_or v w
    two undefined undefined = refl
    two undefined null = refl
    two undefined (bool b) = refl
    two undefined (num n) = refl
    two undefined (str t) = refl
    two undefined (arr xs) = refl
    two undefined (obj o) = refl
    two null w = refl
    two (bool b) w = refl
    two (num n) w = refl
    two (str t) w = refl
    two (arr xs) w = refl
    two (obj o) w = refl

first_defined-one :
    (k : String) (input : Fields)
    → first_defined (k ∷ []) input ≡ defined_or (get_field k input) (get_field k input)
first_defined-one k input = one (get_field k input)
  where
    one : (v : Js) → elim v as (λ _. Js) [ undefined ↦ undefined | x ↦ x ] ≡ defined_or v v
    one undefined = refl
    one null = refl
    one (bool b) = refl
    one (num n) = refl
    one (str t) = refl
    one (arr xs) = refl
    one (obj o) = refl

first_defined-camel :
    (k j : String) (others : List String) (input : Fields)
    → IsCamelOf k j
    → IsCamelColumn (k, others)
    → first_defined (k ∷ others) input ≡ defined_or (get_field k input) (get_field j input)
first_defined-camel k j [] input h own =
    first_defined-one k input
    ∙ ap (λ x. defined_or (get_field k input) (get_field x input))
        (codes-injective k j (own ∙ sym h))
first_defined-camel k j (o ∷ []) input h own =
    first_defined-two k o input
    ∙ ap (λ x. defined_or (get_field k input) (get_field x input))
        (codes-injective o j (own ∙ sym h))
first_defined-camel k j (o ∷ p ∷ others) input h own = absurd own

column_value-camel :
    (cols : Columns) (k j : String) (input : Fields)
    → All IsCamelColumn cols
    → IsCamelOf k j
    → column_value cols k input ≡ (
        if any (λ (c : String × List String). str_eq c.0 k) cols
        then defined_or (get_field k input) (get_field j input)
        else undefined)
column_value-camel [] k j input a h = refl
column_value-camel ((c, others) ∷ cols) k j input (own, a) h = elim (Bool-cases (str_eq c k)) [
  | inl e ↦
      let same : c ≡ k = (eq_iff c k).0 e in
      rw e (
        ap (λ x. first_defined (x ∷ others) input) same
        ∙ first_defined-camel k j others input h (subst (λ x. IsCamelColumn (x, others)) same own))
  | inr e ↦ rw e (column_value-camel cols k j input a h)
]

-- What a column of a table takes of an object, where `names` are the table's columns.
abbrev pub TakesCamel : List String → String → String → Fields → Fields → Type 0
TakesCamel names k j input picked = get_field k picked ≡ (
    if any (λ c. str_eq c k) names
    then defined_or (get_field k input) (get_field j input)
    else undefined)

-- What a job, a provider and a client store of an object: each of the named columns is set to the
-- property of the column's name, or, where that is undefined, to the property of the column's name in
-- camel case, and no other column is set.
pub pick_columns-TakesCamel :
    (k j : String) (input : Fields)
    → IsCamelOf k j
    → TakesCamel job_names k j input (pick_job_columns input)
      × TakesCamel provider_names k j input (pick_columns provider_columns input)
      × TakesCamel client_names k j input (pick_columns client_columns input)
unfolding pick_job_columns
pick_columns-TakesCamel k j input h = (
  get_field-pick_columns job_columns k input refl
      ∙ column_value-camel job_columns k j input
          (
            refl,
            (
              refl,
              (
                refl,
                (
                  refl,
                  (
                    refl,
                    (
                      refl,
                      (
                        refl,
                        (
                          refl,
                          (
                            refl,
                            (
                              refl,
                              (
                                refl,
                                (refl, (refl, (refl, (refl, (refl, (refl, (refl, (refl, tt)))))))),
                              ),
                            ),
                          ),
                        ),
                      ),
                    ),
                  ),
                ),
              ),
            ),
          )
          h,
  get_field-pick_columns provider_columns k input refl
      ∙ column_value-camel provider_columns k j input
          (refl, (refl, (refl, (refl, (refl, (refl, (refl, (refl, (refl, (refl, (refl, tt)))))))))))
          h,
  get_field-pick_columns client_columns k input refl
      ∙ column_value-camel client_columns k j input
          (refl, (refl, (refl, (refl, (refl, (refl, (refl, tt))))))) h,
)
