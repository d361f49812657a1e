-- ===== src/Models/Status.antt =====
-- `updateStatus` of packages/db/src/models/job.js: which times it sets.
use infernet_protocol.Common.{
  ◌≡◌, refl, ap, ◌∙◌, inl, inr, Bool, true, false, Bool-cases, [], ◌∷◌, String, keep, map,
  if◌then◌else◌,
}
use infernet_protocol.Common.Js.{Js, str, Fields, get_field}
use infernet_protocol.Engine.Protocol.{set_field, spread}
use infernet_protocol.Models.Rows.{Table}
use infernet_protocol.Models.Jobs.{assigned_now, completed_now, status_patch}
use infernet_protocol.Models.Values.{has_key, IsDistinct, get_field-spread}

none_patched :
    (p : Fields → Bool) (f : Fields → Fields) (row : Fields) (rows : Table)
    → keep p rows ≡ []
    → map (λ r. if p r then f r else r) rows ≡ map (λ r. if p r then row else r) rows
none_patched p f row [] h = refl
none_patched p f row (x ∷ xs) h = elim (Bool-cases (p x)) [
  | inl e ↦ let wrong : x ∷ keep p xs ≡ [] = rw e at h in cc
  | inr e ↦ rw e (ap (λ t. x ∷ t) (none_patched p f row xs (rw e at h)))
]

-- Where one row passes, the patch of each row that passes is the patch of that row.
pub one_patched :
    (p : Fields → Bool) (f : Fields → Fields) (old : Fields) (rows : Table)
    → keep p rows ≡ old ∷ []
    → map (λ r. if p r then f r else r) rows ≡ map (λ r. if p r then f old else r) rows
one_patched p f old [] h = cc
one_patched p f old (x ∷ xs) h = elim (Bool-cases (p x)) [
  | inl e ↦
      let found : x ∷ keep p xs ≡ old ∷ [] = rw e at h in
      let same : x ≡ old = cc in
      let rest : keep p xs ≡ [] = cc in
      rw e (
        ap (λ y. f y ∷ map (λ r. if p r then f r else r) xs) same
        ∙ ap (λ t. f old ∷ t) (none_patched p f (f old) xs rest))
  | inr e ↦ rw e (ap (λ t. x ∷ t) (one_patched p f old xs (rw e at h)))
]

abbrev pub changes : String → String → Bool → Bool → Fields
changes now status over unassigned =
    completed_now over now (assigned_now unassigned now (status_patch now status))

-- The four columns after the update.
abbrev pub HasTimes : String → String → Bool → Bool → Fields → Fields → Type 0
HasTimes now status over unassigned old row =
    (get_field "status" row ≡ str status)
    × (get_field "updated_at" row ≡ str now)
    × (get_field "completed_at" row ≡ (if over then str now else get_field "completed_at" old))
    × (get_field "assigned_at" row ≡ (if unassigned then str now else get_field "assigned_at" old))

pub changes-HasTimes :
    (now status : String) (over unassigned : Bool) (old : Fields)
    → HasTimes now status over unassigned old (spread old (changes now status over unassigned))
unfolding set_field
changes-HasTimes now status over unassigned old = (
  get_field-spread "status" old (changes now status over unassigned) (distinct over unassigned)
      ∙ set over unassigned,
  get_field-spread "updated_at" old (changes now status over unassigned) (distinct over unassigned)
      ∙ bumped over unassigned,
  get_field-spread "completed_at" old (changes now status over unassigned)
        (distinct over unassigned)
      ∙ ended over unassigned,
  get_field-spread "assigned_at" old (changes now status over unassigned) (distinct over unassigned)
      ∙ begun over unassigned,
)
  where
    distinct : (o u : Bool) → IsDistinct (changes now status o u)
    distinct true true = (refl, (refl, (refl, (refl, tt))))
    distinct true false = (refl, (refl, (refl, tt)))
    distinct false true = (refl, (refl, (refl, tt)))
    distinct false false = (refl, (refl, tt))

    read : String → Bool → Bool → Js
    read k o u =
        if has_key k (changes now status o u)
        then get_field k (changes now status o u)
        else get_field k old

    set : (o u : Bool) → read "status" o u ≡ str status
    set true true = refl
    set true false = refl
    set false true = refl
    set false false = refl

    bumped : (o u : Bool) → read "updated_at" o u ≡ str now
    bumped true true = refl
    bumped true false = refl
    bumped false true = refl
    bumped false false = refl

    ended :
        (o u : Bool)
        → read "completed_at" o u ≡ (if o then str now else get_field "completed_at" old)
    ended true true = refl
    ended true false = refl
    ended false true = refl
    ended false false = refl

    begun :
        (o u : Bool) → read "assigned_at" o u ≡ (if u then str now else get_field "assigned_at" old)
    begun true true = refl
    begun true false = refl
    begun false true = refl
    begun false false = refl
