-- ===== src/Engine/Links.antt =====
-- How the streams of packages/engine/src/engine-process.js change, with the queues that are open.
use infernet_protocol.Common.{
  ℕ, ◌≡◌, ◌≢◌, refl, sym, ap, subst, ◌∙◌, Bool, true, false, Option, none, some, [], String, ◌==◌,
  str_eq, eq_iff, length, if◌then◌else◌, if_rule, inl, inr, Bool-cases, arith,
}
use infernet_protocol.Common.Maps.{lookup, insert, delete, lookup-insert, lookup-delete}
use infernet_protocol.Engine.Process.{Process}
use infernet_protocol.Engine.Linked.{Linked, is_open}

-- What the parts of a process say of its links.
pub Linked-same :
    (p q : Process)
    → q.streams ≡ p.streams
    → q.closed ≡ p.closed
    → ((j : ℕ) → is_open q.queues j ≡ is_open p.queues j)
    → Linked p
    → Linked q
Linked-same p q s c o l = record {
  live = λ id i h. o i ∙ l.live id i (ap (lookup id) (sym s) ∙ h);
  known = λ i h. let (id, at) = l.known i (sym (o i) ∙ h) in (id, ap (lookup id) s ∙ at);
  apart = λ id j i h k. l.apart id j i (ap (lookup id) (sym s) ∙ h) (ap (lookup j) (sym s) ∙ k);
  gone = λ h. s ∙ l.gone (sym c ∙ h);
}

-- A test that chooses between nothing and something has chosen.
pub chosen_some :
    {A : Type 0} (b : Bool) (o : Option A) (a : A)
    → (if b then none else o) ≡ some a
    → (b ≡ false) × (o ≡ some a)
chosen_some true o a h = cc
chosen_some false o a h = (refl, h)

pub chosen_true : (b c : Bool) → (if b then false else c) ≡ true → (b ≡ false) × (c ≡ true)
chosen_true true c h = cc
chosen_true false c h = (refl, h)

str_ne : (a b : String) → str_eq a b ≡ false → a ≢ b
str_ne a b h = ground (arith, eq_iff a b)

str_eq-path : (a b : String) → str_eq a b ≡ true → a ≡ b
str_eq-path a b h = ground (arith, eq_iff a b)

pub no_stream : (p : Process) (id : String) (i : ℕ) → lookup id p.streams ≡ some i → p.streams ≢ []
unfolding lookup
no_stream p id i at e = let wrong : none ≡ some i = sym (ap (lookup id) e) ∙ at in cc

two_streams :
    (p : Process) (id k : String) (i j : ℕ)
    → lookup id p.streams ≡ some i
    → lookup k p.streams ≡ some j
    → i == j ≡ false
    → str_eq id k ≢ true
two_streams p id k i j at there apart e =
    let one = str_eq-path id k e in
    let here : lookup id p.streams ≡ some j =
      subst (λ x. lookup x p.streams ≡ some j) (sym one) there in
    let same : i ≡ j = cc in ground arith

absent_stream :
    (p : Process) (id k : String) (j : ℕ)
    → lookup id p.streams ≡ none
    → lookup k p.streams ≡ some j
    → str_eq id k ≢ true
absent_stream p id k j absent there e =
    let one = str_eq-path id k e in
    let here : lookup id p.streams ≡ some j =
      subst (λ x. lookup x p.streams ≡ some j) (sym one) there in
    let wrong : none ≡ some j = sym absent ∙ here in cc

ended_live :
    (p q : Process) (id : String) (i : ℕ)
    → lookup id p.streams ≡ some i
    → Linked p
    → (j : String) (k : ℕ) → lookup j q.streams ≡ (if str_eq id j then none else lookup j p.streams)
    → is_open q.queues k ≡ (if i == k then false else is_open p.queues k)
    → lookup j q.streams ≡ some k
    → is_open q.queues k ≡ true
ended_live p q id i at l j k see o h =
    let (other_id, was) = chosen_some (str_eq id j) (lookup j p.streams) k (sym see ∙ h) in
    elim (Bool-cases (i == k)) [
      | inl e ↦
          let same : i ≡ k = ground arith in
          elim (str_ne id j other_id
            (l.apart id j i at (subst (λ n. lookup j p.streams ≡ some n) (sym same) was))) [ ]
      | inr e ↦ o ∙ rw e (l.live j k was)
    ]

ended_known :
    (p q : Process) (id : String) (i : ℕ)
    → lookup id p.streams ≡ some i
    → Linked p
    → (j : ℕ)
    → ((k : String) → lookup k q.streams ≡ (if str_eq id k then none else lookup k p.streams))
    → (i == j ≡ false) × (is_open p.queues j ≡ true)
    → (k : String) × (lookup k q.streams ≡ some j)
ended_known p q id i at l j see (apart, was) =
    let (k, there) = l.known j was in
    (
      k,
      elim (Bool-cases (str_eq id k)) [
        | inl e ↦ elim (two_streams p id k i j at there apart e) [ ]
        | inr e ↦ see k ∙ rw e there
      ],
    )

-- One stream that ends is forgotten.
pub Linked-ended :
    (p q : Process) (id : String) (i : ℕ)
    → lookup id p.streams ≡ some i
    → q.streams ≡ delete id p.streams
    → q.closed ≡ p.closed
    → ((j : ℕ) → is_open q.queues j ≡ (if i == j then false else is_open p.queues j))
    → Linked p
    → Linked q
Linked-ended p q id i at s c o l =
    let see : (k : String)
        → lookup k q.streams ≡ (if str_eq id k then none else lookup k p.streams) =
      λ k. ap (lookup k) s ∙ lookup-delete id k p.streams in
    record {
      live = λ j k h. ended_live p q id i at l j k (see j) (o k) h;
      known = λ j h. ended_known p q id i at l j see (chosen_true (i == j) _ (sym (o j) ∙ h));
      apart = λ j k n h e.
          l.apart j k n (chosen_some (str_eq id j) _ n (sym (see j) ∙ h)).1
            (chosen_some (str_eq id k) _ n (sym (see k) ∙ e)).1;
      gone = λ h. elim (no_stream p id i at (l.gone (sym c ∙ h))) [ ];
    }

added_live :
    (p q : Process) (id : String)
    → Linked p
    → (j : String) (k : ℕ)
    → lookup j q.streams ≡ (if str_eq id j then some (length p.queues) else lookup j p.streams)
    → is_open q.queues k ≡ (if length p.queues == k then true else is_open p.queues k)
    → lookup j q.streams ≡ some k
    → is_open q.queues k ≡ true
added_live p q id l j k see o h = elim (Bool-cases (str_eq id j)) [
  | inl e ↦
      let place : some (length p.queues) ≡ some k = sym (rw e at see) ∙ h in
      let same : length p.queues ≡ k = cc in
      let found : length p.queues == k ≡ true = ground arith in o ∙ rw found refl
  | inr e ↦
      let was = l.live j k (sym (rw e at see) ∙ h) in
      o ∙ if_rule (λ b. b ≡ true) (length p.queues == k) true (is_open p.queues k) refl was
]

added_known :
    (p q : Process) (id : String)
    → lookup id p.streams ≡ none
    → Linked p
    → (j : ℕ)
    → ((k : String)
        → lookup k q.streams ≡ (if str_eq id k then some (length p.queues) else lookup k p.streams))
    → is_open q.queues j ≡ (if length p.queues == j then true else is_open p.queues j)
    → is_open q.queues j ≡ true
    → (k : String) × (lookup k q.streams ≡ some j)
added_known p q id absent l j see o h = elim (Bool-cases (length p.queues == j)) [
  | inl e ↦
      let self : str_eq id id ≡ true = ground (arith, eq_iff id id) in
      let same : length p.queues ≡ j = ground arith in (id, see id ∙ rw self (ap some same))
  | inr e ↦
      let (k, there) = l.known j (sym (rw e at o) ∙ h) in
      (
        k,
        elim (Bool-cases (str_eq id k)) [
          | inl one ↦ elim (absent_stream p id k j absent there one) [ ]
          | inr two ↦ see k ∙ rw two there
        ],
      )
]

-- A place that no queue has is no stream's.
added_place :
    (p : Process) (k : String) (n : ℕ)
    → is_open p.queues (length p.queues) ≡ false
    → Linked p
    → some (length p.queues) ≡ some n
    → lookup k p.streams ≢ some n
added_place p k n fresh l place there =
    let same : length p.queues ≡ n = cc in
    let used = l.live k n there in
    let unused = subst (λ m. is_open p.queues m ≡ false) same fresh in
    let wrong : true ≡ false = sym used ∙ unused in cc

added_apart :
    (p q : Process) (id : String)
    → is_open p.queues (length p.queues) ≡ false
    → Linked p
    → (j k : String) (n : ℕ)
    → ((x : String)
        → lookup x q.streams ≡ (if str_eq id x then some (length p.queues) else lookup x p.streams))
    → lookup j q.streams ≡ some n
    → lookup k q.streams ≡ some n
    → j ≡ k
added_apart p q id fresh l j k n see h e = elim (Bool-cases (str_eq id j)) [
  | inl a ↦
      let first : id ≡ j = ground (arith, eq_iff id j) in
      let place = sym (see j ∙ rw a refl) ∙ h in
      elim (Bool-cases (str_eq id k)) [
        | inl b ↦ sym (str_eq-path id j a) ∙ str_eq-path id k b
        | inr b ↦ elim (added_place p k n fresh l place (sym (see k ∙ rw b refl) ∙ e)) [ ]
      ]
  | inr a ↦
      let was = sym (see j ∙ rw a refl) ∙ h in
      elim (Bool-cases (str_eq id k)) [
        | inl b ↦ elim (added_place p j n fresh l (sym (see k ∙ rw b refl) ∙ e) was) [ ]
        | inr b ↦ l.apart j k n was (sym (see k ∙ rw b refl) ∙ e)
      ]
]

-- A stream under a new id is added.
pub Linked-added :
    (p q : Process) (id : String)
    → lookup id p.streams ≡ none
    → p.closed ≡ false
    → q.streams ≡ insert id (length p.queues) p.streams
    → q.closed ≡ p.closed
    → ((j : ℕ) → is_open q.queues j ≡ (if length p.queues == j then true else is_open p.queues j))
    → is_open p.queues (length p.queues) ≡ false
    → Linked p
    → Linked q
Linked-added p q id absent running s c o fresh l = record {
  live =
      λ j k h. added_live p q id l j k (ap (lookup j) s ∙ lookup-insert id j _ p.streams) (o k) h;
  known = λ j h.
      added_known p q id absent l j (λ k. ap (lookup k) s ∙ lookup-insert id k _ p.streams) (o j) h;
  apart = λ j k n h e.
      added_apart p q id fresh l j k n (λ x. ap (lookup x) s ∙ lookup-insert id x _ p.streams) h e;
  gone = λ h. let wrong : true ≡ false = sym h ∙ c ∙ running in cc;
}
