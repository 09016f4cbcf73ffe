-- ===== src/Person/Phones.antt =====
-- What is stored as a telephone number.
use ticket_system.Base.{
  is_some, some, not, none, Option, or_else, Bool-cases, inl, inr, ◌≡◌, refl, true, [], ◌∷◌, arith,
  filter, ◌∙◌, ap,
}
use ticket_system.Domain.{Text}
use ticket_system.Person.{
  last, first, patronymic, name_field_error, required_dates_error, ok, Person, is_mobile,
  PersonInput, assert_person_input, person_error, phone_field_error, is_digit, from_eight,
  with_seven, normalize_phone_digits, all_digits,
}

-- Only digits are left.
pub filter_digits : (cs : Text) → all_digits (filter is_digit cs) ≡ true
filter_digits [] = refl
filter_digits (c ∷ cs) = ground (arith, filter_digits cs)

pub all_digits-filter : (ds : Text) → all_digits ds ≡ true → filter is_digit ds ≡ ds
all_digits-filter [] h = refl
all_digits-filter (d ∷ ds) h = ground (arith, all_digits-filter ds)

pub from_eight-all_digits : (ds : Text) → all_digits ds ≡ true → all_digits (from_eight ds) ≡ true
from_eight-all_digits [] h = refl
from_eight-all_digits (d ∷ ds) h = ground arith

with_seven-all_digits : (ds : Text) → all_digits ds ≡ true → all_digits (with_seven ds) ≡ true
with_seven-all_digits ds h = ground arith

pub normalize-all_digits : (v : Text) → all_digits (normalize_phone_digits v) ≡ true
unfolding normalize_phone_digits
normalize-all_digits v =
    with_seven-all_digits (from_eight (filter is_digit v))
      (from_eight-all_digits (filter is_digit v) (filter_digits v))

-- A number that has been through both steps is left by them.
settled :
    (ds : Text) → with_seven (from_eight (with_seven (from_eight ds))) ≡ with_seven (from_eight ds)
settled [] = refl
settled (d ∷ ds) = ground arith

-- Normalising a number twice gives the same as normalising it once.
pub normalize_phone_digits_idem :
    (v : Text) → normalize_phone_digits (normalize_phone_digits v) ≡ normalize_phone_digits v
unfolding normalize_phone_digits
normalize_phone_digits_idem v =
    ap (λ ds. with_seven (from_eight ds))
      (all_digits-filter (normalize_phone_digits v) (normalize-all_digits v))
    ∙ settled (filter is_digit v)

mobile_of : (v : Text) → phone_field_error v ≡ none → is_mobile (normalize_phone_digits v) ≡ true
unfolding phone_field_error
mobile_of v h = elim (Bool-cases (is_mobile (normalize_phone_digits v))) [
  | inl fits ↦ fits
  | inr wrong ↦ cc (rw wrong at h)
]

pub fourth :
    {A : Type 0}
    → (a b c d e : Option A) → or_else a (or_else b (or_else c (or_else d e))) ≡ none
    → d ≡ none
fourth none none none none e h = refl
fourth none none none (some x) e h = cc
fourth none none (some x) d e h = cc
fourth none (some x) c d e h = cc
fourth (some x) b c d e h = cc

phone_of : (i : PersonInput) → person_error i ≡ none → phone_field_error i.phone ≡ none
unfolding person_error
phone_of i h =
    fourth (name_field_error i.last_name last) (name_field_error i.first_name first)
      (name_field_error i.patronymic patronymic) (phone_field_error i.phone)
      (required_dates_error i) h

none_of : {A : Type 0} → (o : Option A) → not (is_some o) ≡ true → o ≡ none
none_of none h = refl
none_of (some a) h = cc

value_of : (p q : Person) → ok p ≡ ok q → q ≡ p
value_of p q h = cc

accepted_phone :
    (i : PersonInput) (p : Person)
    → assert_person_input i ≡ ok p
    → (person_error i ≡ none) × (p.phone ≡ normalize_phone_digits i.phone)
unfolding assert_person_input
accepted_phone i p h = elim (Bool-cases (not (is_some (person_error i)))) [
  | inl fine ↦
      (none_of (person_error i) fine, ap (λ (q : Person). q.phone) (value_of _ p (rw fine at h)))
  | inr wrong ↦ cc (rw wrong at h)
]

-- The telephone number of an accepted person consists of digits only, is a mobile number of eleven digits, and is left as it is by another normalisation.
pub assert_person_input-is_mobile :
    (i : PersonInput) (p : Person)
    → assert_person_input i ≡ ok p
    → (filter is_digit p.phone ≡ p.phone)
      × (is_mobile p.phone ≡ true)
      × (normalize_phone_digits p.phone ≡ p.phone)
assert_person_input-is_mobile i p h =
    let (fine, same) = accepted_phone i p h in
    (
      rw same (all_digits-filter (normalize_phone_digits i.phone) (normalize-all_digits i.phone)),
      rw same (mobile_of i.phone (phone_of i fine)),
      rw same (normalize_phone_digits_idem i.phone),
    )
