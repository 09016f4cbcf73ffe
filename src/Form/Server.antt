-- ===== src/Form/Server.antt =====
-- What the page lets through, the server accepts.
use ticket_system.Base.{
  Option, none, some, or_else, ◌≡◌, refl, true, Bool-cases, inl, inr, [], ◌∷◌, ◌++◌, arith, ap, ◌∙◌,
}
use ticket_system.Domain.{Text, ClientCountry}
use ticket_system.Queue.Store.{ok}
use ticket_system.Person.{
  last, first, patronymic, PersonInput, assert_person_input, person_error, name_field_error,
  phone_field_error, required_dates_error, travel_dates_error, is_mobile, all_digits,
  normalize_phone_digits, trim, or_rf, or_empty, with_seven, from_eight,
}
use ticket_system.Person.Phones.{fourth, all_digits-filter}
use ticket_system.Form.{
  ContactFields, contact_fields_error, contact_dates_error, chosen_dates_error, phone_digits_error,
}

-- The body that the page sends.
abbrev pub sent : ContactFields → PersonInput
sent i = record {
  last_name = i.last_name;
  first_name = i.first_name;
  patronymic = i.patronymic_name;
  phone = i.phone_digits;
  country = i.chosen_country;
  departure_date = i.departure_date;
  arrival_date = i.arrival_date;
  require_travel_dates = i.require_travel_dates;
}

is_mobile-all_digits : (ds : Text) → is_mobile ds ≡ true → all_digits ds ≡ true
unfolding is_mobile
is_mobile-all_digits [] h = refl
is_mobile-all_digits (c ∷ []) h = ground arith
is_mobile-all_digits (c ∷ d ∷ ds) h = ground arith

is_mobile-settled : (ds : Text) → is_mobile ds ≡ true → with_seven (from_eight ds) ≡ ds
unfolding is_mobile
is_mobile-settled [] h = cc
is_mobile-settled (d ∷ ds) h = ground arith

is_mobile-normalize : (ds : Text) → is_mobile ds ≡ true → normalize_phone_digits ds ≡ ds
unfolding normalize_phone_digits
is_mobile-normalize ds h =
    ap (λ t. with_seven (from_eight t)) (all_digits-filter ds (is_mobile-all_digits ds h))
    ∙ is_mobile-settled ds h

phone_digits_error-is_mobile : (ds : Text) → phone_digits_error ds ≡ none → is_mobile ds ≡ true
unfolding phone_digits_error
phone_digits_error-is_mobile ds h = elim (Bool-cases (is_mobile ds)) [
  | inl fits ↦ fits
  | inr wrong ↦ cc (rw wrong at h)
]

is_mobile-phone_field_error : (ds : Text) → is_mobile ds ≡ true → phone_field_error ds ≡ none
unfolding phone_field_error
is_mobile-phone_field_error ds h = rw (is_mobile-normalize ds h, h) refl

chosen_dates_error-travel_dates_error :
    (c : Option ClientCountry) (departure arrival : Text)
    → chosen_dates_error c departure arrival ≡ travel_dates_error (or_rf c) departure arrival
unfolding chosen_dates_error travel_dates_error
chosen_dates_error-travel_dates_error none d a = refl
chosen_dates_error-travel_dates_error (some c) d a = refl

contact_dates_error-required_dates_error :
    (i : ContactFields) → contact_dates_error i ≡ required_dates_error (sent i)
unfolding required_dates_error
contact_dates_error-required_dates_error i =
    rw
      (chosen_dates_error-travel_dates_error i.chosen_country (or_empty i.departure_date)
        (or_empty i.arrival_date))
      refl

-- The fourth of five may be changed for another that is nothing too.
or_else_fourth :
    {A : Type 0}
    → (a b c d d' e e' : Option A) → or_else a (or_else b (or_else c (or_else d e))) ≡ none
    → d' ≡ none
    → e ≡ e'
    → or_else a (or_else b (or_else c (or_else d' e'))) ≡ none
or_else_fourth none none none none d' e e' h gone same = rw gone (rw same at h)
or_else_fourth none none none (some x) d' e e' h gone same = cc
or_else_fourth none none (some x) d d' e e' h gone same = cc
or_else_fourth none (some x) c d d' e e' h gone same = cc
or_else_fourth (some x) b c d d' e e' h gone same = cc

mobile_of_contact :
    (i : ContactFields) → contact_fields_error i ≡ none → is_mobile i.phone_digits ≡ true
unfolding contact_fields_error
mobile_of_contact i h = phone_digits_error-is_mobile i.phone_digits (
    fourth (name_field_error i.last_name last) (name_field_error i.first_name first)
      (name_field_error i.patronymic_name patronymic) (phone_digits_error i.phone_digits)
      (contact_dates_error i) h)

contact_fields_error-person_error :
    (i : ContactFields) → contact_fields_error i ≡ none → person_error (sent i) ≡ none
unfolding contact_fields_error person_error
contact_fields_error-person_error i h =
    or_else_fourth (name_field_error i.last_name last) (name_field_error i.first_name first)
      (name_field_error i.patronymic_name patronymic) (phone_digits_error i.phone_digits)
      (phone_field_error i.phone_digits) (contact_dates_error i) (required_dates_error (sent i)) h
      (is_mobile-phone_field_error i.phone_digits (mobile_of_contact i h))
      (contact_dates_error-required_dates_error i)

-- Fields in which the page finds no error are accepted by the server, which stores the telephone number as the page sends it.
pub contact_fields_error-assert_person_input :
    (i : ContactFields)
    → contact_fields_error i ≡ none
    → assert_person_input (sent i)
      ≡ ok (record {
        full_name = trim i.last_name ++ 32 ∷ trim i.first_name ++ 32 ∷ trim i.patronymic_name;
        phone = i.phone_digits;
      })
unfolding assert_person_input
contact_fields_error-assert_person_input i h =
    rw
      (
        contact_fields_error-person_error i h,
        is_mobile-normalize i.phone_digits (mobile_of_contact i h),
      )
      refl
