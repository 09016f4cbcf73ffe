-- ===== src/Person/Tests.antt =====
-- Runs of the checks of a person.
use ticket_system.Base.{◌≡◌, refl, ◌↔◌, true, false, [], ◌∷◌, none, some, filter}
use ticket_system.Domain.{Text, rf}
use ticket_system.Queue.Store.{ok}
use ticket_system.Person.{
  PersonInput, Person, name_pattern, matches_from, is_letter, is_digit, is_mobile,
  normalize_phone_digits, assert_person_input, person_error, required_dates_error, name_field_error,
  phone_field_error, trim, is_space,
}
use ticket_system.Person.Names.{Name, name_pattern-Name}
use ticket_system.Person.Phones.{normalize_phone_digits_idem, assert_person_input-is_mobile}

abbrev pub family : Text
family = 32 ∷ 1050 ∷ 1080 ∷ 1084 ∷ []

abbrev pub given : Text
given = 1040 ∷ 1085 ∷ 1085 ∷ 1072 ∷ 45 ∷ 1045 ∷ 1074 ∷ 1072 ∷ []

abbrev pub father : Text
father = 1051 ∷ 1080 ∷ []

abbrev pub dialled : Text
dialled = 56 ∷ 32 ∷ 40 ∷ 57 ∷ 49 ∷ 50 ∷ 41 ∷ 32 ∷ 51 ∷ 52 ∷ 53 ∷ 45 ∷ 54 ∷ 55 ∷ 45 ∷ 56 ∷ 57 ∷ []

abbrev entered : PersonInput
entered = record {
  last_name = family;
  first_name = given;
  patronymic = father;
  phone = dialled;
  country = some rf;
  departure_date = none;
  arrival_date = none;
  require_travel_dates = false;
}

abbrev stored : Person
stored = record {
  full_name =
      1050 ∷ 1080 ∷ 1084 ∷ 32 ∷ 1040 ∷ 1085 ∷ 1085 ∷ 1072 ∷ 45 ∷ 1045 ∷ 1074 ∷ 1072 ∷ 32 ∷ 1051
      ∷ 1080 ∷ [];
  phone = 55 ∷ 57 ∷ 49 ∷ 50 ∷ 51 ∷ 52 ∷ 53 ∷ 54 ∷ 55 ∷ 56 ∷ 57 ∷ [];
}

accepted : assert_person_input entered ≡ ok stored
unfolding assert_person_input person_error required_dates_error name_field_error name_pattern
    matches_from is_letter trim is_space phone_field_error is_mobile normalize_phone_digits
accepted = refl

assert_person_input-is_mobile_example :
    (filter is_digit stored.phone ≡ stored.phone)
    × (is_mobile stored.phone ≡ true)
    × (normalize_phone_digits stored.phone ≡ stored.phone)
assert_person_input-is_mobile_example = assert_person_input-is_mobile entered stored accepted

name_pattern-Name_example : (name_pattern given ≡ true) ↔ Name given
name_pattern-Name_example = name_pattern-Name given

normalize_phone_digits_idem_example :
    normalize_phone_digits (normalize_phone_digits dialled) ≡ normalize_phone_digits dialled
normalize_phone_digits_idem_example = normalize_phone_digits_idem dialled
