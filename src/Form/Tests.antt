-- ===== src/Form/Tests.antt =====
-- Runs of the form.
use ticket_system.Base.{
  ◌&&◌, length, ltb, if◌then◌else◌, ◌≡◌, refl, ◌++◌, none, some, true, [], ◌∷◌,
}
use ticket_system.Domain.{Text, rf}
use ticket_system.Queue.Store.{ok}
use ticket_system.Person.{
  starts_with, seven, assert_person_input, trim, name_field_error, name_pattern, matches_from,
  is_letter, is_space,
}
use ticket_system.Person.Tests.{family, given, father}
use ticket_system.Form.{
  without_last, same_text, ContactFields, contact_fields_error, phone_digits_error,
  chosen_dates_error, format_phone_input, normalize_typed_digits, write_digits,
}
use ticket_system.Form.Server.{sent, contact_fields_error-assert_person_input}
use ticket_system.Form.Written.{format_phone_input-normalize_typed_digits}

abbrev filled : ContactFields
filled = record {
  last_name = family;
  first_name = given;
  patronymic_name = father;
  phone_digits = 55 ∷ 57 ∷ 49 ∷ 50 ∷ 51 ∷ 52 ∷ 53 ∷ 54 ∷ 55 ∷ 56 ∷ 57 ∷ [];
  chosen_country = some rf;
  departure_date = some (49 ∷ []);
  arrival_date = some (50 ∷ []);
  require_travel_dates = true;
}

no_error : contact_fields_error filled ≡ none
unfolding contact_fields_error name_field_error name_pattern matches_from is_letter trim is_space
    phone_digits_error chosen_dates_error
no_error = refl

contact_fields_error-assert_person_input_example :
    assert_person_input (sent filled)
    ≡ ok (record {
      full_name = trim family ++ 32 ∷ trim given ++ 32 ∷ trim father;
      phone = filled.phone_digits;
    })
contact_fields_error-assert_person_input_example =
    contact_fields_error-assert_person_input filled no_error

-- `8912` becomes `+7 (912) `.
four_digits :
    format_phone_input (56 ∷ 57 ∷ 49 ∷ 50 ∷ []) [] ≡ 43 ∷ 55 ∷ 32 ∷ 40 ∷ 57 ∷ 49 ∷ 50 ∷ 41 ∷ 32 ∷ []
unfolding format_phone_input normalize_typed_digits write_digits
four_digits = refl

abbrev dialled_short : Text
dialled_short = 56 ∷ 57 ∷ 49 ∷ 50 ∷ []

starts_seven : starts_with seven (normalize_typed_digits dialled_short) ≡ true
unfolding normalize_typed_digits
starts_seven = refl

-- The last digit goes with the separator that a backspace has taken.
format_phone_input-normalize_typed_digits_example :
    normalize_typed_digits (format_phone_input dialled_short (dialled_short ++ 41 ∷ [])) ≡ (
      if ltb (length dialled_short) (length (dialled_short ++ 41 ∷ []))
        && same_text
            (normalize_typed_digits dialled_short)
            (normalize_typed_digits (dialled_short ++ 41 ∷ []))
        && ltb 1 (length (normalize_typed_digits dialled_short))
      then without_last (normalize_typed_digits dialled_short)
      else normalize_typed_digits dialled_short)
format_phone_input-normalize_typed_digits_example =
    format_phone_input-normalize_typed_digits dialled_short (dialled_short ++ 41 ∷ []) starts_seven
