-- ===== src/Form.antt =====
-- apps/client-web/src/person.ts and phone.ts: what the page checks before it sends a person's fields,
-- and how it writes a telephone number. The check of a name is the server's, of Person.
pub mod Server
pub mod Written
mod Tests
use ticket_system.Base.{
  ℕ, zero, suc, Bool, true, false, not, ◌&&◌, ◌||◌, List, [], ◌∷◌, ◌++◌, Option, none, some, ltb,
  leb, ◌==◌, if◌then◌else◌, or_else, filter, length, limit,
}
use Prim.Native.String.{String}
use ticket_system.Domain.{Text, ClientCountry, cn, country_eq}
use ticket_system.Texts.{same_text}
use ticket_system.Person.{
  last, first, patronymic, name_field_error, is_mobile, text_before, is_empty, or_empty, is_digit,
  seven, starts_with, from_eight,
}

unfoldable pub phone_digits_error : Text → Option String
unfolding is_mobile
phone_digits_error digits = if is_mobile digits then none else some "Некорректный номер телефона"

-- `''` is no country.
abbrev pub is_china : Option ClientCountry → Bool
is_china none = false
is_china (some c) = country_eq c cn

unfoldable pub chosen_dates_error : Option ClientCountry → Text → Text → Option String
unfolding text_before
chosen_dates_error country departure arrival =
    if is_empty departure || is_empty arrival
    then some "Укажите даты выезда и приезда"
    else if is_china country && not (text_before departure arrival)
    then some "Заграничные выезд оформляются больше одного дня"
    else if text_before arrival departure
    then some "Дата приезда не может быть раньше даты выезда"
    else none

pub record ContactFields : Type 0 where
  pub last_name : Text
  pub first_name : Text
  pub patronymic_name : Text
  pub phone_digits : Text
  pub chosen_country : Option ClientCountry
  pub departure_date : Option Text
  pub arrival_date : Option Text
  pub require_travel_dates : Bool

abbrev pub contact_dates_error : ContactFields → Option String
contact_dates_error i =
    if i.require_travel_dates
    then chosen_dates_error i.chosen_country (or_empty i.departure_date) (or_empty i.arrival_date)
    else none

unfoldable pub contact_fields_error : ContactFields → Option String
unfolding name_field_error phone_digits_error chosen_dates_error
contact_fields_error i = or_else (name_field_error i.last_name last) (
    or_else (name_field_error i.first_name first) (
      or_else (name_field_error i.patronymic_name patronymic)
        (or_else (phone_digits_error i.phone_digits) (contact_dates_error i))))

abbrev pub phone_digits_total : ℕ
phone_digits_total = 11

-- `normalizePhoneDigits` of the page, on the digits that have been typed.
abbrev pub cut_digits : Text → Text
cut_digits digits =
    if starts_with seven digits
    then limit phone_digits_total digits
    else if length digits == 10
    then seven ∷ digits
    else limit phone_digits_total digits

unfoldable pub normalize_typed_digits : Text → Text
normalize_typed_digits value = cut_digits (from_eight (filter is_digit value))

-- `slice(n)` and `slice(0, -1)`.
abbrev pub skip : ℕ → Text → Text
skip zero text = text
skip (suc n) [] = []
skip (suc n) (c ∷ cs) = skip n cs

abbrev pub without_last : Text → Text
without_last [] = []
without_last (c ∷ []) = []
without_last (c ∷ d ∷ ds) = c ∷ without_last (d ∷ ds)

-- A separator before a slice of the digits, where there are enough of them.
abbrev pub group : Text → ℕ → ℕ → ℕ → Text → Text
group mark enough from size rest =
    if leb enough (length rest) then mark ++ limit size (skip from rest) else []

-- `+7 (999) 123-45-67`.
unfoldable pub write_digits : Text → Text
write_digits rest =
    43
    ∷ 55
    ∷ (group (32 ∷ 40 ∷ []) 1 0 3 rest
        ++ group (41 ∷ 32 ∷ []) 3 3 3 rest
        ++ group (45 ∷ []) 6 6 2 rest
        ++ group (45 ∷ []) 8 8 2 rest)

-- A backspace on a separator takes the digit before it.
abbrev pub typed_digits : Text → Text → Text
typed_digits value previous =
    let digits = normalize_typed_digits value in
    if ltb (length value) (length previous)
      && same_text digits (normalize_typed_digits previous)
      && ltb 1 (length digits)
    then without_last digits
    else digits

abbrev pub written : Text → Text
written [] = []
written (c ∷ []) = 43 ∷ 55 ∷ []
written (c ∷ d ∷ ds) = write_digits (d ∷ ds)

unfoldable pub format_phone_input : Text → Text → Text
unfolding normalize_typed_digits write_digits
format_phone_input value previous = written (typed_digits value previous)
