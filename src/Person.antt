-- ===== src/Person.antt =====
-- apps/api/src/queue/person-input.ts: what a client enters about a person. A text is the list of its
-- UTF-16 code units, which is what `length` and a pattern without the flag `u` count.
pub mod Names
pub mod Phones
pub mod Tests
use Prim.Native.String.{String}
use ticket_system.Base.{
  ℕ, zero, suc, ◌+◌, Bool, true, false, not, ◌&&◌, ◌||◌, List, [], ◌∷◌, ◌++◌, Option, none, some,
  ltb, leb, ◌==◌, if◌then◌else◌, is_some, or_else, filter, length, any,
}
use ticket_system.Domain.{Text, ClientCountry, rf, cn, country_eq}
use ticket_system.Queue.Store.{Error, Result, ok, err, ◌>>=◌, ◌>>◌, guard, bad_request}

abbrev pub name_max_length : ℕ
name_max_length = 40

abbrev pub between : ℕ → ℕ → ℕ → Bool
between low high c = leb low c && leb c high

-- `[A-Za-zА-Яа-яЁё]`.
unfoldable pub is_letter : ℕ → Bool
is_letter c =
    between 65 90 c
    || between 97 122 c
    || between 1040 1071 c
    || between 1072 1103 c
    || c == 1025
    || c == 1105

-- `[ -]`.
abbrev pub is_separator : ℕ → Bool
is_separator c = c == 32 || c == 45

-- `NAME_PATTERN`, read from left to right; the flag says that a letter has just been read.
unfoldable pub matches_from : Bool → Text → Bool
matches_from seen [] = seen
matches_from seen (c ∷ cs) =
    let after_letter = matches_from true cs in
    let after_separator = matches_from false cs in
    if is_letter c then after_letter else if is_separator c && seen then after_separator else false

unfoldable pub name_pattern : Text → Bool
name_pattern text = matches_from false text

-- The white space and the line ends of the language, which `trim` removes at both ends.
unfoldable pub is_space : ℕ → Bool
is_space c =
    between 9 13 c
    || c == 32
    || c == 160
    || c == 5760
    || between 8192 8202 c
    || c == 8232
    || c == 8233
    || c == 8239
    || c == 8287
    || c == 12288
    || c == 65279

abbrev pub trim_start : Text → Text
trim_start [] = []
trim_start (c ∷ cs) = let rest = trim_start cs in if is_space c then rest else c ∷ cs

-- A unit is kept where it is no space or something is kept after it.
abbrev pub keep_before : ℕ → Text → Text
keep_before c [] = if is_space c then [] else c ∷ []
keep_before c (d ∷ ds) = c ∷ d ∷ ds

abbrev pub trim_end : Text → Text
trim_end [] = []
trim_end (c ∷ cs) = keep_before c (trim_end cs)

unfoldable pub trim : Text → Text
trim text = trim_end (trim_start text)

pub data NameKind : Type 0 where
  last first patronymic : NameKind

unfoldable pub invalid_message : NameKind → String
invalid_message last = "Некорректная фамилия"
invalid_message first = "Некорректное имя"
invalid_message patronymic = "Некорректное отчество"

unfoldable pub long_message : NameKind → String
long_message last = "Слишком длинное фамилию"
long_message first = "Слишком длинное имя"
long_message patronymic = "Слишком длинное отчество"

unfoldable pub name_field_error : Text → NameKind → Option String
unfolding name_pattern trim
name_field_error value kind =
    let text = trim value in
    if ltb (length text) 2
    then some "Введите больше символов"
    else if ltb name_max_length (length text)
    then some (long_message kind)
    else if not (name_pattern text)
    then some (invalid_message kind)
    else none

abbrev pub is_digit : ℕ → Bool
is_digit c = between 48 57 c

abbrev pub starts_with : ℕ → Text → Bool
starts_with c [] = false
starts_with c (d ∷ ds) = d == c

abbrev pub tail : Text → Text
tail [] = []
tail (c ∷ cs) = cs

abbrev pub seven : ℕ
seven = 55

abbrev pub from_eight : Text → Text
from_eight digits = if starts_with 56 digits then seven ∷ tail digits else digits

abbrev pub with_seven : Text → Text
with_seven digits =
    if not (starts_with seven digits) && length digits == 10 then seven ∷ digits else digits

unfoldable pub normalize_phone_digits : Text → Text
normalize_phone_digits value = with_seven (from_eight (filter is_digit value))

abbrev pub all_digits : Text → Bool
all_digits [] = true
all_digits (c ∷ cs) = is_digit c && all_digits cs

-- `/^79\d{9}$/`.
unfoldable pub is_mobile : Text → Bool
is_mobile digits =
    starts_with seven digits
    && starts_with 57 (tail digits)
    && all_digits (tail (tail digits))
    && length digits == 11

unfoldable pub phone_field_error : Text → Option String
unfolding is_mobile
phone_field_error value =
    if is_mobile (normalize_phone_digits value) then none else some "Некорректный номер телефона"

-- `<` on strings.
unfoldable pub text_before : Text → Text → Bool
text_before l [] = false
text_before [] (d ∷ ds) = true
text_before (c ∷ cs) (d ∷ ds) =
    let rest = text_before cs ds in if ltb c d then true else if ltb d c then false else rest

abbrev pub is_empty : Text → Bool
is_empty [] = true
is_empty (c ∷ cs) = false

unfoldable pub travel_dates_error : ClientCountry → Text → Text → Option String
unfolding text_before
travel_dates_error country departure arrival =
    if is_empty departure || is_empty arrival
    then some "Укажите даты выезда и приезда"
    else if country_eq country cn && not (text_before departure arrival)
    then some "Заграничные выезд оформляются больше одного дня"
    else if text_before arrival departure
    then some "Дата приезда не может быть раньше даты выезда"
    else none

pub record PersonInput : Type 0 where
  pub last_name : Text
  pub first_name : Text
  pub patronymic : Text
  pub phone : Text
  pub country : Option ClientCountry
  pub departure_date : Option Text
  pub arrival_date : Option Text
  pub require_travel_dates : Bool

pub record Person : Type 0 where
  pub full_name : Text
  pub phone : Text

abbrev pub or_empty : Option Text → Text
or_empty none = []
or_empty (some t) = t

abbrev pub or_rf : Option ClientCountry → ClientCountry
or_rf none = rf
or_rf (some c) = c

-- The dates are asked for where they are required.
unfoldable pub required_dates_error : PersonInput → Option String
unfolding travel_dates_error
required_dates_error i =
    if i.require_travel_dates
    then travel_dates_error (or_rf i.country) (or_empty i.departure_date) (or_empty i.arrival_date)
    else none

-- The first error of the five.
unfoldable pub person_error : PersonInput → Option String
unfolding name_field_error phone_field_error required_dates_error
person_error i = or_else (name_field_error i.last_name last) (
    or_else (name_field_error i.first_name first) (
      or_else (name_field_error i.patronymic patronymic)
        (or_else (phone_field_error i.phone) (required_dates_error i))))

unfoldable pub assert_person_input : PersonInput → Result Person
unfolding person_error
assert_person_input i = do
  guard (not (is_some (person_error i))) bad_request
  ok (record {
    full_name = trim i.last_name ++ 32 ∷ trim i.first_name ++ 32 ∷ trim i.patronymic;
    phone = normalize_phone_digits i.phone;
  })
