-- ===== src/Form/Written.antt =====
-- A telephone number that has been written is read back.
use ticket_system.Base.{
  Bool, ◌&&◌, ltb, if◌then◌else◌, ◌<◌, ◌<◌, sym, length-limit, ℕ, zero, suc, ◌≤◌, ◌≡◌, refl, true,
  Bool-cases, inl, inr, [], ◌∷◌, ◌++◌, arith, ap, ◌∙◌, filter, length, limit, leb,
}
use ticket_system.Domain.{Text}
use ticket_system.Person.{is_digit, all_digits, seven}
use ticket_system.Person.Phones.{filter_digits, from_eight-all_digits, all_digits-filter}
use ticket_system.Form.{
  same_text, without_last, written, from_eight, starts_with, normalize_typed_digits, cut_digits,
  format_phone_input, skip, group, write_digits,
}

filter-append :
    (xs ys : Text) → filter is_digit (xs ++ ys) ≡ filter is_digit xs ++ filter is_digit ys
filter-append [] ys = refl
filter-append (x ∷ xs) ys = ground (arith, filter-append xs ys)

limit-all_digits : (n : ℕ) (ds : Text) → all_digits ds ≡ true → all_digits (limit n ds) ≡ true
limit-all_digits zero ds h = refl
limit-all_digits (suc n) [] h = refl
limit-all_digits (suc n) (d ∷ ds) h = ground (arith, limit-all_digits n ds)

skip-all_digits : (n : ℕ) (ds : Text) → all_digits ds ≡ true → all_digits (skip n ds) ≡ true
skip-all_digits zero ds h = h
skip-all_digits (suc n) [] h = refl
skip-all_digits (suc n) (d ∷ ds) h = skip-all_digits n ds (ground arith)

limit-long : (n : ℕ) (ds : Text) → length ds ≤ n → limit n ds ≡ ds
limit-long zero [] h = refl
limit-long zero (d ∷ ds) h = absurd (omega arith)
limit-long (suc n) [] h = refl
limit-long (suc n) (d ∷ ds) h = ap (λ t. d ∷ t) (limit-long n ds (omega arith))

-- A mark has no digits.
filter-group :
    (mark : Text) (enough from size : ℕ) (ds : Text)
    → filter is_digit mark ≡ []
    → all_digits ds ≡ true
    → filter is_digit (group mark enough from size ds) ≡ group [] enough from size ds
filter-group mark enough from size ds plain h = elim (Bool-cases (leb enough (length ds))) [
  | inl there ↦ rw there (
      filter-append mark (limit size (skip from ds))
      ∙ rw plain (
          all_digits-filter (limit size (skip from ds))
            (limit-all_digits size (skip from ds) (skip-all_digits from ds h))))
  | inr short ↦ rw short refl
]

abbrev pieces : Text → Text
pieces r = group [] 1 0 3 r ++ group [] 3 3 3 r ++ group [] 6 6 2 r ++ group [] 8 8 2 r

pieces_lem : (r : Text) → length r ≤ 10 → pieces r ≡ r
pieces_lem [] h = refl
pieces_lem (a ∷ []) h = refl
pieces_lem (a ∷ b ∷ []) h = refl
pieces_lem (a ∷ b ∷ c ∷ []) h = refl
pieces_lem (a ∷ b ∷ c ∷ d ∷ []) h = refl
pieces_lem (a ∷ b ∷ c ∷ d ∷ e ∷ []) h = refl
pieces_lem (a ∷ b ∷ c ∷ d ∷ e ∷ f ∷ []) h = refl
pieces_lem (a ∷ b ∷ c ∷ d ∷ e ∷ f ∷ g ∷ []) h = refl
pieces_lem (a ∷ b ∷ c ∷ d ∷ e ∷ f ∷ g ∷ i ∷ []) h = refl
pieces_lem (a ∷ b ∷ c ∷ d ∷ e ∷ f ∷ g ∷ i ∷ j ∷ []) h = refl
pieces_lem (a ∷ b ∷ c ∷ d ∷ e ∷ f ∷ g ∷ i ∷ j ∷ k ∷ []) h = refl
pieces_lem (a ∷ b ∷ c ∷ d ∷ e ∷ f ∷ g ∷ i ∷ j ∷ k ∷ l ∷ r) h = absurd (omega arith)

filter-write_digits :
    (r : Text) → all_digits r ≡ true → length r ≤ 10 → filter is_digit (write_digits r) ≡ seven ∷ r
unfolding write_digits
filter-write_digits r h short =
    let g1 = group (32 ∷ 40 ∷ []) 1 0 3 r in
    let g2 = group (41 ∷ 32 ∷ []) 3 3 3 r in
    let g3 = group (45 ∷ []) 6 6 2 r in
    let g4 = group (45 ∷ []) 8 8 2 r in
    ap (λ t. seven ∷ t)
      (filter-append (g1 ++ g2 ++ g3) g4
        ∙ ap (λ t. t ++ filter is_digit g4)
            (filter-append (g1 ++ g2) g3 ∙ ap (λ t. t ++ filter is_digit g3) (filter-append g1 g2))
        ∙ rw
            (
              filter-group (32 ∷ 40 ∷ []) 1 0 3 r refl h,
              filter-group (41 ∷ 32 ∷ []) 3 3 3 r refl h,
              filter-group (45 ∷ []) 6 6 2 r refl h,
              filter-group (45 ∷ []) 8 8 2 r refl h,
            )
            (pieces_lem r short))

-- What the page keeps of the digits: digits, and eleven at most where a seven comes first.
cut_digits-all_digits : (ds : Text) → all_digits ds ≡ true → all_digits (cut_digits ds) ≡ true
cut_digits-all_digits ds h = ground (arith, limit-all_digits 11 ds h)

cut_digits-length : (ds : Text) → length (cut_digits ds) ≤ 11
cut_digits-length ds = ground (arith, length-limit 11 ds)

typed-all_digits : (v : Text) → all_digits (normalize_typed_digits v) ≡ true
unfolding normalize_typed_digits
typed-all_digits v =
    cut_digits-all_digits (from_eight (filter is_digit v))
      (from_eight-all_digits (filter is_digit v) (filter_digits v))

typed-length : (v : Text) → length (normalize_typed_digits v) ≤ 11
unfolding normalize_typed_digits
typed-length v = cut_digits-length (from_eight (filter is_digit v))

normalize-written :
    (ds : Text)
    → all_digits ds ≡ true
    → length ds ≤ 11
    → starts_with seven ds ≡ true
    → normalize_typed_digits (written ds) ≡ ds
unfolding normalize_typed_digits
normalize-written [] h short s = cc
normalize-written (d ∷ []) h short s = ground arith
normalize-written (d ∷ c ∷ ds) h short s =
    let first_seven : d ≡ seven = ground arith in
    ap (λ t. cut_digits (from_eight t)) (filter-write_digits (c ∷ ds) (ground arith) (omega arith))
    ∙ limit-long 11 (seven ∷ c ∷ ds) (omega arith)
    ∙ ap (λ x. x ∷ c ∷ ds) (sym first_seven)

without_last-all_digits : (ds : Text) → all_digits ds ≡ true → all_digits (without_last ds) ≡ true
without_last-all_digits [] h = refl
without_last-all_digits (c ∷ []) h = refl
without_last-all_digits (c ∷ d ∷ ds) h = ground (arith, without_last-all_digits (d ∷ ds))

without_last-length : (ds : Text) → length (without_last ds) ≤ length ds
without_last-length [] = omega arith
without_last-length (c ∷ []) = omega arith
without_last-length (c ∷ d ∷ ds) = ground (arith, without_last-length (d ∷ ds))

without_last-starts_with :
    (ds : Text)
    → 1 < length ds
    → starts_with seven ds ≡ true
    → starts_with seven (without_last ds) ≡ true
without_last-starts_with [] long s = cc
without_last-starts_with (c ∷ []) long s = absurd (omega arith)
without_last-starts_with (c ∷ d ∷ ds) long s = s

-- A text whose digits make a number with a seven in front is written as a telephone number from which the same digits are read back, whatever stood in the field before. The exception is a backspace on a separator, which leaves a shorter text with the digits that were there before: the last of them is left out where there is more than one.
pub format_phone_input-normalize_typed_digits :
    (value previous : Text)
    → starts_with seven (normalize_typed_digits value) ≡ true
    → normalize_typed_digits (format_phone_input value previous) ≡ (
        if ltb (length value) (length previous)
          && same_text (normalize_typed_digits value) (normalize_typed_digits previous)
          && ltb 1 (length (normalize_typed_digits value))
        then without_last (normalize_typed_digits value)
        else normalize_typed_digits value)
unfolding format_phone_input
format_phone_input-normalize_typed_digits value previous s =
    let digits = normalize_typed_digits value in
    let same =
      ltb (length value) (length previous) && same_text digits (normalize_typed_digits previous) in
    elim (Bool-cases (same && ltb 1 (length digits))) [
      | inr kept ↦
          rw kept (normalize-written digits (typed-all_digits value) (typed-length value) s)
      | inl back ↦ rw back (
          normalize-written (without_last digits)
            (without_last-all_digits digits (typed-all_digits value))
            (omega (arith, without_last-length digits, typed-length value))
            (without_last-starts_with digits (more_than_one same (length digits) back) s))
    ]
  where
    more_than_one : (b : Bool) (n : ℕ) → (b && ltb 1 n) ≡ true → 1 < n
    more_than_one b n h = ground arith
