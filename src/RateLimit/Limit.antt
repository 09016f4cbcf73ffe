-- ===== src/RateLimit/Limit.antt =====
-- A client is let through three times within an hour.
use ticket_system.Base.{
  none, some, Option, ap, ◌∙◌, ℕ, ◌+◌, ◌-◌, ◌≤◌, ◌<◌, ◌≡◌, refl, true, false, List, [], ◌∷◌, ◌++◌,
  arith, bit, ltb, ◌==◌, Bool-cases, inl, inr,
}
use ticket_system.Domain.{Text}
use ticket_system.RateLimit.{Redis}
use ticket_system.RateLimit.Laws.{counted, NumberLaws}
use ticket_system.RateLimit.Tickets.{
  hour_prefix, cooldown_prefix, is_accepted, count_ticket, assert_can_create_ticket,
}

-- Times of calls in their order, from a time on and before another.
abbrev pub IsWithin : ℕ → ℕ → List ℕ → Type 0
IsWithin start end [] = Unit
IsWithin start end (t ∷ ts) = (start ≤ t) × (t < end) × IsWithin t end ts

module _ {S : Type 0} (redis : Redis S) where
  -- How many calls of a client at these times are let through.
  unfoldable pub accepted_calls : Text → List ℕ → S → ℕ
  accepted_calls client [] st = 0
  accepted_calls client (t ∷ ts) st =
      let (answer, after) = assert_can_create_ticket redis t client st in
      bit (is_accepted answer) + accepted_calls client ts after

  -- The hour's counter stands at `n`, or is absent, from a time on until another.
  abbrev pub Counts : Text → Option ℕ → ℕ → ℕ → S → Type 0
  Counts client n start end st =
      (t : ℕ) → start ≤ t → t < end → redis.number t (hour_prefix ++ client) st ≡ n

module _ {S : Type 0} (redis : Redis S) (laws : NumberLaws redis) (client : Text) where
  next_count :
      (o : Option ℕ) (now end : ℕ) (st : S)
      → now < end
      → Counts redis client o now end st
      → Counts redis client
          (some (counted o + 1))
          now
          end
          (redis.incr now (hour_prefix ++ client) st).1
  next_count o now end st before c t later soon =
      laws.number_incr now t o (hour_prefix ++ client) st later (c now (omega arith) before)
        (c t later soon)

  counted_more :
      (n now end : ℕ) (st : S)
      → 1 ≤ n
      → now < end
      → Counts redis client (some n) now end st
      → ((count_ticket redis now client st).1 ≡ (redis.incr now (hour_prefix ++ client) st).1)
        × (is_accepted (count_ticket redis now client st).0 ≡ ltb n 3)
  unfolding count_ticket
  counted_more n now end st some_before before c =
      let created : (redis.incr now (hour_prefix ++ client) st).0 ≡ n + 1 =
        laws.incr_number now (hour_prefix ++ client) st
        ∙ ap (λ o. counted o + 1) (c now (omega arith) before) in
      let later : (n + 1 == 1) ≡ false = ground arith in
      elim (Bool-cases (ltb 3 (n + 1))) [
        | inl over ↦ (rw (created, later, over) refl, rw (created, later, over) (ground arith))
        | inr under ↦ (rw (created, later, under) refl, rw (created, later, under) (ground arith))
      ]

  IsWithin-from :
      (now later end : ℕ) (ts : List ℕ) → now ≤ later → IsWithin later end ts → IsWithin now end ts
  IsWithin-from now later end [] le w = tt
  IsWithin-from now later end (t ∷ ts) le (a, b, c) = (omega arith, b, c)

  Counts-from :
      (o : Option ℕ) (now later end : ℕ) (st : S)
      → now ≤ later
      → Counts redis client o now end st
      → Counts redis client o later end st
  Counts-from o now later end st le c t after soon = c t (omega arith) soon

  -- From a call that counts on, a client has what is left of three.
  left_calls :
      (n now end : ℕ) (ts : List ℕ) (st : S)
      → 1 ≤ n
      → Counts redis client (some n) now end st
      → IsWithin now end ts
      → accepted_calls redis client ts st ≤ 3 - n
  unfolding accepted_calls assert_can_create_ticket
  left_calls n now end [] st some_before c w = omega arith
  left_calls n now end (t ∷ ts) st some_before c (later, soon, rest) =
      elim (Bool-cases (ltb 0 (redis.ttl t (cooldown_prefix ++ client) st))) [
        | inl cool ↦ rw cool (
            omega (
              arith,
              left_calls n now end ts st some_before c (IsWithin-from now t end ts later rest),
            ))
        | inr go ↦
            let here = Counts-from (some n) now t end st later c in
            let (after, answer) = counted_more n t end st some_before soon here in
            rw (go, after, answer)
              (ground (
                arith,
                left_calls (n + 1) t end ts (redis.incr t (hour_prefix ++ client) st).1
                    (omega arith) (next_count (some n) t end st soon here) rest,
              ))
      ]

  -- The first call that counts sets the hour going.
  counted_first :
      (now end : ℕ) (st : S)
      → now < end
      → end ≤ now + 3600000
      → Counts redis client none now end st
      → Counts redis client (some 1) now end (count_ticket redis now client st).1
        × (is_accepted (count_ticket redis now client st).0 ≡ true)
  unfolding count_ticket
  counted_first now end st before within c =
      let created : (redis.incr now (hour_prefix ++ client) st).0 ≡ 1 =
        laws.incr_number now (hour_prefix ++ client) st
        ∙ ap (λ o. counted o + 1) (c now (omega arith) before) in
      (
        rw created (λ t later soon.
            laws.number_expire now t 3600 (hour_prefix ++ client)
              (redis.incr now (hour_prefix ++ client) st).1 later (omega arith)
            ∙ next_count none now end st before c now (omega arith) before),
        rw created refl,
      )

  first_calls :
      (now end : ℕ) (ts : List ℕ) (st : S)
      → end ≤ now + 3600000
      → Counts redis client none now end st
      → IsWithin now end ts
      → accepted_calls redis client ts st ≤ 3
  unfolding accepted_calls assert_can_create_ticket
  first_calls now end [] st within c w = omega arith
  first_calls now end (t ∷ ts) st within c (later, soon, rest) =
      elim (Bool-cases (ltb 0 (redis.ttl t (cooldown_prefix ++ client) st))) [
        | inl cool ↦ rw cool (
            omega
              (arith, first_calls now end ts st within c (IsWithin-from now t end ts later rest)))
        | inr go ↦
            let (counts, answer) =
              counted_first t end st soon (omega arith) (Counts-from none now t end st later c) in
            rw (go, answer)
              (omega (
                arith,
                left_calls 1 t end ts (count_ticket redis t client st).1 (omega arith) counts rest,
              ))
      ]

  -- Within an hour, a client of whom nothing has been counted is let through at most three times, however often and whenever it asks.
  pub assert_can_create_ticket-limit :
      (start : ℕ) (ts : List ℕ) (st : S)
      → Counts redis client none start (start + 3600000) st
      → IsWithin start (start + 3600000) ts
      → accepted_calls redis client ts st ≤ 3
  assert_can_create_ticket-limit start ts st c w =
      first_calls start (start + 3600000) ts st (omega arith) c w
