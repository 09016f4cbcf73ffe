-- ===== src/RateLimit/Tickets.antt =====
-- The limit of tickets of a client, and what else the service keeps about clients.
use ticket_system.Base.{ℕ, max, Bool, true, false, [], ◌∷◌, ◌++◌, Option, ltb, ◌==◌, if◌then◌else◌}
use ticket_system.Domain.{Text}
use ticket_system.RateLimit.{Redis, day_seconds}

-- `ticket:cooldown:` and `ticket:hour:`.
abbrev pub cooldown_prefix : Text
cooldown_prefix =
    116 ∷ 105 ∷ 99 ∷ 107 ∷ 101 ∷ 116 ∷ 58 ∷ 99 ∷ 111 ∷ 111 ∷ 108 ∷ 100 ∷ 111 ∷ 119 ∷ 110 ∷ 58 ∷ []

abbrev pub hour_prefix : Text
hour_prefix = 116 ∷ 105 ∷ 99 ∷ 107 ∷ 101 ∷ 116 ∷ 58 ∷ 104 ∷ 111 ∷ 117 ∷ 114 ∷ 58 ∷ []

-- `ticket:bind:` and `idem:`.
abbrev pub bind_prefix : Text
bind_prefix = 116 ∷ 105 ∷ 99 ∷ 107 ∷ 101 ∷ 116 ∷ 58 ∷ 98 ∷ 105 ∷ 110 ∷ 100 ∷ 58 ∷ []

abbrev pub idem_prefix : Text
idem_prefix = 105 ∷ 100 ∷ 101 ∷ 109 ∷ 58 ∷ []

-- Too many tickets: how many seconds to wait.
pub data Limited : Type 0 where
  accepted : Limited
  wait : ℕ → Limited

abbrev pub is_accepted : Limited → Bool
is_accepted accepted = true
is_accepted (wait seconds) = false

module _ {S : Type 0} (redis : Redis S) where
  unfoldable pub count_ticket : ℕ → Text → S → Limited × S
  count_ticket now client st =
      let key = hour_prefix ++ client in
      let (created, counted) = redis.incr now key st in
      let timed = if created == 1 then redis.expire now key 3600 counted else counted in
      if ltb 3 created then (wait (max (redis.ttl now key timed) 60), timed) else (accepted, timed)

  unfoldable pub assert_can_create_ticket : ℕ → Text → S → Limited × S
  unfolding count_ticket
  assert_can_create_ticket now client st =
      let cooldown = redis.ttl now (cooldown_prefix ++ client) st in
      if ltb 0 cooldown then (wait cooldown, st) else count_ticket now client st

  unfoldable pub record_ticket_cancelled : ℕ → Text → S → S
  record_ticket_cancelled now client st = redis.set now (cooldown_prefix ++ client) (49 ∷ []) 300 st

  unfoldable pub bind_active_ticket : ℕ → Text → S → S
  bind_active_ticket now client st = redis.set now (bind_prefix ++ client) (49 ∷ []) day_seconds st

  unfoldable pub clear_active_ticket : Text → S → S
  clear_active_ticket client st = redis.del (bind_prefix ++ client) st

  unfoldable pub get_idempotent : ℕ → Text → Text → S → Option Text
  get_idempotent now subject key st = redis.get now (idem_prefix ++ subject ++ 58 ∷ key) st

  unfoldable pub set_idempotent : ℕ → Text → Text → Text → S → S
  set_idempotent now subject key payload st =
      redis.set now (idem_prefix ++ subject ++ 58 ∷ key) payload day_seconds st
