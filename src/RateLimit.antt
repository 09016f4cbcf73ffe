-- ===== src/RateLimit.antt =====
-- apps/api/src/queue/rate-limit.service.ts: holds of slots and limits of tickets, kept in Redis.
-- A method gets the time of the call in milliseconds, and returns the new contents of Redis.
pub mod Keys
pub mod Laws
pub mod Slots
pub mod Owner
pub mod Once
pub mod Refresh
pub mod Tickets
pub mod Limit
pub mod Memory
mod Tests
use ticket_system.Base.{
  ℕ, ◌+◌, ◌*◌, max, Bool, true, false, not, List, [], ◌∷◌, ◌++◌, Option, none, some, ltb, ◌==◌,
  if◌then◌else◌, is_some,
}
use ticket_system.Domain.{Text}
use ticket_system.Texts.{same_text, starts_with, drop_prefix, split_at, join_with}
use ticket_system.Booking.{Hold}

-- The commands of Redis that the service sends, on contents of the type `S`, at a time. `ttl` is the
-- seconds that a key has left, 0 where the server answers less; `number` is what `INCR` counts from, where the key is there.
pub record Redis (S : Type 0) : Type 0 where
  pub get : ℕ → Text → S → Option Text
  pub set : ℕ → Text → Text → ℕ → S → S
  pub set_if_absent : ℕ → Text → Text → ℕ → S → Option S
  pub del : Text → S → S
  pub expire : ℕ → Text → ℕ → S → S
  pub ttl : ℕ → Text → S → ℕ
  pub number : ℕ → Text → S → Option ℕ
  pub incr : ℕ → Text → S → ℕ × S
  pub z_add : ℕ → Text → ℕ → Text → S → S
  pub z_rem : Text → Text → S → S
  pub z_range : ℕ → Text → S → List Text
  pub z_rem_range_by_score : Text → ℕ → ℕ → S → S

-- `slot:hold:`, `slot:session:`, `slot:refresh:`, `slot:holds`.
abbrev pub hold_prefix : Text
hold_prefix = 115 ∷ 108 ∷ 111 ∷ 116 ∷ 58 ∷ 104 ∷ 111 ∷ 108 ∷ 100 ∷ 58 ∷ []

abbrev pub session_prefix : Text
session_prefix = 115 ∷ 108 ∷ 111 ∷ 116 ∷ 58 ∷ 115 ∷ 101 ∷ 115 ∷ 115 ∷ 105 ∷ 111 ∷ 110 ∷ 58 ∷ []

abbrev pub refresh_prefix : Text
refresh_prefix = 115 ∷ 108 ∷ 111 ∷ 116 ∷ 58 ∷ 114 ∷ 101 ∷ 102 ∷ 114 ∷ 101 ∷ 115 ∷ 104 ∷ 58 ∷ []

abbrev pub slot_holds : Text
slot_holds = 115 ∷ 108 ∷ 111 ∷ 116 ∷ 58 ∷ 104 ∷ 111 ∷ 108 ∷ 100 ∷ 115 ∷ []

-- A desk and a time, as the keys spell them.
pub record HeldSlot : Type 0 where
  pub desk_id : Text
  pub scheduled_at : Text

pub record SessionHold : Type 0 where
  pub slot : HeldSlot
  pub hold_id : Text

unfoldable pub hold_key : Text → Text → Text
hold_key desk_id scheduled_at = hold_prefix ++ desk_id ++ 58 ∷ scheduled_at

abbrev pub is_blank : Text → Bool
is_blank [] = true
is_blank (c ∷ cs) = false

-- The parts of a key; `!rest.length` and `!deskId` refuse.
abbrev pub slot_of_parts : List Text → Option HeldSlot
slot_of_parts (a ∷ b ∷ desk ∷ r ∷ rest) =
    if is_blank desk
    then none
    else some (record { desk_id = desk; scheduled_at = join_with 58 (r ∷ rest) })
slot_of_parts _ = none

unfoldable pub parse_hold_key : Text → Option HeldSlot
unfolding split_at join_with
parse_hold_key key = slot_of_parts (split_at 58 key)

-- `${sessionId}:${holdId}`.
abbrev pub hold_value : Text → Text → Text
hold_value session hold_id = session ++ 58 ∷ hold_id

abbrev pub session_key : Text → Text
session_key session = session_prefix ++ session

abbrev pub refresh_key : Text → Text
refresh_key session = refresh_prefix ++ session

-- `value?.startsWith(`${sessionId}:`)`.
abbrev pub is_owned : Text → Option Text → Bool
is_owned session none = false
is_owned session (some value) = starts_with (session ++ 58 ∷ []) value

abbrev pub is_value : Option Text → Text → Bool
is_value none text = false
is_value (some value) text = same_text value text

-- `if (key)`: an absent or empty text is false.
abbrev pub truthy : Option Text → Option Text
truthy none = none
truthy (some []) = none
truthy (some (c ∷ cs)) = some (c ∷ cs)

abbrev pub hold_seconds : ℕ
hold_seconds = 180

abbrev pub day_seconds : ℕ
day_seconds = 86400

-- What the runtime makes of a time and of a uuid: `toISOString`, `new Date(text).getTime()`, which is
-- nothing where it is no number, and the text of a uuid.
pub record Spelling : Type 0 where
  pub iso : ℕ → Text
  pub time_of : Text → Option ℕ
  pub uuid : ℕ → Text
  pub uuid_of : Text → Option ℕ

abbrev pub hold_of : Option ℕ → Option ℕ → List Hold → List Hold
hold_of (some at) (some desk) rest = record { desk_id = desk; scheduled_at = at } ∷ rest
hold_of _ _ rest = rest

-- The holds that `heldDeskIds` walks over: a time that is no number is passed over.
unfoldable pub holds_of : Spelling → List HeldSlot → List Hold
holds_of spell [] = []
holds_of spell (slot ∷ slots) =
    hold_of (spell.time_of slot.scheduled_at) (spell.uuid_of slot.desk_id) (holds_of spell slots)

module _ {S : Type 0} (redis : Redis S) where
  -- `zAdd` and `expire` of the set of holds.
  unfoldable pub list_hold : ℕ → Text → ℕ → S → S
  list_hold now key seconds st =
      redis.expire now slot_holds day_seconds
        (redis.z_add now slot_holds (now + seconds * 1000) key st)

  -- The hold that the session had before, under another key, is given up.
  unfoldable pub drop_previous : Option Text → Text → S → S
  drop_previous none key st = st
  drop_previous (some previous) key st =
      if same_text previous key then st else redis.z_rem slot_holds previous (redis.del previous st)

  -- What follows `SET … NX`, which the server has done or refused.
  unfoldable pub hold_made : ℕ → Text → Text → Option S → S → Bool × S
  unfolding list_hold drop_previous
  hold_made now session key none st =
      if is_owned session (redis.get now key st)
      then (true, list_hold now key (max (redis.ttl now key st) 1) st)
      else (false, st)
  hold_made now session key (some created) st =
      let dropped =
        drop_previous (truthy (redis.get now (session_key session) created)) key created in
      (
        true,
        list_hold now key hold_seconds
            (redis.set now (session_key session) key hold_seconds dropped),
      )

  unfoldable pub hold_slot : ℕ → Text → Text → Text → Text → S → Bool × S
  unfolding hold_key hold_made
  hold_slot now session desk_id scheduled_at hold_id st =
      let key = hold_key desk_id scheduled_at in
      hold_made now session key
        (redis.set_if_absent now key (hold_value session hold_id) hold_seconds st) st

  unfoldable pub has_refreshed_hold : ℕ → Text → S → Bool
  has_refreshed_hold now session st = is_some (truthy (redis.get now (refresh_key session) st))

  -- A refresh of the hold under a key.
  unfoldable pub prolong : ℕ → Text → Text → S → S
  unfolding list_hold
  prolong now session key st = list_hold now key hold_seconds (
      redis.set now (refresh_key session) (49 ∷ []) hold_seconds (
        redis.expire now (session_key session) hold_seconds (redis.expire now key hold_seconds st)))

  unfoldable pub refresh_hold : ℕ → Text → Text → S → Bool × S
  unfolding has_refreshed_hold prolong
  refresh_hold now session hold_id st = elim (truthy (redis.get now (session_key session) st)) [
    | none ↦ (false, st)
    | some key ↦
        if not (is_value (redis.get now key st) (hold_value session hold_id))
        then (false, st)
        else if has_refreshed_hold now session st
        then (false, st)
        else (true, prolong now session key st)
  ]

  unfoldable pub consume_hold : ℕ → Text → Text → HeldSlot → S → Bool × S
  unfolding hold_key
  consume_hold now session hold_id slot st =
      let key = hold_key slot.desk_id slot.scheduled_at in
      if not (is_value (redis.get now key st) (hold_value session hold_id)) then (false, st) else (
        true,
        redis.z_rem slot_holds key
            (redis.del (refresh_key session) (redis.del (session_key session) (redis.del key st))),
      )

  unfoldable pub peek_hold : ℕ → Text → Text → S → Option HeldSlot
  unfolding parse_hold_key
  peek_hold now session hold_id st = elim (truthy (redis.get now (session_key session) st)) [
    | none ↦ none
    | some key ↦
        if is_value (redis.get now key st) (hold_value session hold_id)
        then parse_hold_key key
        else none
  ]

  abbrev pub with_hold_id : Text → Option Text → Option HeldSlot → Option SessionHold
  with_hold_id session (some value) (some slot) =
      some (record { slot = slot; hold_id = drop_prefix (session ++ 58 ∷ []) value })
  with_hold_id session _ _ = none

  unfoldable pub get_session_hold : ℕ → Text → S → Option SessionHold
  unfolding parse_hold_key
  get_session_hold now session st = elim (truthy (redis.get now (session_key session) st)) [
    | none ↦ none
    | some key ↦
        let value = redis.get now key st in
        if is_owned session value then with_hold_id session value (parse_hold_key key) else none
  ]

  unfoldable pub hold_ttl : ℕ → HeldSlot → S → ℕ
  unfolding hold_key
  hold_ttl now slot st = redis.ttl now (hold_key slot.desk_id slot.scheduled_at) st

  -- `flatMap` over the keys.
  unfoldable pub parse_all : List Text → List HeldSlot
  unfolding parse_hold_key
  parse_all [] = []
  parse_all (key ∷ keys) = elim (parse_hold_key key) [
    | none ↦ parse_all keys
    | some slot ↦ slot ∷ parse_all keys
  ]

  -- Those that have run out are removed first.
  unfoldable pub list_holds : ℕ → S → List HeldSlot × S
  unfolding parse_all
  list_holds now st =
      let current = redis.z_rem_range_by_score slot_holds 0 now st in
      (parse_all (redis.z_range now slot_holds current), current)
