-- ===== src/RateLimit/Tests.antt =====
-- Runs of the holds and of the limit, on a server in memory.
use ticket_system.Base.{ℕ, ◌≡◌, ◌≤◌, ◌≢◌, refl, true, false, List, [], ◌∷◌, none, some, arith}
use ticket_system.Domain.{Text}
use ticket_system.RateLimit.{
  HeldSlot, hold_key, parse_hold_key, hold_slot, consume_hold, peek_hold, session_key,
  get_session_hold, list_hold, drop_previous, hold_made, truthy,
}
use ticket_system.RateLimit.Keys.{parse_hold_key-hold_key}
use ticket_system.RateLimit.Slots.{hold_slot-peek_hold}
use ticket_system.RateLimit.Owner.{hold_slot-keeps}
use ticket_system.RateLimit.Once.{consume_hold-once}
use ticket_system.RateLimit.Limit.{accepted_calls, assert_can_create_ticket-limit}
use ticket_system.RateLimit.Tickets.{count_ticket, assert_can_create_ticket}
use ticket_system.RateLimit.Memory.{Memory, empty, memory, memory-TextLaws, memory-NumberLaws}

-- `d1` and `12:30`.
abbrev desk_one : Text
desk_one = 100 ∷ 49 ∷ []

abbrev half_past : Text
half_past = 49 ∷ 50 ∷ 58 ∷ 51 ∷ 48 ∷ []

-- `13:00`.
abbrev one_o_clock : Text
one_o_clock = 49 ∷ 51 ∷ 58 ∷ 48 ∷ 48 ∷ []

abbrev here : Text
here = 97 ∷ []

abbrev there : Text
there = 98 ∷ []

abbrev first_hold : Text
first_hold = 49 ∷ []

abbrev slot : HeldSlot
slot = record { desk_id = desk_one; scheduled_at = half_past }

-- One session holds one slot.
abbrev held : Memory
held = (hold_slot memory 5000 here desk_one half_past first_hold empty).1

parse_hold_key-hold_key_example : parse_hold_key (hold_key desk_one half_past) ≡ some slot
parse_hold_key-hold_key_example = parse_hold_key-hold_key desk_one half_past refl refl

hold_slot-peek_hold_example :
    let (done, after) = hold_slot memory 5000 here desk_one half_past first_hold empty in
    (done ≡ true)
    × (peek_hold memory 5000 here first_hold after ≡ some slot)
    × (get_session_hold memory 5000 here after
        ≡ some (record { slot = slot; hold_id = first_hold }))
hold_slot-peek_hold_example =
    hold_slot-peek_hold memory memory-TextLaws 5000 here desk_one half_past first_hold empty refl
      refl refl

held_value : memory.get 5000 (hold_key desk_one half_past) held ≡ some (97 ∷ 58 ∷ 49 ∷ [])
unfolding hold_slot hold_made hold_key list_hold drop_previous
held_value = refl

no_pointer : truthy (memory.get 5000 (session_key there) held) ≢ some (hold_key desk_one half_past)
unfolding hold_slot hold_made hold_key list_hold drop_previous
no_pointer e = cc

hold_slot-keeps_example :
    (memory.get 5000
        (hold_key desk_one half_past)
        (hold_slot memory 5000 there desk_one one_o_clock first_hold held).1
      ≡ some (97 ∷ 58 ∷ 49 ∷ []))
    × (hold_slot memory 5000 there desk_one half_past first_hold held ≡ (false, held))
hold_slot-keeps_example =
    hold_slot-keeps memory memory-TextLaws 5000 there desk_one one_o_clock first_hold desk_one
      half_past (97 ∷ 58 ∷ 49 ∷ []) held held_value refl no_pointer

consumes : (consume_hold memory 5000 here first_hold slot held).0 ≡ true
unfolding consume_hold hold_slot hold_made hold_key list_hold drop_previous
consumes = refl

consume_hold-once_example :
    let after = (consume_hold memory 5000 here first_hold slot held).1 in
    (peek_hold memory 9000 here first_hold after ≡ none)
    × (memory.get 9000 (hold_key desk_one half_past) after ≡ none)
    × ((consume_hold memory 9000 here first_hold slot after).0 ≡ false)
consume_hold-once_example =
    consume_hold-once memory memory-TextLaws 5000 9000 here first_hold first_hold slot held consumes

-- Five calls within a minute.
abbrev calls : List ℕ
calls = 5000 ∷ 5000 ∷ 6000 ∷ 7000 ∷ 60000 ∷ []

three_pass : accepted_calls memory here calls empty ≡ 3
unfolding accepted_calls assert_can_create_ticket count_ticket
three_pass = refl

assert_can_create_ticket-limit_example : accepted_calls memory here calls empty ≤ 3
assert_can_create_ticket-limit_example =
    assert_can_create_ticket-limit memory memory-NumberLaws here 5000 calls empty
      (λ t later soon. refl)
      (
        omega arith,
        omega arith,
        (
          omega arith,
          omega arith,
          (omega arith, omega arith, (omega arith, omega arith, (omega arith, omega arith, tt))),
        ),
      )
