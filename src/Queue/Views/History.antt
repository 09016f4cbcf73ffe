-- ===== src/Queue/Views/History.antt =====
-- `getTicketHistory` of queue.service.ts: the tickets of a session's history.
use ticket_system.Base.{
  ℕ, Bool, true, false, List, [], ◌∷◌, Option, none, some, ltb, ◌==◌, filter, map, any,
  if◌then◌else◌,
}
use ticket_system.Domain.{Ticket}
use ticket_system.Queue.Store.{Db, Env}
use ticket_system.Queue.Views.{
  ViewEnv, PublicTicket, to_public, service_name_of, name_of, last_served,
}

-- `scheduledAt: 'DESC'`: a ticket without a time comes first.
abbrev pub goes_first : Option ℕ → Option ℕ → Bool
goes_first none (some r) = true
goes_first (some l) (some r) = ltb r l
goes_first _ none = false

abbrev pub insert_latest : Ticket → List Ticket → List Ticket
insert_latest t [] = t ∷ []
insert_latest t (x ∷ xs) =
    let rest = insert_latest t xs in
    if goes_first x.scheduled_at t.scheduled_at then x ∷ rest else t ∷ x ∷ xs

abbrev pub latest_first : List Ticket → List Ticket
latest_first [] = []
latest_first (t ∷ ts) = insert_latest t (latest_first ts)

-- A ticket of the past is shown without a desk and a place.
abbrev pub past_view : ViewEnv → Env → Db → Ticket → PublicTicket
past_view view env db t =
    to_public view env t (service_name_of db t) none
      (record { queue_position = 0; estimated_wait_minutes = 0 }) (name_of db (last_served db t))
      none

unfoldable pub get_ticket_history : ViewEnv → Env → List ℕ → Db → List PublicTicket
unfolding to_public last_served
get_ticket_history view env hashes db =
    map (past_view view env db)
      (latest_first (filter (λ t. any (λ h. h == t.access_token_hash) hashes) db.tickets))
