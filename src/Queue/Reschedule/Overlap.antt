-- ===== src/Queue/Reschedule/Overlap.antt =====
-- No two bookings of a desk overlap, and a booking that moves keeps it so.
use ticket_system.Base.{
  any, not, row, ℕ, ◌≡◌, ◌≢◌, false, List, [], ◌∷◌, none, some, arith, ◌==◌, put, is_id, inl, inr,
  Bool-cases,
}
use ticket_system.Domain.{
  ClientCountry, includes, Desk, Ticket, ticket_keyed, completed, cancelled, no_show,
}
use ticket_system.Booking.{Calendar, Hold, holds_slot, assert_slot_available, reserve_desk}
use ticket_system.Booking.Reserve.{reserve_desk-holds_slot}
use ticket_system.Booking.Overlap.{
  clashes, IsDisjoint, put-IsDisjoint, is_id-some, meets-overlap_at,
}
use ticket_system.Queue.Reschedule.{same_slot, reschedule_ticket, save_slot, moved, query_of}
use ticket_system.Queue.Store.{
  save_ticket, ok, duplicate_key, not_found, bad_request, conflict, audit, event, Db, Env,
}
use ticket_system.Queue.Holds.{guard-Holds, require-Holds, bind-Holds, then-Holds, Holds}

apart_ids : (a b : ℕ) → a ≢ b → (a == b) ≡ false
apart_ids a b h = ground arith

-- What the query finds free is free of clashes.
pub moved-clashes :
    (label : ℕ → List ℕ) (t u : Ticket) (at : ℕ) (c : ClientCountry) (d : Desk)
    → t.country ≡ some c
    → t.id ≢ u.id
    → (u.reserved_desk ≡ some d.id → holds_slot (query_of t c at) u ≡ false)
    → clashes (moved label t at d) u ≡ false
unfolding holds_slot
moved-clashes label t u at c d direction apart free =
    elim (Bool-cases (is_id u.reserved_desk d.id)) [
      | inr other ↦ ground arith
      | inl same ↦ ground (
        arith,
        free (is_id-some u.reserved_desk d.id same),
        meets-overlap_at (query_of t c at) u,
        apart_ids t.id u.id apart,
        direction,
      )
    ]

save_slot-IsDisjoint :
    (t : Ticket) (db : Db)
    → IsDisjoint (put t db.tickets)
    → Holds (λ saved. IsDisjoint saved.tickets) (save_slot t db)
unfolding save_slot
save_slot-IsDisjoint t db v =
    guard-Holds (λ saved. IsDisjoint saved.tickets) (not (any (same_slot t) db.tickets))
      duplicate_key (ok (save_ticket t db)) λ _. v

-- Where no two bookings of a desk overlap, none do after a booking has been moved to another time.
pub reschedule_ticket-IsDisjoint :
    (cal : Calendar) (label : ℕ → List ℕ) (holds : List Hold) (env : Env) (subject id at : ℕ)
    (db : Db)
    → IsDisjoint db.tickets
    → Holds (λ r. IsDisjoint r.1.tickets) (reschedule_ticket cal label holds env subject id at db)
unfolding reschedule_ticket event audit
reschedule_ticket-IsDisjoint cal label holds env subject id at db v =
    require-Holds {B = Ticket × Db} (λ r. IsDisjoint r.1.tickets) (row id db.tickets) not_found _
      λ t there.
        require-Holds {B = Ticket × Db} (λ r. IsDisjoint r.1.tickets) t.scheduled_at bad_request _
          λ previous _.
            require-Holds {B = Ticket × Db} (λ r. IsDisjoint r.1.tickets) t.country bad_request _
              λ c direction.
                guard-Holds {B = Ticket × Db} (λ r. IsDisjoint r.1.tickets)
                  (not (includes (completed ∷ cancelled ∷ no_show ∷ []) t.status)) conflict _
                  λ _.
                    then-Holds {B = Ticket × Db} (λ r. IsDisjoint r.1.tickets)
                      (assert_slot_available cal holds env.now (query_of t c at) db) _
                      λ _ _.
                        then-Holds {B = Ticket × Db} (λ r. IsDisjoint r.1.tickets)
                          (reserve_desk cal holds (query_of t c at) none db) _
                          λ d chosen.
                            bind-Holds {B = Ticket × Db} (λ r. IsDisjoint r.1.tickets)
                              (λ saved. IsDisjoint saved.tickets)
                              (save_slot (moved label t at d) db) _
                              (save_slot-IsDisjoint (moved label t at d) db (
                                put-IsDisjoint (moved label t at d) db.tickets v λ u i apart.
                                  moved-clashes label t u at c d direction apart (
                                    reserve_desk-holds_slot cal holds (query_of t c at) none db d u
                                      chosen i)))
                              λ saved w. w
