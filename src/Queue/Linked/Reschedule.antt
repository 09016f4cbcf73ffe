-- ===== src/Queue/Linked/Reschedule.antt =====
-- A booking that moves keeps the tables linked.
use ticket_system.Base.{false, ◌≢◌, In, ℕ, ◌≡◌, refl, not, List, [], ◌∷◌, none, some, row, any}
use ticket_system.Domain.{Ticket, completed, cancelled, no_show, includes, ticket_keyed}
use ticket_system.Booking.{Calendar, Hold, assert_slot_available, reserve_desk}
use ticket_system.Queue.Reschedule.{moved, query_of, save_slot, same_slot, reschedule_ticket}
use ticket_system.Queue.Store.{
  Db, Env, ok, save_ticket, event, audit, not_found, bad_request, conflict, duplicate_key,
}
use ticket_system.Queue.Holds.{Holds, require-Holds, guard-Holds, bind-Holds, then-Holds}
use ticket_system.Queue.Linked.{write_ticket, clashes, IsLinked, ticket_row}
use ticket_system.Queue.Reschedule.Overlap.{moved-clashes}
use ticket_system.Booking.Reserve.{reserve_desk-holds_slot}

save_slot-IsLinked :
    (t t' : Ticket) (db : Db)
    → IsLinked db
    → row t.id db.tickets ≡ some t
    → t'.id ≡ t.id
    → t'.status ≡ t.status
    → ((u : Ticket) → In u db.tickets → t'.id ≢ u.id → clashes t' u ≡ false)
    → Holds IsLinked (save_slot t' db)
unfolding save_slot
save_slot-IsLinked t t' db v there same keeps free =
    guard-Holds IsLinked (not (any (same_slot t') db.tickets)) duplicate_key
      (ok (save_ticket t' db)) λ _. write_ticket v t t' there same (rw keeps refl) free

pub reschedule_ticket-IsLinked :
    (cal : Calendar) (label : ℕ → List ℕ) (holds : List Hold) (env : Env) (subject id at : ℕ)
    (db : Db)
    → IsLinked db
    → Holds (λ r. IsLinked r.1) (reschedule_ticket cal label holds env subject id at db)
unfolding reschedule_ticket event audit
reschedule_ticket-IsLinked cal label holds env subject id at db v =
    require-Holds {B = Ticket × Db} (λ r. IsLinked r.1) (row id db.tickets) not_found _
      λ t there.
        require-Holds {B = Ticket × Db} (λ r. IsLinked r.1) t.scheduled_at bad_request _
          λ previous _.
            require-Holds {B = Ticket × Db} (λ r. IsLinked r.1) t.country bad_request _
              λ c direction.
                guard-Holds {B = Ticket × Db} (λ r. IsLinked r.1)
                  (not (includes (completed ∷ cancelled ∷ no_show ∷ []) t.status)) conflict _
                  λ _.
                    then-Holds {B = Ticket × Db} (λ r. IsLinked r.1)
                      (assert_slot_available cal holds env.now (query_of t c at) db) _
                      λ _ _.
                        then-Holds {B = Ticket × Db} (λ r. IsLinked r.1)
                          (reserve_desk cal holds (query_of t c at) none db) _
                          λ d chosen.
                            bind-Holds {B = Ticket × Db} (λ r. IsLinked r.1) IsLinked
                              (save_slot (moved label t at d) db) _
                              (save_slot-IsLinked t (moved label t at d) db v
                                (ticket_row v _ t there) refl refl
                                λ u i other. moved-clashes label t u at c d direction other (
                                  reserve_desk-holds_slot cal holds (query_of t c at) none db d u
                                    chosen i))
                              λ saved w. w
