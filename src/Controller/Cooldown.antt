-- ===== src/Controller/Cooldown.antt =====
-- A visitor who has cancelled waits before the next ticket.
use ticket_system.Base.{
  ap, ℕ, ◌+◌, ◌≤◌, ◌<◌, ◌≡◌, ◌≢◌, refl, arith, true, false, Option, none, some, ltb, ◌++◌,
}
use ticket_system.Domain.{Text}
use ticket_system.Texts.{starts_with}
use ticket_system.RateLimit.{Redis}
use ticket_system.RateLimit.Laws.{TimeLaws}
use ticket_system.RateLimit.Tickets.{
  cooldown_prefix, bind_prefix, assert_can_create_ticket, record_ticket_cancelled,
  clear_active_ticket,
}
use ticket_system.Queue.Store.{Db, Result, ok, err}
use ticket_system.Queue.Views.{PublicTicket}
use ticket_system.Controller.{
  World, Visit, CreateBody, gone, too_many, cancel, dropped, after_cancel, find_active_ticket,
  create, create_limited, is_filled,
}

bind-cooldown : (ip : Text) → bind_prefix ++ ip ≢ cooldown_prefix ++ ip
bind-cooldown ip e = let same : true ≡ false = ap (starts_with bind_prefix) e in cc

module _ {S : Type 0} (redis : Redis S) (laws : TimeLaws redis) where
  after_cancel-store :
      (v : Visit) (w : World S) (m : Result (Unit {0} × Db))
      → (after_cancel redis v w m).0 ≡ gone
      → (after_cancel redis v w m).1.store
        ≡ clear_active_ticket redis v.ip (record_ticket_cancelled redis v.env.now v.ip w.store)
  unfolding after_cancel
  after_cancel-store v w (ok (done, db)) h = refl
  after_cancel-store v w (err e) h = cc

  -- After a cancellation the cooldown runs.
  dropped-ttl :
      (v : Visit) (o : Option (ℕ × PublicTicket) × World S) (later : ℕ)
      → (dropped redis v o).0 ≡ gone
      → v.env.now ≤ later
      → later < v.env.now + 299000
      → 0 < redis.ttl later (cooldown_prefix ++ v.ip) (dropped redis v o).1.store
  unfolding dropped clear_active_ticket record_ticket_cancelled
  dropped-ttl v (none, w) later h le soon = cc
  dropped-ttl v (some (hash, p), w) later h le soon =
      rw
        (
          after_cancel-store v w _ h,
          laws.ttl_del_other later (bind_prefix ++ v.ip) (cooldown_prefix ++ v.ip)
              (record_ticket_cancelled redis v.env.now v.ip w.store) (bind-cooldown v.ip),
        )
        (laws.ttl_set v.env.now later 300 (cooldown_prefix ++ v.ip) _ w.store le (omega arith))

  -- For the 299 seconds after a cancellation that was accepted, and on what it left in Redis, `create` from the same address changes nothing, and answers that the visitor has to wait.
  pub cancel-create :
      (v later : Visit) (b : CreateBody) (w w' : World S)
      → (cancel redis v w).0 ≡ gone
      → later.ip ≡ v.ip
      → v.env.now ≤ later.env.now
      → later.env.now < v.env.now + 299000
      → w'.store ≡ (cancel redis v w).1.store
      → is_filled b.website ≡ false
      → (seconds : ℕ) × (0 < seconds) × (create redis later b w' ≡ (too_many seconds, w'))
  unfolding cancel create assert_can_create_ticket create_limited
  cancel-create v later b w w' h ip le soon kept person =
      let left : 0 < redis.ttl later.env.now (cooldown_prefix ++ later.ip) w'.store =
        rw (ip, kept) (dropped-ttl v (find_active_ticket redis v w) later.env.now h le soon) in
      let over : ltb 0 (redis.ttl later.env.now (cooldown_prefix ++ later.ip) w'.store) ≡ true =
        ground arith in
      (redis.ttl later.env.now (cooldown_prefix ++ later.ip) w'.store, left, rw (person, over) refl)
