-- ===== src/RateLimit/Laws.antt =====
-- What the service relies on of the server, from the documentation of its commands.
use ticket_system.Base.{true, false, Option, ℕ, ◌+◌, ◌*◌, ◌≤◌, ◌<◌, ◌≡◌, ◌≢◌, suc, none, some}
use ticket_system.Domain.{Text}
use ticket_system.RateLimit.{is_blank, Spelling, Redis}
use ticket_system.Texts.{without}

-- Texts under keys, at one time: a key that has been set is there, a deleted one is not, and a
-- command on one key leaves the others as they are.
pub record TextLaws {S : Type 0} (redis : Redis S) : Type 0 where
  pub get_set :
      (now : ℕ) (k v : Text) (n : ℕ) (st : S)
      → redis.get now k (redis.set now k v (suc n) st) ≡ some v
  pub get_set_other :
      (now : ℕ) (k j v : Text) (n : ℕ) (st : S)
      → k ≢ j
      → redis.get now j (redis.set now k v n st) ≡ redis.get now j st
  pub set_if_free :
      (now : ℕ) (k v : Text) (n : ℕ) (st : S)
      → redis.get now k st ≡ none
      → redis.set_if_absent now k v n st ≡ some (redis.set now k v n st)
  pub set_if_taken :
      (now : ℕ) (k v w : Text) (n : ℕ) (st : S)
      → redis.get now k st ≡ some w
      → redis.set_if_absent now k v n st ≡ none
  pub get_del : (now : ℕ) (k : Text) (st : S) → redis.get now k (redis.del k st) ≡ none
  pub get_del_other :
      (now : ℕ) (k j : Text) (st : S)
      → k ≢ j
      → redis.get now j (redis.del k st) ≡ redis.get now j st
  pub get_expire :
      (now : ℕ) (k j : Text) (n : ℕ) (st : S)
      → redis.get now j (redis.expire now k (suc n) st) ≡ redis.get now j st
  pub get_z_add :
      (now : ℕ) (k j : Text) (score : ℕ) (member : Text) (st : S)
      → k ≢ j
      → redis.get now j (redis.z_add now k score member st) ≡ redis.get now j st
  pub get_z_rem :
      (now : ℕ) (k j member : Text) (st : S)
      → k ≢ j
      → redis.get now j (redis.z_rem k member st) ≡ redis.get now j st
  pub get_z_rem_range_by_score :
      (now : ℕ) (k j : Text) (low high : ℕ) (st : S)
      → k ≢ j
      → redis.get now j (redis.z_rem_range_by_score k low high st) ≡ redis.get now j st

-- `INCR` counts an absent key as 0.
abbrev pub counted : Option ℕ → ℕ
counted none = 0
counted (some n) = n

-- A number under a key, in time: `INCR` adds one and keeps the time to live, and `EXPIRE` keeps the
-- number until the time is over.
pub record NumberLaws {S : Type 0} (redis : Redis S) : Type 0 where
  pub incr_number :
      (now : ℕ) (k : Text) (st : S) → (redis.incr now k st).0 ≡ counted (redis.number now k st) + 1
  pub number_incr :
      (now later : ℕ) (o : Option ℕ) (k : Text) (st : S)
      → now ≤ later
      → redis.number now k st ≡ o
      → redis.number later k st ≡ o
      → redis.number later k (redis.incr now k st).1 ≡ some (counted o + 1)
  pub number_expire :
      (now later seconds : ℕ) (k : Text) (st : S)
      → now ≤ later
      → later < now + seconds * 1000
      → redis.number later k (redis.expire now k seconds st) ≡ redis.number now k st

-- A time that has been spelled is read back, and so is a uuid, which has no colon.
pub record SpellingLaws (spell : Spelling) : Type 0 where
  pub time_of_iso : (at : ℕ) → spell.time_of (spell.iso at) ≡ some at
  pub uuid_of_uuid : (id : ℕ) → spell.uuid_of (spell.uuid id) ≡ some id
  pub uuid_full : (id : ℕ) → is_blank (spell.uuid id) ≡ false
  pub uuid_plain : (id : ℕ) → without 58 (spell.uuid id) ≡ true

-- The seconds that a key has left, in time: at least one until a second before the end, and a
-- deleted key does not change those of the others.
pub record TimeLaws {S : Type 0} (redis : Redis S) : Type 0 where
  pub ttl_set :
      (now later n : ℕ) (k v : Text) (st : S)
      → now ≤ later
      → later + 1000 ≤ now + n * 1000
      → 0 < redis.ttl later k (redis.set now k v n st)
  pub ttl_del_other :
      (now : ℕ) (k j : Text) (st : S)
      → k ≢ j
      → redis.ttl now j (redis.del k st) ≡ redis.ttl now j st

-- Texts under keys, at a later time: a key that is set, or given a time to live while it is there, is
-- there until the seconds are over, and a command on one key leaves the others as they are.
pub record LastingLaws {S : Type 0} (redis : Redis S) : Type 0 where
  pub get_set_until :
      (now later n : ℕ) (k v : Text) (st : S)
      → now ≤ later
      → later < now + n * 1000
      → redis.get later k (redis.set now k v n st) ≡ some v
  pub get_set_beside :
      (now later n : ℕ) (k j v : Text) (st : S)
      → k ≢ j
      → redis.get later j (redis.set now k v n st) ≡ redis.get later j st
  pub get_expire_until :
      (now later n : ℕ) (k v : Text) (st : S)
      → now ≤ later
      → later < now + n * 1000
      → redis.get now k st ≡ some v
      → redis.get later k (redis.expire now k n st) ≡ some v
  pub get_expire_beside :
      (now later n : ℕ) (k j : Text) (st : S)
      → k ≢ j
      → redis.get later j (redis.expire now k n st) ≡ redis.get later j st
  pub get_z_add_beside :
      (now later score : ℕ) (k j member : Text) (st : S)
      → k ≢ j
      → redis.get later j (redis.z_add now k score member st) ≡ redis.get later j st
