-- ===== src/Dispatch/Order.antt =====
-- The order of the manager's list of the day, and that of the dispatch of tickets to desks.
use ticket_system.Base.{
  ◌==◌, ◌⊎◌, ◌↔◌, is_some, Option, In, ℕ, ◌<◌, sym, ◌≡◌, true, false, List, [], ◌∷◌, none, some,
  arith, All, Option-cases, subst, Bool-cases, refl, inl, inr,
}
use ticket_system.Base.Int.{ℤ, sub_ℕ, neg-sub_ℕ, neg, is_negative}
use ticket_system.Domain.{
  Ticket, TicketStatus, assigned, called, in_service, completed, cancelled, no_show,
}
use ticket_system.Dispatch.{
  effective_time, no_slot, TicketStatus, ListEntry, then_compare, manager_list_sort_tier,
  compare_manager_tickets, dispatched_before, limit_one,
}

then_compare-neg : (a b : ℕ) (x y : ℤ) → y ≡ neg x → then_compare b a y ≡ neg (then_compare a b x)
unfolding then_compare
then_compare-neg a b x y h = ground arith

-- Comparing two entries of the list the other way round gives the opposite number.
pub compare_manager_tickets-neg :
    (l r : ListEntry) → compare_manager_tickets r l ≡ neg (compare_manager_tickets l r)
unfolding compare_manager_tickets
compare_manager_tickets-neg l r = then_compare-neg _ _ _ _ (
    then_compare-neg _ _ _ _ (then_compare-neg _ _ _ _ (sym (neg-sub_ℕ l.created_at r.created_at))))

-- A client in progress stands above every other entry, and a closed one below every open entry.
pub compare_manager_tickets_tiers :
    (l r : ListEntry)
    → manager_list_sort_tier l.status < manager_list_sort_tier r.status
    → is_negative (compare_manager_tickets l r) ≡ true
unfolding compare_manager_tickets then_compare
compare_manager_tickets_tiers l r h = ground arith

-- Where a client stands in the day: with a manager, still to come or waiting, or done with.
abbrev pub stage : Option TicketStatus → ℕ
stage (some assigned) = 0
stage (some called) = 0
stage (some in_service) = 0
stage (some completed) = 2
stage (some cancelled) = 2
stage (some no_show) = 2
stage _ = 1

stage_lem : (s : Option TicketStatus) → manager_list_sort_tier s ≡ stage s
unfolding manager_list_sort_tier
stage_lem none = refl
stage_lem (some s) = ground arith

-- The time that a client waits for, or has waited since.
abbrev pub since : ListEntry → ℕ
since l = elim l.scheduled_at [ none ↦ l.created_at | some at ↦ at ]

-- The list of a day: clients with a manager, then open ones, then closed ones; in each part those
-- with a slot first, by the time, and by the creation where the time is the same.
pub data ListedBefore (l r : ListEntry) : Type 0 where
  by_stage : stage l.status < stage r.status → ListedBefore l r
  by_slot :
      stage l.status ≡ stage r.status
      → is_some l.scheduled_at ≡ true
      → is_some r.scheduled_at ≡ false
      → ListedBefore l r
  by_time :
      stage l.status ≡ stage r.status
      → is_some l.scheduled_at ≡ is_some r.scheduled_at
      → since l < since r
      → ListedBefore l r
  by_creation :
      stage l.status ≡ stage r.status
      → is_some l.scheduled_at ≡ is_some r.scheduled_at
      → since l ≡ since r
      → l.created_at < r.created_at
      → ListedBefore l r

ListedBefore-compare :
    (l r : ListEntry) → ListedBefore l r → is_negative (compare_manager_tickets l r) ≡ true
unfolding compare_manager_tickets then_compare
ListedBefore-compare l r (by_stage lt) = rw (stage_lem l.status, stage_lem r.status) (ground arith)
ListedBefore-compare l r (by_slot same a b) =
    rw (stage_lem l.status, stage_lem r.status) (ground arith)
ListedBefore-compare l r (by_time same a lt) =
    rw (stage_lem l.status, stage_lem r.status) (ground arith)
ListedBefore-compare l r (by_creation same a e lt) =
    rw (stage_lem l.status, stage_lem r.status) (ground arith)

then_compare-cases :
    (a b : ℕ) (x : ℤ)
    → is_negative (then_compare a b x) ≡ true
    → (a < b) ⊎ ((a ≡ b) × (is_negative x ≡ true))
unfolding then_compare
then_compare-cases a b x h = elim (Bool-cases (a == b)) [
  | inl same ↦ inr (ground arith, rw same at h)
  | inr differs ↦ inl (ground (arith, rw differs at h))
]

sub_ℕ-less : (a b : ℕ) → is_negative (sub_ℕ a b) ≡ true → a < b
sub_ℕ-less a b h = ground arith

no_slot-less : (a b : Option ℕ) → no_slot a < no_slot b → (is_some a ≡ true) × (is_some b ≡ false)
no_slot-less none none h = absurd (omega arith)
no_slot-less none (some y) h = absurd (omega arith)
no_slot-less (some x) none h = (refl, refl)
no_slot-less (some x) (some y) h = absurd (omega arith)

no_slot-same : (a b : Option ℕ) → no_slot a ≡ no_slot b → is_some a ≡ is_some b
no_slot-same none none h = refl
no_slot-same none (some y) h = absurd (omega arith)
no_slot-same (some x) none h = absurd (omega arith)
no_slot-same (some x) (some y) h = refl

effective_time_lem : (l : ListEntry) → effective_time l.scheduled_at l.created_at ≡ since l
effective_time_lem l = ground arith

compare-ListedBefore :
    (l r : ListEntry) → is_negative (compare_manager_tickets l r) ≡ true → ListedBefore l r
unfolding compare_manager_tickets
compare-ListedBefore l r h =
    elim (then_compare-cases (stage l.status) (stage r.status) _
      (rw (stage_lem l.status, stage_lem r.status) at h)) [
        | inl lt ↦ by_stage lt
        | inr (same, h1) ↦
            elim (then_compare-cases (no_slot l.scheduled_at) (no_slot r.scheduled_at) _ h1) [
              | inl lt ↦
                  by_slot same (no_slot-less l.scheduled_at r.scheduled_at lt).0
                    (no_slot-less l.scheduled_at r.scheduled_at lt).1
              | inr (slots, h2) ↦
                  elim (then_compare-cases (since l) (since r) _
                    (rw (effective_time_lem l, effective_time_lem r) at h2)) [
                      | inl lt ↦ by_time same (no_slot-same l.scheduled_at r.scheduled_at slots) lt
                      | inr (times, h3) ↦
                          by_creation same (no_slot-same l.scheduled_at r.scheduled_at slots) times
                            (sub_ℕ-less l.created_at r.created_at h3)
                    ]
            ]
      ]

-- One entry of the manager's list compares as less than another exactly where it is listed before it: a client with a manager before an open one, an open one before a closed one; then one with a slot before one without; then by the time of the slot, or of the creation where there is none; then by the creation.
pub compare_manager_tickets-ListedBefore :
    (l r : ListEntry) → (is_negative (compare_manager_tickets l r) ≡ true) ↔ ListedBefore l r
compare_manager_tickets-ListedBefore l r = (compare-ListedBefore l r, ListedBefore-compare l r)

pub dispatched_before_trans :
    (l m r : Ticket)
    → dispatched_before m l ≡ false
    → dispatched_before r m ≡ false
    → dispatched_before r l ≡ false
unfolding dispatched_before
dispatched_before_trans l m r h k = ground arith

pub dispatched_before-asym :
    (l r : Ticket) → dispatched_before l r ≡ true → dispatched_before r l ≡ false
unfolding dispatched_before
dispatched_before-asym l r h = ground arith

-- `limit_one` finds a row wherever there is one.
pub limit_one-none : (xs : List Ticket) → limit_one dispatched_before xs ≡ none → xs ≡ []
unfolding limit_one
limit_one-none [] h = refl
limit_one-none (x ∷ xs) h = ground arith

dispatched_before_self : (t : Ticket) → dispatched_before t t ≡ false
unfolding dispatched_before
dispatched_before_self t = ground arith

-- No row comes before the given one.
abbrev pub IsFirst : Ticket → List Ticket → Type 0
IsFirst t xs = All (λ u. dispatched_before u t ≡ false) xs

IsFirst-trans :
    (t y : Ticket) (xs : List Ticket) → dispatched_before y t ≡ false → IsFirst y xs → IsFirst t xs
IsFirst-trans t y [] h a = tt
IsFirst-trans t y (u ∷ xs) h a = (dispatched_before_trans t y u h a.0, IsFirst-trans t y xs h a.1)

-- No row of the query comes before the one that `limit_one` returns.
pub limit_one-IsFirst :
    (xs : List Ticket) (t : Ticket) → limit_one dispatched_before xs ≡ some t → IsFirst t xs
unfolding limit_one
limit_one-IsFirst [] t h = tt
limit_one-IsFirst (x ∷ xs) t h = elim (Option-cases (limit_one dispatched_before xs)) [
  | inl e ↦ rw (limit_one-none xs e) (ground (arith, dispatched_before_self x), tt)
  | inr (y, e) ↦ elim (Bool-cases (dispatched_before y x)) [
    | inl b ↦
        let same : t ≡ y = ground arith in
        subst (λ s. IsFirst s (x ∷ xs)) (sym same)
          (dispatched_before-asym y x b, limit_one-IsFirst xs y e)
    | inr b ↦
        let same : t ≡ x = ground arith in
        subst (λ s. IsFirst s (x ∷ xs)) (sym same)
          (dispatched_before_self x, IsFirst-trans x y xs b (limit_one-IsFirst xs y e))
  ]
]

-- The row that `limit_one` returns is one of the query's.
pub limit_one-In :
    (xs : List Ticket) (t : Ticket) → limit_one dispatched_before xs ≡ some t → In t xs
unfolding limit_one
limit_one-In [] t h = cc
limit_one-In (x ∷ xs) t h = elim (Option-cases (limit_one dispatched_before xs)) [
  | inl e ↦ inl (ground arith)
  | inr (y, e) ↦ elim (Bool-cases (dispatched_before y x)) [
    | inl b ↦ inr (limit_one-In xs t (ground arith))
    | inr b ↦ inl (ground arith)
  ]
]
