-- ===== src/Queue/Assign/Pick.antt =====
-- Which ticket `assignNext` picks for a desk.
use ticket_system.Base.{
  ℕ, ◌≡◌, ◌&&◌, ◌⊎◌, List, [], none, some, filter, or_else, is_id, In, Option-cases, inl, inr,
}
use ticket_system.Domain.{Ticket, ClientCountry}
use ticket_system.Queue.Store.{Env}
use ticket_system.Queue.Assign.{Loaded, is_candidate, pick_ticket}
use ticket_system.Dispatch.{dispatched_before, limit_one}
use ticket_system.Dispatch.Order.{limit_one-In, limit_one-IsFirst, limit_one-none, IsFirst}

module _ (env : Env) (e : Loaded) (c : ClientCountry) (desk : ℕ) (ts : List Ticket) where
  -- The tickets that wait for the employee, and those among them that are reserved for the desk.
  abbrev pub candidates : List Ticket
  candidates = filter (is_candidate env e c) ts

  abbrev pub reserved : List Ticket
  reserved = filter (λ t. is_candidate env e c t && is_id t.reserved_desk desk) ts

-- First in the order of dispatch among the reserved tickets, or, where there are none, among all.
abbrev pub IsPick : Env → Loaded → ClientCountry → ℕ → List Ticket → Ticket → Type 0
IsPick env e c desk ts t =
    (In t (reserved env e c desk ts) × IsFirst t (reserved env e c desk ts))
    ⊎ ((reserved env e c desk ts ≡ [])
        × In t (candidates env e c desk ts)
        × IsFirst t (candidates env e c desk ts))

-- The ticket that is picked for a desk is a candidate that is reserved for the desk, and no such candidate comes before it in the order of dispatch; or no candidate is reserved for the desk, and it is a candidate that no candidate comes before.
pub pick_ticket-IsPick :
    (env : Env) (e : Loaded) (c : ClientCountry) (desk : ℕ) (ts : List Ticket) (t : Ticket)
    → pick_ticket env e c desk ts ≡ some t
    → IsPick env e c desk ts t
unfolding pick_ticket
pick_ticket-IsPick env e c desk ts t h =
    elim (Option-cases (limit_one dispatched_before (reserved env e c desk ts))) [
      | inl out ↦
          let k : limit_one dispatched_before (candidates env e c desk ts) ≡ some t =
            rw (out, or_else) at h in
          inr (limit_one-none _ out, limit_one-In _ t k, limit_one-IsFirst _ t k)
      | inr (u, has) ↦
          let same : u ≡ t = cc (rw has at h) in
          let k : limit_one dispatched_before (reserved env e c desk ts) ≡ some t = cc in
          inl (limit_one-In _ t k, limit_one-IsFirst _ t k)
    ]

-- No ticket is picked only where the employee has no candidate.
pub pick_ticket-none :
    (env : Env) (e : Loaded) (c : ClientCountry) (desk : ℕ) (ts : List Ticket)
    → pick_ticket env e c desk ts ≡ none
    → candidates env e c desk ts ≡ []
unfolding pick_ticket
pick_ticket-none env e c desk ts h =
    elim (Option-cases (limit_one dispatched_before (reserved env e c desk ts))) [
      | inl out ↦ limit_one-none _ (rw (out, or_else) at h)
      | inr (u, has) ↦ cc (rw has at h)
    ]
