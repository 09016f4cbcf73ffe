-- ===== src/RateLimit/Memory.antt =====
-- A server that keeps everything in memory: an instance of the commands for which the laws hold.
use ticket_system.Base.{
  ℕ, suc, ◌+◌, ◌-◌, ◌*◌, ◌/◌, ◌≤◌, ◌<◌, ◌≡◌, ◌≢◌, refl, ap, ◌∙◌, Bool, false, not, ◌&&◌, List, [],
  ◌∷◌, Option, none, some, arith, ltb, leb, if◌then◌else◌, Bool-cases, inl, inr, map, filter,
  is_some,
}
use ticket_system.Domain.{Text}
use ticket_system.Texts.{same_text, same_text_refl, same_text→eq}
use ticket_system.RateLimit.{Redis}
use ticket_system.RateLimit.Laws.{TextLaws, NumberLaws, TimeLaws, LastingLaws, counted}

pub record Member : Type 0 where
  pub set_key : Text
  pub score : ℕ
  pub value : Text

-- A text until a time; a number, it may be until a time; the members of sets.
pub record Memory : Type 0 where
  pub texts : Text → Option (Text × ℕ)
  pub numbers : Text → Option (ℕ × Option ℕ)
  pub members : List Member

abbrev pub empty : Memory
empty = record { texts = λ k. none; numbers = λ k. none; members = [] }

abbrev live_text : ℕ → Option (Text × ℕ) → Option Text
live_text now none = none
live_text now (some (v, until)) = if ltb now until then some v else none

abbrev live_number : ℕ → Option (ℕ × Option ℕ) → Option ℕ
live_number now none = none
live_number now (some (n, none)) = some n
live_number now (some (n, some until)) = if ltb now until then some n else none

-- The entry under one key.
abbrev changed {ℓ} : {A : Type ℓ} → Text → A → (Text → A) → Text → A
changed k a f j = if same_text k j then a else f j

abbrev longer_text : ℕ → ℕ → Option (Text × ℕ) → Option (Text × ℕ)
longer_text now until none = none
longer_text now until (some (v, old)) = if ltb now old then some (v, until) else none

abbrev longer_number : ℕ → ℕ → Option (ℕ × Option ℕ) → Option (ℕ × Option ℕ)
longer_number now until none = none
longer_number now until (some (n, none)) = some (n, some until)
longer_number now until (some (n, some old)) = if ltb now old then some (n, some until) else none

abbrev one_more : ℕ → Option (ℕ × Option ℕ) → Option (ℕ × Option ℕ)
one_more now none = some (1, none)
one_more now (some (n, none)) = some (n + 1, none)
one_more now (some (n, some until)) =
    if ltb now until then some (n + 1, some until) else some (1, none)

abbrev left_seconds : ℕ → Option (Text × ℕ) → ℕ
left_seconds now none = 0
left_seconds now (some (v, until)) = (until - now) / 1000

abbrev is_member : Text → Text → Member → Bool
is_member k v m = same_text m.set_key k && same_text m.value v

abbrev set_text : ℕ → Text → Text → ℕ → Memory → Memory
set_text now k v seconds st = record st {
  texts = changed k (some (v, now + seconds * 1000)) st.texts;
}

-- Keys without an entry answer 0 seconds.
abbrev pub memory : Redis Memory
memory = record {
  get = λ now k st. live_text now (st.texts k);
  set = set_text;
  set_if_absent = λ now k v seconds st.
      if is_some (live_text now (st.texts k)) then none else some (set_text now k v seconds st);
  del = λ k st. record st { texts = changed k none st.texts; numbers = changed k none st.numbers };
  expire = λ now k seconds st. record st {
    texts = changed k (longer_text now (now + seconds * 1000) (st.texts k)) st.texts;
    numbers = changed k (longer_number now (now + seconds * 1000) (st.numbers k)) st.numbers;
  };
  ttl = λ now k st. left_seconds now (st.texts k);
  number = λ now k st. live_number now (st.numbers k);
  incr = λ now k st. (
    counted (live_number now (st.numbers k)) + 1,
    record st { numbers = changed k (one_more now (st.numbers k)) st.numbers },
  );
  z_add = λ now k score v st. record st {
    members =
        record { set_key = k; score = score; value = v }
        ∷ filter (λ m. not (is_member k v m)) st.members;
  };
  z_rem = λ k v st. record st { members = filter (λ m. not (is_member k v m)) st.members };
  z_range = λ now k st. map (λ m. m.value) (filter (λ m. same_text m.set_key k) st.members);
  z_rem_range_by_score = λ k low high st. record st {
    members =
        filter (λ m. not (same_text m.set_key k && leb low m.score && leb m.score high)) st.members;
  };
}

differs : (k j : Text) → k ≢ j → same_text k j ≡ false
differs k j apart = elim (Bool-cases (same_text k j)) [
  | inl same ↦ absurd (apart (same_text→eq k j same))
  | inr other ↦ other
]

longer_text-live :
    (now n : ℕ) (o : Option (Text × ℕ))
    → live_text now (longer_text now (now + suc n * 1000) o) ≡ live_text now o
longer_text-live now n none = refl
longer_text-live now n (some (v, until)) = ground arith

pub memory-TextLaws : TextLaws memory
memory-TextLaws = record {
  get_set = λ now k v n st. rw (same_text_refl k) (ground arith);
  get_set_other = λ now k j v n st apart. rw (differs k j apart) refl;
  set_if_free = λ now k v n st free. rw free refl;
  set_if_taken = λ now k v w n st there. rw there refl;
  get_del = λ now k st. rw (same_text_refl k) refl;
  get_del_other = λ now k j st apart. rw (differs k j apart) refl;
  get_expire = λ now k j n st. elim (Bool-cases (same_text k j)) [
    | inl same ↦ rw same (
        longer_text-live now n (st.texts k)
        ∙ ap (λ i. live_text now (st.texts i)) (same_text→eq k j same))
    | inr other ↦ rw other refl
  ];
  get_z_add = λ now k j score v st apart. refl;
  get_z_rem = λ now k j v st apart. refl;
  get_z_rem_range_by_score = λ now k j low high st apart. refl;
}

one_more-live :
    (now later : ℕ) (o : Option ℕ) (e : Option (ℕ × Option ℕ))
    → now ≤ later
    → live_number now e ≡ o
    → live_number later e ≡ o
    → live_number later (one_more now e) ≡ some (counted o + 1)
one_more-live now later o none le a b = ground arith
one_more-live now later o (some (n, none)) le a b = ground arith
one_more-live now later o (some (n, some until)) le a b = ground arith

longer_number-live :
    (now later until : ℕ) (e : Option (ℕ × Option ℕ))
    → later < until
    → live_number later (longer_number now until e) ≡ live_number now e
longer_number-live now later until none le = refl
longer_number-live now later until (some (n, none)) le = ground arith
longer_number-live now later until (some (n, some old)) le = ground arith

pub memory-NumberLaws : NumberLaws memory
memory-NumberLaws = record {
  incr_number = λ now k st. refl;
  number_incr = λ now later o k st le a b.
      rw (same_text_refl k) (one_more-live now later o (st.numbers k) le a b);
  number_expire = λ now later seconds k st le soon.
      rw (same_text_refl k)
        (longer_number-live now later (now + seconds * 1000) (st.numbers k) soon);
}

pub memory-TimeLaws : TimeLaws memory
memory-TimeLaws = record {
  ttl_set = λ now later n k v st le soon. rw (same_text_refl k) (omega arith);
  ttl_del_other = λ now k j st apart. rw (differs k j apart) refl;
}

longer_text-until :
    (now later until : ℕ) (v : Text) (o : Option (Text × ℕ))
    → later < until
    → live_text now o ≡ some v
    → live_text later (longer_text now until o) ≡ some v
longer_text-until now later until v none soon h = cc
longer_text-until now later until v (some (w, old)) soon h = ground arith

pub memory-LastingLaws : LastingLaws memory
memory-LastingLaws = record {
  get_set_until = λ now later n k v st le soon. rw (same_text_refl k) (ground arith);
  get_set_beside = λ now later n k j v st apart. rw (differs k j apart) refl;
  get_expire_until = λ now later n k v st le soon there.
      rw (same_text_refl k)
        (longer_text-until now later (now + n * 1000) v (st.texts k) soon there);
  get_expire_beside = λ now later n k j st apart. rw (differs k j apart) refl;
  get_z_add_beside = λ now later score k j member st apart. refl;
}
