-- ===== src/Queue/Holds.antt =====
-- What every success of a fallible step satisfies, and its rules for the steps of a `do` block.
use ticket_system.Base.{◌≡◌, refl, Bool, true, false, Option, none, some, subst}
use ticket_system.Queue.Store.{Error, Result, ok, err, ◌>>=◌, ◌>>◌, guard, require}

abbrev pub Holds {ℓ κ} : {A : Type ℓ} → (A → Type κ) → Result A → Type κ
Holds P (ok a) = P a
Holds P (err e) = Unit

module _ {ℓ κ} {B : Type ℓ} (P : B → Type κ) where
  pub guard-Holds :
      (b : Bool) (e : Error) (k : Result B) → (b ≡ true → Holds P k) → Holds P (guard b e >> k)
  guard-Holds true e k h = h refl
  guard-Holds false e k h = tt

  pub require-Holds {μ} :
      {A : Type μ} (o : Option A) (e : Error) (f : A → Result B)
      → ((a : A) → o ≡ some a → Holds P (f a))
      → Holds P (require o e >>= f)
  require-Holds none e f h = tt
  require-Holds (some a) e f h = h a refl

  pub bind-Holds {μ ν} :
      {A : Type μ} (Q : A → Type ν) (m : Result A) (f : A → Result B)
      → Holds Q m
      → ((a : A) → Q a → Holds P (f a))
      → Holds P (m >>= f)
  bind-Holds Q (ok a) f q h = h a q
  bind-Holds Q (err e) f q h = tt

  pub Holds-ok : (m : Result B) (b : B) → Holds P m → m ≡ ok b → P b
  Holds-ok m b h e = subst (Holds P) e h

  -- The second step may use what the first one returned.
  pub then-Holds {μ} :
      {A : Type μ} (m : Result A) (f : A → Result B)
      → ((a : A) → m ≡ ok a → Holds P (f a))
      → Holds P (m >>= f)
  then-Holds (ok a) f h = h a refl
  then-Holds (err e) f h = tt

-- A weaker predicate holds too.
pub weaken-Holds {ℓ κ μ} :
    {B : Type ℓ} (P : B → Type κ) (Q : B → Type μ) (m : Result B)
    → ((b : B) → P b → Q b)
    → Holds P m
    → Holds Q m
weaken-Holds P Q (ok b) f h = f b h
weaken-Holds P Q (err e) f h = tt
