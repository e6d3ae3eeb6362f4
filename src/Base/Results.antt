-- ===== src/Base/Results.antt =====
-- How a run of fallible code ends, and the writers that it writes to.
use mathlib.Core.Path.{◌≡◌, refl}
use mathlib.Core.Logic.{◌⊎◌, inl, inr}
use mathlib.Core.Option.{Option, none, some}

-- `ok` and `err` are the two cases of `Result`; `panic` is a panic of Rust (a failed assertion, an
-- index out of range), and `stuck` is no end at all: a loop used up the rounds that it was given.
pub data Outcome {ℓ} (E A : Type ℓ) : Type ℓ where
  ok : A → Outcome E A
  err : E → Outcome E A
  panic : Outcome E A
  stuck : Outcome E A

-- `?`: only `ok` goes on.
infixl 5 ◌>>=◌
abbrev pub ◌>>=◌ {ℓ} : {E A B : Type ℓ} → Outcome E A → (A → Outcome E B) → Outcome E B
panic >>= next = panic
stuck >>= next = stuck
err e >>= next = err e
ok a >>= next = next a

abbrev pub ok_or {ℓ} : {E A : Type ℓ} → Option A → E → Outcome E A
ok_or (some a) e = ok a
ok_or none e = err e

-- `?` behind an index or a slice expression: out of range it panics.
abbrev pub ok_or_panic {ℓ} : {E A : Type ℓ} → Option A → Outcome E A
ok_or_panic (some a) = ok a
ok_or_panic none = panic

-- `?` where the error is converted.
abbrev pub map_err {ℓ} : {E F A : Type ℓ} → (E → F) → Outcome E A → Outcome F A
map_err f (ok a) = ok a
map_err f (err e) = err (f e)
map_err f panic = panic
map_err f stuck = stuck

-- A run that ends well ran well up to any `?` in it.
pub bind-ok {ℓ} :
    {E A B : Type ℓ} (b : B) (next : A → Outcome E B) (first : Outcome E A)
    → (first >>= next) ≡ ok b
    → (a : A) × (next a ≡ ok b) × (first ≡ ok a)
bind-ok b next panic e = cc
bind-ok b next stuck e = cc
bind-ok b next (err x) e = cc
bind-ok b next (ok a) e = (a, e, refl)

-- A run that ends, in one of the two cases of `Result`.
abbrev pub IsEnd {ℓ} : {E A : Type ℓ} → Outcome E A → Type ℓ
IsEnd {E = E} {A = A} m = ((a : A) × (m ≡ ok a)) ⊎ ((e : E) × (m ≡ err e))

pub bind-IsEnd {ℓ} :
    {E A B : Type ℓ} (first : Outcome E A) (next : A → Outcome E B)
    → IsEnd first
    → ((a : A) → first ≡ ok a → IsEnd (next a))
    → IsEnd (first >>= next)
bind-IsEnd (ok a) next h k = k a refl
bind-IsEnd (err e) next h k = inr (e, refl)
bind-IsEnd panic next (inl (a, e)) k = cc
bind-IsEnd panic next (inr (x, e)) k = cc
bind-IsEnd stuck next (inl (a, e)) k = cc
bind-IsEnd stuck next (inr (x, e)) k = cc

-- The same, with what holds of the value.
abbrev pub EndsIn {ℓ} : {E A : Type ℓ} → (A → Type ℓ) → Outcome E A → Type ℓ
EndsIn {E = E} {A = A} P m = ((a : A) × (m ≡ ok a) × P a) ⊎ ((e : E) × (m ≡ err e))

pub bind-EndsIn {ℓ} :
    {E A B : Type ℓ} (P : A → Type ℓ) (Q : B → Type ℓ) (first : Outcome E A)
    (next : A → Outcome E B)
    → EndsIn P first
    → ((a : A) → P a → EndsIn Q (next a))
    → EndsIn Q (first >>= next)
bind-EndsIn P Q first next (inl (a, e, p)) k = rw e (k a p)
bind-EndsIn P Q first next (inr (x, e)) k = rw e (inr (x, refl))
