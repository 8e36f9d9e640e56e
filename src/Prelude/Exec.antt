-- ===== src/Prelude/Exec.antt =====
-- Methods that change an object and may raise: the object comes back beside the error too.
use mathlib.Core.Path.{◌≡◌, refl, ap}
use mathlib.Core.Logic.{◌⊎◌, ◌≢◌, inl, inr}
use native.Mathlib.Omega.{arith}
use mathlib.Core.Bool.{Bool, true, false}
use mathlib.Core.Option.{Option, none, some}

pub data Result {ℓ} (E A : Type ℓ) : Type ℓ where
  ok : A → Result E A
  err : E → Result E A

pub Result-cases :
    {E A : Type 0} (r : Result E A) → ((a : A) × (r ≡ ok a)) ⊎ ((e : E) × (r ≡ err e))
Result-cases (ok a) = inl (a, refl)
Result-cases (err e) = inr (e, refl)

abbrev pub Exec {ℓ} : Type ℓ → Type ℓ → Type ℓ → Type ℓ
Exec S E A = S → Result E A × S

module _ {ℓ} {S E A : Type ℓ} where
  abbrev pub pure : A → Exec S E A
  pure a s = (ok a, s)

  abbrev pub raise : E → Exec S E A
  raise e s = (err e, s)

  -- the value, or the exception for `None`
  abbrev pub or_raise : Option A → E → Exec S E A
  or_raise none e s = (err e, s)
  or_raise (some a) e s = (ok a, s)

  abbrev pub gets : (S → A) → Exec S E A
  gets f s = (ok (f s), s)

abbrev pub guard : {S E : Type 0} → Bool → E → Exec S E (Unit {0})
guard true e s = (ok tt, s)
guard false e s = (err e, s)

abbrev pub modify : {S E : Type 0} → (S → S) → Exec S E (Unit {0})
modify f s = (ok tt, f s)

module _ {ℓ} {S E A B : Type ℓ} where
  abbrev pub continue : Result E A → (A → Exec S E B) → Exec S E B
  continue (ok a) f s = f a s
  continue (err e) f s = (err e, s)

  infixl 5 ◌>>=◌ ◌>>◌
  abbrev pub ◌>>=◌ : Exec S E A → (A → Exec S E B) → Exec S E B
  ◌>>=◌ m f s = let (r, s') = m s in continue r f s'

  abbrev pub ◌>>◌ : Exec S E A → Exec S E B → Exec S E B
  ◌>>◌ m n s = let (r, s') = m s in continue r (λ _. n) s'

module _ {ℓ κ} {S E A B : Type ℓ} (P : S → Type κ) where
  continue-state :
      (r : Result E A) (f : A → Exec S E B) (s : S)
      → P s
      → ((a : A) → r ≡ ok a → P (f a s).1)
      → P (continue r f s).1
  continue-state (ok a) f s h k = k a refl
  continue-state (err e) f s h k = h

  -- What the first part leaves, and the second keeps where it runs, the whole leaves.
  pub bind-state :
      (m : Exec S E A) (f : A → Exec S E B) (s : S)
      → P (m s).1
      → ((a : A) → (m s).0 ≡ ok a → P (f a (m s).1).1)
      → P ((m >>= f) s).1
  bind-state m f s h k = continue-state (m s).0 f (m s).1 h k

module _ {ℓ} {S E A B : Type ℓ} where
  continue-ok :
      (r : Result E A) (f : A → Exec S E B) (s : S) (b : B)
      → (continue r f s).0 ≡ ok b
      → (a : A) × (r ≡ ok a) × ((f a s).0 ≡ ok b)
  continue-ok (ok a) f s b h = (a, refl, h)
  continue-ok (err e) f s b h = cc

  -- A whole that returns has parts that return.
  pub bind-ok :
      (m : Exec S E A) (f : A → Exec S E B) (s : S) (b : B)
      → ((m >>= f) s).0 ≡ ok b
      → (a : A) × ((m s).0 ≡ ok a) × ((f a (m s).1).0 ≡ ok b)
  bind-ok m f s b h = continue-ok (m s).0 f (m s).1 b h

-- What a first part that returns goes on with.
pub bind-run :
    {S E A B : Type 0} (m : Exec S E A) (f : A → Exec S E B) (s : S) (a : A)
    → (m s).0 ≡ ok a
    → (m >>= f) s ≡ f a (m s).1
bind-run m f s a h = ap (λ r. continue r f (m s).1) h

-- A test that succeeds changes nothing.
pub guard-true :
    {S E A : Type 0} (b : Bool) (e : E) (m : Exec S E A) (s : S)
    → b ≡ true
    → (guard b e >> m) s ≡ m s
guard-true true e m s h = refl
guard-true false e m s h = cc

pub or_raise-some :
    {S E A B : Type 0} (o : Option B) (e : E) (f : B → Exec S E A) (s : S) (b : B)
    → o ≡ some b
    → (or_raise o e >>= f) s ≡ f b s
or_raise-some none e f s b h = cc
or_raise-some (some c) e f s b h = ap (λ x. (or_raise x e >>= f) s) h

-- `if not b: m`
abbrev pub unless : {S E : Type 0} → Bool → Exec S E (Unit {0}) → Exec S E (Unit {0})
unless true m s = (ok tt, s)
unless false m s = m s

module _ {κ} {S E A : Type 0} (P : S → Type κ) where
  -- What holds before, and after the rest where the test succeeds, holds after both.
  pub guard-state :
      (b : Bool) (e : E) (m : Exec S E A) (s : S)
      → P s
      → (b ≡ true → P (m s).1)
      → P ((guard b e >> m) s).1
  guard-state true e m s h k = k refl
  guard-state false e m s h k = h

  pub or_raise-state :
      {B : Type 0} (o : Option B) (e : E) (f : B → Exec S E A) (s : S)
      → P s
      → ((b : B) → o ≡ some b → P (f b s).1)
      → P ((or_raise o e >>= f) s).1
  or_raise-state none e f s h k = h
  or_raise-state (some b) e f s h k = k b refl

module _ {κ} {S E : Type 0} (P : S → Type κ) where
  pub unless-state :
      (b : Bool) (m : Exec S E (Unit {0})) (s : S)
      → (b ≡ true → P s)
      → (b ≡ false → P (m s).1)
      → P (unless b m s).1
  unless-state true m s h k = h refl
  unless-state false m s h k = k refl

-- What a computation does not raise.
module _ {S E A B : Type 0} (x : E) where
  continue-never :
      (r : Result E A) (f : A → Exec S E B) (s : S)
      → r ≢ err x
      → ((a : A) → (f a s).0 ≢ err x)
      → (continue r f s).0 ≢ err x
  continue-never (ok a) f s h k = k a
  continue-never (err e) f s h k = λ q. h (ground arith)

  pub bind-never :
      (m : Exec S E A) (f : A → Exec S E B) (s : S)
      → (m s).0 ≢ err x
      → ((a : A) → (f a (m s).1).0 ≢ err x)
      → ((m >>= f) s).0 ≢ err x
  bind-never m f s h k = continue-never (m s).0 f (m s).1 h k

pub or_raise-never :
    {S E A : Type 0} (x : E) (o : Option A) (e : E) (s : S) → e ≢ x → (or_raise o e s).0 ≢ err x
or_raise-never x none e s h = λ q. h (ground arith)
or_raise-never x (some a) e s h = λ q. cc

pub guard-never :
    {S E : Type 0} (x : E) (b : Bool) (e : E) (s : S) → e ≢ x → (guard b e s).0 ≢ err x
guard-never x true e s h = λ q. cc
guard-never x false e s h = λ q. h (ground arith)

pub unless-never :
    {S E : Type 0} (x : E) (b : Bool) (m : Exec S E (Unit {0})) (s : S)
    → (m s).0 ≢ err x
    → (unless b m s).0 ≢ err x
unless-never x true m s h = λ q. cc
unless-never x false m s h = h
