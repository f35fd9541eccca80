-- ===== src/Monitor/Returns.antt =====
-- Properties of what a piece of the monitor returns.
use system_t.Base.{Bool, true, false, if◌then◌else◌}
use system_t.Outcome.{Outcome, returns, exits, undefined, running, ◌>>=◌}

-- The outcome is a return, of a value with the property.
abbrev pub Returns : {A : Type 0} → (A → Type 0) → Outcome A → Type 0
Returns P (returns a) = P a
Returns P _ = ⊥

pub Returns-bind :
    {A B : Type 0} (P : A → Type 0) (Q : B → Type 0) (o : Outcome A) (f : A → Outcome B)
    → Returns P o
    → ((a : A) → P a → Returns Q (f a))
    → Returns Q (o >>= f)
Returns-bind P Q (returns a) f h k = k a h
Returns-bind P Q exits f h k = h
Returns-bind P Q undefined f h k = h
Returns-bind P Q running f h k = h

pub Returns-map :
    {A : Type 0} (P Q : A → Type 0) (o : Outcome A)
    → ((a : A) → P a → Q a)
    → Returns P o
    → Returns Q o
Returns-map P Q (returns a) k h = k a h
Returns-map P Q exits k h = h
Returns-map P Q undefined k h = h
Returns-map P Q running k h = h

-- If the outcome is a return, it has the property.
abbrev pub IfReturns : {A : Type 0} → (A → Type 0) → Outcome A → Type 0
IfReturns P (returns a) = P a
IfReturns P _ = Unit

pub IfReturns-bind :
    {A B : Type 0} (P : A → Type 0) (Q : B → Type 0) (o : Outcome A) (f : A → Outcome B)
    → IfReturns P o
    → ((a : A) → P a → IfReturns Q (f a))
    → IfReturns Q (o >>= f)
IfReturns-bind P Q (returns a) f h k = k a h
IfReturns-bind P Q exits f h k = tt
IfReturns-bind P Q undefined f h k = tt
IfReturns-bind P Q running f h k = tt

pub IfReturns-trivial : {A : Type 0} (o : Outcome A) → IfReturns (λ a. Unit) o
IfReturns-trivial (returns a) = tt
IfReturns-trivial exits = tt
IfReturns-trivial undefined = tt
IfReturns-trivial running = tt

pub IfReturns-if :
    {A : Type 0} (P : A → Type 0) (b : Bool) (x y : Outcome A)
    → IfReturns P x
    → IfReturns P y
    → IfReturns P (if b then x else y)
IfReturns-if P true x y p q = p
IfReturns-if P false x y p q = q

-- A return that has two properties.
pub both :
    {A : Type 0} (P Q R : A → Type 0) (o : Outcome A)
    → ((a : A) → P a → Q a → R a)
    → Returns P o
    → IfReturns Q o
    → Returns R o
both P Q R (returns a) k p q = k a p q
both P Q R exits k p q = p
both P Q R undefined k p q = p
both P Q R running k p q = p

pub pair :
    {A : Type 0} (P Q : A → Type 0) (o : Outcome A)
    → Returns P o
    → Returns Q o
    → Returns (λ a. P a × Q a) o
pair P Q (returns a) p q = (p, q)
pair P Q exits p q = p
pair P Q undefined p q = p
pair P Q running p q = p

pub IfReturns-all :
    {A I : Type 0} (P : I → A → Type 0) (o : Outcome A)
    → ((i : I) → IfReturns (P i) o)
    → IfReturns (λ a. (i : I) → P i a) o
IfReturns-all P (returns a) f = f
IfReturns-all P exits f = tt
IfReturns-all P undefined f = tt
IfReturns-all P running f = tt

pub IfReturns-given :
    {A : Type 0} (H : Type 0) (P : A → Type 0) (o : Outcome A)
    → (H → IfReturns P o)
    → IfReturns (λ a. H → P a) o
IfReturns-given H P (returns a) f = f
IfReturns-given H P exits f = tt
IfReturns-given H P undefined f = tt
IfReturns-given H P running f = tt
