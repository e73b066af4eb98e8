-- ===== src/Base/Runs.antt =====
-- What running a piece of C++ can come to.
use mathlib.Core.Bool.{Bool, true, false}
use mathlib.Core.Option.{Option, none, some}
use mathlib.Core.Path.{◌≡◌, refl, subst}
use mathlib.Core.Logic.{◌≢◌}

-- `throws` is an exception for the caller, `std::out_of_range` in most places; `aborts` is a failed
-- assertion, or an exception that leaves a `noexcept` function; `faults` is undefined behaviour: an access outside an array, a read of a
-- cell that nothing was written to, or of a null or freed pointer. `diverges` says that the fuel
-- of a loop ran out.
pub data Outcome {ℓ} (A : Type ℓ) : Type ℓ where
  ok : A → Outcome A
  throws : Outcome A
  aborts : Outcome A
  faults : Outcome A
  diverges : Outcome A

infixl 5 ◌>>=◌ ◌>>◌
abbrev pub ◌>>=◌ {ℓ κ} : {A : Type ℓ} {B : Type κ} → Outcome A → (A → Outcome B) → Outcome B
ok a >>= f = f a
throws >>= f = throws
aborts >>= f = aborts
faults >>= f = faults
diverges >>= f = diverges

abbrev pub ◌>>◌ {κ} : {B : Type κ} → Outcome (Unit {0}) → Outcome B → Outcome B
m >> k = m >>= λ _. k

-- `_throw(v)`
abbrev pub throw_if : Bool → Outcome (Unit {0})
throw_if true = throws
throw_if false = ok tt

-- `assert(v)`
abbrev pub assert : Bool → Outcome (Unit {0})
assert true = ok tt
assert false = aborts

-- An access that needs `v` to be defined.
abbrev pub defined : Bool → Outcome (Unit {0})
defined true = ok tt
defined false = faults

-- An exception that leaves a `noexcept` function ends the program.
abbrev pub no_except {ℓ} : {A : Type ℓ} → Outcome A → Outcome A
no_except (ok a) = ok a
no_except throws = aborts
no_except aborts = aborts
no_except faults = faults
no_except diverges = diverges

-- The element, or the exception of an index out of range.
abbrev pub or_throw {ℓ} : {A : Type ℓ} → Option A → Outcome A
or_throw none = throws
or_throw (some x) = ok x

pub bind_assoc {ℓ κ μ} :
    {A : Type ℓ} {B : Type κ} {C : Type μ} (m : Outcome A) (f : A → Outcome B) (g : B → Outcome C)
    → (m >>= λ a. f a >>= g) ≡ ((m >>= f) >>= g)
bind_assoc (ok a) f g = refl
bind_assoc throws f g = refl
bind_assoc aborts f g = refl
bind_assoc faults f g = refl
bind_assoc diverges f g = refl

-- The run comes to an end, and what it returns, if it returns, has the property.
abbrev pub Settles {ℓ} : {A : Type ℓ} → (A → Type 0) → Outcome A → Type 0
Settles P (ok a) = P a
Settles P throws = Unit
Settles P aborts = Unit
Settles P faults = Unit
Settles P diverges = ⊥

pub Settles->>= {ℓ κ} :
    {A : Type ℓ} {B : Type κ} (P : A → Type 0) (Q : B → Type 0) (m : Outcome A) (f : A → Outcome B)
    → Settles P m
    → ((a : A) → P a → Settles Q (f a))
    → Settles Q (m >>= f)
Settles->>= P Q (ok a) f h k = k a h
Settles->>= P Q throws f h k = tt
Settles->>= P Q aborts f h k = tt
Settles->>= P Q faults f h k = tt
Settles->>= P Q diverges f h k = absurd h

pub Settles-halts {ℓ} : {A : Type ℓ} (P : A → Type 0) (m : Outcome A) → Settles P m → m ≢ diverges
Settles-halts P m h e = subst (Settles P) e h

pub Settles-weaken {ℓ} :
    {A : Type ℓ} (P Q : A → Type 0) (m : Outcome A)
    → ((a : A) → P a → Q a)
    → Settles P m
    → Settles Q m
Settles-weaken P Q (ok a) k h = k a h
Settles-weaken P Q throws k h = tt
Settles-weaken P Q aborts k h = tt
Settles-weaken P Q faults k h = tt
Settles-weaken P Q diverges k h = h

-- A branch on whether there is a value.
abbrev pub if_found {ℓ κ} : {A : Type ℓ} {B : Type κ} → Option A → B → (A → B) → B
if_found none b f = b
if_found (some a) b f = f a

pub Settles-if_found {ℓ κ} :
    {A : Type ℓ} {B : Type κ} (R : Option A → Type 0) (P : B → Type 0) (o : Option A)
    (m : Outcome B) (f : A → Outcome B)
    → R o
    → Settles P m
    → ((a : A) → R (some a) → Settles P (f a))
    → Settles P (if_found o m f)
Settles-if_found R P none m f r h k = h
Settles-if_found R P (some a) m f r h k = k a r

-- What the run returns, if it returns, has the property.
abbrev pub Returned {ℓ} : {A : Type ℓ} → (A → Type 0) → Outcome A → Type 0
Returned P (ok a) = P a
Returned P throws = Unit
Returned P aborts = Unit
Returned P faults = Unit
Returned P diverges = Unit

pub Returned->>= {ℓ κ} :
    {A : Type ℓ} {B : Type κ} (Q : B → Type 0) (m : Outcome A) (f : A → Outcome B)
    → ((a : A) → Returned Q (f a))
    → Returned Q (m >>= f)
Returned->>= Q (ok a) f k = k a
Returned->>= Q throws f k = tt
Returned->>= Q aborts f k = tt
Returned->>= Q faults f k = tt
Returned->>= Q diverges f k = tt

pub Returned-then {ℓ κ} :
    {A : Type ℓ} {B : Type κ} (P : A → Type 0) (Q : B → Type 0) (m : Outcome A) (f : A → Outcome B)
    → Returned P m
    → ((a : A) → P a → Returned Q (f a))
    → Returned Q (m >>= f)
Returned-then P Q (ok a) f h k = k a h
Returned-then P Q throws f h k = tt
Returned-then P Q aborts f h k = tt
Returned-then P Q faults f h k = tt
Returned-then P Q diverges f h k = tt

pub Returned-weaken {ℓ} :
    {A : Type ℓ} (P Q : A → Type 0) (m : Outcome A)
    → ((a : A) → P a → Q a)
    → Returned P m
    → Returned Q m
Returned-weaken P Q (ok a) k h = k a h
Returned-weaken P Q throws k h = tt
Returned-weaken P Q aborts k h = tt
Returned-weaken P Q faults k h = tt
Returned-weaken P Q diverges k h = tt

pub Returned-both {ℓ κ} :
    {A : Type ℓ} {B : Type κ} (P : A → Type 0) (Q : B → Type 0) (R : A → Type 0) (m : Outcome A)
    (f : A → Outcome B)
    → Returned P m
    → Returned R m
    → ((a : A) → P a → R a → Returned Q (f a))
    → Returned Q (m >>= f)
Returned-both P Q R (ok a) f h h' k = k a h h'
Returned-both P Q R throws f h h' k = tt
Returned-both P Q R aborts f h h' k = tt
Returned-both P Q R faults f h h' k = tt
Returned-both P Q R diverges f h h' k = tt

pub Returned-all {ℓ} :
    {A : Type ℓ} (P : A → Type 0) (m : Outcome A) → ((a : A) → P a) → Returned P m
Returned-all P (ok a) h = h a
Returned-all P throws h = tt
Returned-all P aborts h = tt
Returned-all P faults h = tt
Returned-all P diverges h = tt
