-- ===== src/Prelude/Control.antt =====
-- How a C function runs: it goes on with a value, jumps to its `ignore_request` label, accesses
-- memory outside an object, after which C says nothing of the program, or is in a loop that has not
-- come to its end when the rounds that the model gives it are used up.
use mathlib.Core.Path.{◌≡◌, refl}
use mathlib.Core.Option.{Option, none, some}
use mathlib.Core.Bool.{Bool, true, false}

pub data Flow {ℓ} (A : Type ℓ) : Type ℓ where
  go : A → Flow A
  ignore_request : Flow A
  fault : Flow A
  endless : Flow A

infixl 5 ◌>>=◌ ◌>>◌
abbrev pub ◌>>=◌ {ℓ κ} : {A : Type ℓ} {B : Type κ} → Flow A → (A → Flow B) → Flow B
go a >>= f = f a
ignore_request >>= f = ignore_request
fault >>= f = fault
endless >>= f = endless

abbrev pub ◌>>◌ {ℓ} : {B : Type ℓ} → Flow (Unit {0}) → Flow B → Flow B
m >> k = m >>= λ _. k

-- `if (!test) goto ignore_request;`
abbrev pub require : Bool → Flow (Unit {0})
require true = go tt
require false = ignore_request

-- `if (p == NULL) goto ignore_request;`
abbrev pub or_ignore {ℓ} : {A : Type ℓ} → Option A → Flow A
or_ignore none = ignore_request
or_ignore (some a) = go a

-- A successful sequence is two successful parts.
pub >>=-eq-go {ℓ κ} :
    {A : Type ℓ} {B : Type κ} (m : Flow A) (f : A → Flow B) {b : B}
    → (m >>= f) ≡ go b
    → (a : A) × (m ≡ go a) × (f a ≡ go b)
>>=-eq-go (go a) f h = (a, refl, h)
>>=-eq-go ignore_request f h = absurd (cc)
>>=-eq-go fault f h = absurd (cc)
>>=-eq-go endless f h = absurd (cc)

pub >>=-go {ℓ κ} :
    {A : Type ℓ} {B : Type κ} (m : Flow A) (f : A → Flow B) {a : A} → m ≡ go a → (m >>= f) ≡ f a
>>=-go m f h = rw h

pub require-eq-go : (b : Bool) {u : Unit {0}} → require b ≡ go u → b ≡ true
require-eq-go true h = refl
require-eq-go false h = absurd (cc)

-- A sequence of parts that do not fault.
pub >>=-ne_fault {ℓ κ} :
    {A : Type ℓ} {B : Type κ} (m : Flow A) (f : A → Flow B)
    → (m ≡ fault → ⊥)
    → ((a : A) → m ≡ go a → f a ≡ fault → ⊥)
    → (m >>= f) ≡ fault
    → ⊥
>>=-ne_fault (go a) f h k e = k a refl e
>>=-ne_fault ignore_request f h k e = cc
>>=-ne_fault fault f h k e = h refl
>>=-ne_fault endless f h k e = cc

-- A sequence of parts that come to an end.
pub >>=-ne_endless {ℓ κ} :
    {A : Type ℓ} {B : Type κ} (m : Flow A) (f : A → Flow B)
    → (m ≡ endless → ⊥)
    → ((a : A) → m ≡ go a → f a ≡ endless → ⊥)
    → (m >>= f) ≡ endless
    → ⊥
>>=-ne_endless (go a) f h k e = k a refl e
>>=-ne_endless ignore_request f h k e = cc
>>=-ne_endless fault f h k e = cc
>>=-ne_endless endless f h k e = h refl

pub require-ne_fault : (b : Bool) → require b ≡ fault → ⊥
require-ne_fault true e = cc
require-ne_fault false e = cc

pub require-ne_endless : (b : Bool) → require b ≡ endless → ⊥
require-ne_endless true e = cc
require-ne_endless false e = cc
