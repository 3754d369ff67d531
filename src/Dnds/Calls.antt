-- ===== src/Dnds/Calls.antt =====
-- Calls of the accessors by code that does not look at the code they return.
use netvirt.Prelude.{Option, none, some}
use netvirt.Dnds.Access.{Reply, reply, wild}

infixl 5 ◌>>=◌
abbrev pub ◌>>=◌ {ℓ κ} : {A : Type ℓ} {B : Type κ} → Option A → (A → Option B) → Option B
none >>= f = none
some a >>= f = f a

-- The message after a setter, which is none of its arguments that are NULL.
abbrev pub put {ℓ} : {A : Type ℓ} → Reply (Option A) → Option A
put (reply code o) = o
put wild = none

-- A variable after a getter that may leave it as it was.
abbrev pub get {ℓ} : {A : Type ℓ} → Option A → Reply (Option A) → Option (Option A)
get before (reply code none) = some before
get before (reply code (some v)) = some (some v)
get before wild = none
