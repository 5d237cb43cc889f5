-- ===== src/Base/Fault.antt =====
-- Reads of memory. `none` is a fault: a read outside the buffer that the C code was given.
use mathlib.Core.Option.{Option, none, some}

infixl 5 ◌>>=◌
abbrev pub ◌>>=◌ {ℓ κ} : {A : Type ℓ} {B : Type κ} → Option A → (A → Option B) → Option B
none >>= f = none
some a >>= f = f a
