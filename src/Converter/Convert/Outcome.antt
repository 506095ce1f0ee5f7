-- ===== src/Converter/Convert/Outcome.antt =====
-- What `convertCompose` is given besides the file, and how it ends.
use p2ser.Base.{Bool, Option, none, some}

-- Where the engine throws a `TypeError`: `delete svc.container_name` on `null`, and an assignment to
-- a property of a string, a number or a boolean (a module is strict code).
pub data Fault : Type 0 where
  null_service : Fault
  primitive_service : Fault
  primitive_deploy : Fault

pub data Result {ℓ} (A : Type ℓ) : Type ℓ where
  ok : A → Result A
  thrown : Fault → Result A

infixl 5 ◌>>=◌
abbrev pub ◌>>=◌ {ℓ κ} : {A : Type ℓ} {B : Type κ} → Result A → (A → Result B) → Result B
ok a >>= f = f a
thrown e >>= f = thrown e

abbrev pub map_result {ℓ κ} : {A : Type ℓ} {B : Type κ} → (A → B) → Result A → Result B
map_result f (ok a) = ok (f a)
map_result f (thrown e) = thrown e

-- `a ?? b`
abbrev pub coalesce {ℓ} : {A : Type ℓ} → Option A → A → A
coalesce none b = b
coalesce (some a) b = a

-- The settings of one service, or those of all; a field left out is `undefined`.
pub record Settings (Num : Type 0) : Type 0 where
  pub replicas : Option Num
  pub standby : Option Num
  pub userns : Option Bool

abbrev pub no_settings : {Num : Type 0} → Settings Num
no_settings = record { replicas = none; standby = none; userns = none }
