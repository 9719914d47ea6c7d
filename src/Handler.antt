-- ===== src/Handler.antt =====
-- An asynchronous handler: a tree of atomic steps on the world. Between two steps (two `await`s)
-- other handlers may run. A step writes by a function of the world that it meets, and the rest of
-- the handler is chosen by that world, which is the world before the write.
pub mod Calls
pub mod Interleave
pub mod Inserts
use help_mi.Common.{String, Bool, true, false, Option, none, some}
use help_mi.World.{World}

-- The exceptions of the services: Nest's with their messages, and what Prisma throws.
pub data Error : Type 0 where
  not_found bad_request forbidden unauthorized conflict internal : String → Error
  unique_violation record_missing reference_missing sms_failed : Error

pub data Result {ℓ} (A : Type ℓ) : Type ℓ where
  ok : A → Result A
  err : Error → Result A

pub data Handler (A : Type 0) : Type 0 where
  pure : A → Handler A
  throw : Error → Handler A
  await : (World → World) → (World → Handler A) → Handler A

infixl 5 ◌>>=◌ ◌>>◌
abbrev pub ◌>>=◌ : {A B : Type 0} → Handler A → (A → Handler B) → Handler B
pure a >>= k = k a
throw e >>= k = throw e
await f rest >>= k = await f (λ w. rest w >>= k)

abbrev pub ◌>>◌ : {A B : Type 0} → Handler A → Handler B → Handler B
m >> k = m >>= λ _. k

-- `try { m } catch { h }`
abbrev pub catch : {A : Type 0} → Handler A → (Error → Handler A) → Handler A
catch (pure a) h = pure a
catch (throw e) h = h e
catch (await f rest) h = await f (λ w. catch (rest w) h)

-- The handler alone, with nothing between its steps: its outcome and the world after it.
abbrev pub run : {A : Type 0} → Handler A → World → Result A × World
run (pure a) w = (ok a, w)
run (throw e) w = (err e, w)
run (await f rest) w = run (rest w) (f w)

abbrev pub outcome : {A : Type 0} → Result A → Handler A
outcome (ok a) = pure a
outcome (err e) = throw e

abbrev pub commit : {A : Type 0} → World → Result A × World → World
commit before (ok a, after) = after
commit before (err e, after) = before

-- `prisma.$transaction`: one step, which leaves no trace if it throws.
abbrev pub transaction : {A : Type 0} → Handler A → Handler A
transaction m = await (λ w. commit w (run m w)) (λ w. outcome (run m w).0)

abbrev pub guard : Bool → Error → Handler (Unit {0})
guard true e = pure tt
guard false e = throw e

abbrev pub or_throw : {A : Type 0} → Option A → Error → Handler A
or_throw none e = throw e
or_throw (some a) e = pure a
