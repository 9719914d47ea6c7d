-- ===== src/Common/Values.antt =====
-- JavaScript's truthiness of a text that may be null, `??`, and joined texts.
use Prim.Native.String
use Prim.Native.String.{String}
use mathlib.Core.Bool.{Bool, true, false}
use mathlib.Core.Option.{Option, none, some}
use text.Mathlib.Text.{◌==◌}
use help_mi.Common.Tests.{if◌then◌else◌}

abbrev pub concat : String → String → String
concat s t = String.◌++◌ s t

-- `a ?? b`
abbrev pub or_else {ℓ} : {A : Type ℓ} → Option A → Option A → Option A
or_else none b = b
or_else (some a) b = some a

abbrev pub or_default {ℓ} : {A : Type ℓ} → Option A → A → A
or_default none b = b
or_default (some a) b = a

-- The text, unless it is null or empty.
abbrev pub given : Option String → Option String
given none = none
given (some s) = if s == "" then none else some s

abbrev pub truthy : Option String → Bool
truthy none = false
truthy (some s) = if s == "" then false else true

-- `o === s`
abbrev pub opt_is : Option String → String → Bool
opt_is none s = false
opt_is (some d) s = d == s
