-- ===== src/Common/Keys.antt =====
-- Texts as keys: what the test `==` says.
use Prim.Native.String.{String}
use mathlib.Core.Path.{◌≡◌, sym, ◌∙◌}
use mathlib.Core.Bool.{true}
use text.Mathlib.Text.{◌==◌}
use text.Mathlib.TextEquality.{eq_iff}

pub eq-path : (s t : String) → (s == t) ≡ true → s ≡ t
eq-path s t h = (eq_iff s t).0 h

pub path-eq : (s t : String) → s ≡ t → (s == t) ≡ true
path-eq s t h = (eq_iff s t).1 h

-- Two texts that equal a third are equal.
pub eq-join : (s t u : String) → (s == u) ≡ true → (t == u) ≡ true → (s == t) ≡ true
eq-join s t u h k = (eq_iff s t).1 (eq-path s u h ∙ sym (eq-path t u k))

-- Two texts that a third equals are equal.
pub eq-meet : (s t u : String) → (s == t) ≡ true → (s == u) ≡ true → (t == u) ≡ true
eq-meet s t u h k = (eq_iff t u).1 (sym (eq-path s t h) ∙ eq-path s u k)
