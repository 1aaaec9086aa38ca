-- ===== src/Base/Text.antt =====
-- Texts: their code points, Python's str.strip, and tests of equality.

use Prim.Native.String.{String}
use Prim.Native.Char.{code}
use Prim.Native.Nat.{ℕ}
use mathlib.Core.Path.{◌≡◌, refl}
use mathlib.Core.Option.{Option, none, some}
use mathlib.Core.Bool.{Bool, true, false, ◌||◌, ◌&&◌}
use mathlib.Core.List.{List, [], ◌∷◌}
use text.Mathlib.Text.{◌==◌ as text_eq}
use webhook_delivery_platfor.Base.Tests.{leb, ◌==◌, eq_self, if◌then◌else◌}

unfoldable pub codes : String → List ℕ
codes String.[] = []
codes (String.◌∷◌ c s) = code c ∷ codes s

abbrev pub str_eq : String → String → Bool
str_eq = text_eq

-- The characters that str.strip removes.
unfoldable pub is_space : ℕ → Bool
is_space c =
    (leb 9 c && leb c 13)
    || (leb 28 c && leb c 32)
    || c == 133
    || c == 160
    || c == 5760
    || (leb 8192 c && leb c 8202)
    || c == 8232
    || c == 8233
    || c == 8239
    || c == 8287
    || c == 12288

unfoldable pub drop_spaces : String → String
unfolding is_space
drop_spaces String.[] = String.[]
drop_spaces (String.◌∷◌ c s) =
    let rest = drop_spaces s in if is_space (code c) then rest else String.◌∷◌ c s

unfoldable pub reverse_onto : String → String → String
reverse_onto String.[] t = t
reverse_onto (String.◌∷◌ c s) t = reverse_onto s (String.◌∷◌ c t)

unfoldable pub strip : String → String
unfolding drop_spaces reverse_onto
strip s = reverse_onto (drop_spaces (reverse_onto (drop_spaces s) "")) ""

-- str.rstrip("/")
unfoldable pub drop_slashes : String → String
drop_slashes String.[] = String.[]
drop_slashes (String.◌∷◌ c s) =
    let rest = drop_slashes s in if code c == 47 then rest else String.◌∷◌ c s

unfoldable pub rstrip_slash : String → String
unfolding drop_slashes reverse_onto
rstrip_slash s = reverse_onto (drop_slashes (reverse_onto s "")) ""

abbrev pub is_empty : String → Bool
is_empty String.[] = true
is_empty (String.◌∷◌ c s) = false

-- str.startswith(prefix), and what then follows the prefix.
unfoldable pub after_prefix : String → String → Option String
after_prefix String.[] s = some s
after_prefix (String.◌∷◌ c p) String.[] = none
after_prefix (String.◌∷◌ c p) (String.◌∷◌ d s) =
    let rest = after_prefix p s in if code c == code d then rest else none

-- s + t
unfoldable pub append : String → String → String
append String.[] t = t
append (String.◌∷◌ c s) t = String.◌∷◌ c (append s t)

pub after_prefix-append : (p s : String) → after_prefix p (append p s) ≡ some s
unfolding after_prefix append
after_prefix-append String.[] s = refl
after_prefix-append (String.◌∷◌ c p) s = rw (after_prefix-append p s, eq_self (code c)) refl
