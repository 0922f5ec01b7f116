-- ===== src/Prelude/Text.antt =====
-- Texts: Python's `str`, compared whole. `lower` maps the ASCII letters, which is what the program
-- lower-cases: addresses, digests and hashes in hexadecimal.
use Prim.Native.Nat.{ℕ, zero, suc, ◌-◌}
use Prim.Native.Char.{Char, code}
use Prim.Native.String.{String}
use mathlib.Core.Path.{◌≡◌, refl}
use mathlib.Core.Bool.{Bool, true, false, ◌&&◌}
use mathlib.Core.Option.{Option, none, some}
pub use text.Mathlib.Text.{◌==◌ as text_eq, starts_with}
pub use text.Mathlib.TextEquality.{eq_iff as text_eq_iff}
use evm_garbage_collector.Prelude.Tests.{leb, if◌then◌else◌}

nth_char : String → ℕ → Char → Char
nth_char String.[] i d = d
nth_char (String.◌∷◌ c s) zero d = c
nth_char (String.◌∷◌ c s) (suc i) d = nth_char s i d

lower_char : Char → Char
unfolding nth_char
lower_char c =
    if leb 65 (code c) && leb (code c) 90
    then nth_char "abcdefghijklmnopqrstuvwxyz" (code c - 65) c
    else c

-- value.lower()
unfoldable pub lower : String → String
unfolding lower_char
lower String.[] = String.[]
lower (String.◌∷◌ c s) = String.◌∷◌ (lower_char c) (lower s)

-- an empty text is false in a condition
abbrev pub is_empty : String → Bool
is_empty s = text_eq s ""

-- two optional texts, `None` being equal to itself alone
abbrev pub text_eq? : Option String → Option String → Bool
text_eq? none none = true
text_eq? (some a) (some b) = text_eq a b
text_eq? _ _ = false

pub text_eq_refl : (s : String) → text_eq s s ≡ true
text_eq_refl s = (text_eq_iff s s).1 refl

lower_example : lower "0xAbC" ≡ "0xabc"
unfolding lower
lower_example = refl
