-- ===== src/Base/Text.antt =====
-- What the program asks of a `str`: its number of characters, and whether `strip()` leaves nothing.
use Prim.Native.Nat.{ℕ, suc}
use Prim.Native.Char.{code}
use Prim.Native.String.{String}
use mathlib.Core.Path.{◌≡◌, refl}
use mathlib.Core.Bool.{Bool, true, false, ◌&&◌, ◌||◌}
use base_agent.Base.Tests.{leb, nat_beq}

-- The characters that `str.isspace` accepts, which are those that `str.strip` removes.
abbrev pub is_space : ℕ → Bool
is_space c =
    (leb 9 c && leb c 13)
    || (leb 28 c && leb c 32)
    || nat_beq c 0x85
    || nat_beq c 0xa0
    || nat_beq c 0x1680
    || (leb 0x2000 c && leb c 0x200a)
    || nat_beq c 0x2028
    || nat_beq c 0x2029
    || nat_beq c 0x202f
    || nat_beq c 0x205f
    || nat_beq c 0x3000

-- `not s.strip()`.
unfoldable pub is_blank : String → Bool
is_blank String.[] = true
is_blank (String.◌∷◌ c s) = is_space (code c) && is_blank s

-- `len(s)`.
unfoldable pub text_length : String → ℕ
text_length String.[] = 0
text_length (String.◌∷◌ c s) = suc (text_length s)

-- `not s`.
unfoldable pub is_empty_text : String → Bool
is_empty_text String.[] = true
is_empty_text (String.◌∷◌ c s) = false

-- What `strip` leaves something of is not empty.
pub is_empty_text-is_blank : (s : String) → is_blank s ≡ false → is_empty_text s ≡ false
unfolding is_blank is_empty_text
is_empty_text-is_blank String.[] h = cc
is_empty_text-is_blank (String.◌∷◌ c s) h = refl
