-- ===== src/Base/Texts.antt =====
-- Texts: the characters that they have.
use Prim.Native.Nat.{ℕ}
use Prim.Native.Char.{code}
use Prim.Native.String.{String, [], ◌∷◌, ◌++◌}
use Prim.Native.String.append
use mathlib.Core.Path.{◌≡◌, ap, ◌∙◌}
use mathlib.Core.Bool.{Bool, false, ◌||◌}
use native.Mathlib.Omega.{arith}
use relavoi_backend.Base.Tests.{◌==◌, nat_eq}

-- Whether a character, given by its number, is in a text.
unfoldable pub has_char : ℕ → String → Bool
has_char n [] = false
has_char n (c ∷ s) = code c == n || has_char n s

pub has_char-append : (n : ℕ) (s t : String) → has_char n (s ++ t) ≡ (has_char n s || has_char n t)
unfolding has_char
has_char-append n [] t = ap (has_char n) (append.nil t)
has_char-append n (c ∷ s) t =
    ap (has_char n) (append.cons c s t) ∙ ground (arith, has_char-append n s t)
