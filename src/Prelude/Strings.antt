-- ===== src/Prelude/Strings.antt =====
-- Texts as the lists of their UTF-16 code units, which is what a string of the program is, and the
-- string methods that the program calls. A literal is turned into code units by `codes`.
use Prim.Native.Nat.{ℕ}
use Prim.Native.Char.{code}
use Prim.Native.String.{String}
use mathlib.Core.Path.{◌≡◌, refl}
use mathlib.Core.Logic.{◌↔◌}
use mathlib.Core.Bool.{Bool, true, false, ◌&&◌, ◌||◌}
use mathlib.Core.List.{List, [], ◌∷◌, reverse, reverse_aux, reverse-reverse}
use native.Mathlib.Omega.{arith}
use micro_ai_paygate.Prelude.Tests.{leb, ◌==◌, if◌then◌else◌}

abbrev pub Text : Type 0
Text = List ℕ

abbrev pub codes : String → Text
codes String.[] = []
codes (String.◌∷◌ c s) = code c ∷ codes s

-- `s === t`
unfoldable pub text_eq : Text → Text → Bool
text_eq [] [] = true
text_eq [] (d ∷ t) = false
text_eq (c ∷ s) [] = false
text_eq (c ∷ s) (d ∷ t) = c == d && text_eq s t

pub text_eq_iff : (s t : Text) → (text_eq s t ≡ true) ↔ (s ≡ t)
unfolding text_eq
text_eq_iff [] [] = (λ _. refl, λ _. refl)
text_eq_iff [] (d ∷ t) = (λ h. cc, λ h. cc)
text_eq_iff (c ∷ s) [] = (λ h. cc, λ h. cc)
text_eq_iff (c ∷ s) (d ∷ t) = ground (arith, text_eq_iff s t)

pub text_eq_refl : (s : Text) → text_eq s s ≡ true
text_eq_refl s = (text_eq_iff s s).1 refl

-- `s.startsWith(prefix)`
unfoldable pub starts_with : Text → Text → Bool
starts_with s [] = true
starts_with [] (p ∷ prefix) = false
starts_with (c ∷ s) (p ∷ prefix) = c == p && starts_with s prefix

-- `s.includes(part)`
unfoldable pub includes : Text → Text → Bool
unfolding starts_with
includes [] part = starts_with [] part
includes (c ∷ s) part = starts_with (c ∷ s) part || includes s part

-- The white space and line terminators that `trim` removes and `\s` matches.
unfoldable pub is_space : ℕ → Bool
is_space c =
    (leb 9 c && leb c 13)
    || c == 32
    || c == 0xa0
    || c == 0x1680
    || (leb 0x2000 c && leb c 0x200a)
    || c == 0x2028
    || c == 0x2029
    || c == 0x202f
    || c == 0x205f
    || c == 0x3000
    || c == 0xfeff

trim_start : Text → Text
trim_start [] = []
trim_start (c ∷ s) = if is_space c then trim_start s else c ∷ s

-- `s.trim()`
unfoldable pub trim : Text → Text
unfolding trim_start is_space
trim s = reverse (trim_start (reverse (trim_start s)))

-- Every code unit is visible.
abbrev pub IsVisible : Text → Type 0
IsVisible [] = Unit
IsVisible (c ∷ s) = (is_space c ≡ false) × IsVisible s

IsVisible-reverse_aux : (s t : Text) → IsVisible s → IsVisible t → IsVisible (reverse_aux s t)
IsVisible-reverse_aux [] t hs ht = ht
IsVisible-reverse_aux (c ∷ s) t hs ht = IsVisible-reverse_aux s (c ∷ t) hs.1 (hs.0, ht)

trim_start-visible : (s : Text) → IsVisible s → trim_start s ≡ s
unfolding trim_start
trim_start-visible [] h = refl
trim_start-visible (c ∷ s) h = rw h.0

-- Trimming keeps a text with no white space in it.
pub trim-visible : (s : Text) → IsVisible s → trim s ≡ s
unfolding trim
trim-visible s h =
    rw (trim_start-visible s h, trim_start-visible (reverse s) (IsVisible-reverse_aux s [] h tt))
      (reverse-reverse s)
