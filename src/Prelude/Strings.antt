-- ===== src/Prelude/Strings.antt =====
-- Python's `str` as a list of code points, with the operations that the program calls. The texts
-- of the program (addresses, patterns, tags) are ASCII; `upper` leaves other code points alone.
use Prim.Native.Nat.{ℕ, ◌+◌, ◌-◌, ◌*◌}
use Prim.Native.Char.{code}
use Prim.Native.String.{String}
use mathlib.Core.Path.{◌≡◌, refl, ap, ◌∙◌}
use mathlib.Core.Logic.{◌↔◌}
use mathlib.Core.Bool.{Bool, true, false, ◌&&◌, ◌||◌, not}
use mathlib.Core.List.{List, [], ◌∷◌, ◌++◌, map}
use native.Mathlib.Omega.{arith}
use terminal_access_manager.Prelude.Tests.{if◌then◌else◌, leb, ◌==◌}
use terminal_access_manager.Prelude.Lists.{all, select}

abbrev pub Text : Type 0
Text = List ℕ

abbrev pub codes : String → Text
codes String.[] = []
codes (String.◌∷◌ c s) = code c ∷ codes s

unfoldable pub text_eq : Text → Text → Bool
text_eq [] [] = true
text_eq [] (b ∷ t) = false
text_eq (a ∷ s) [] = false
text_eq (a ∷ s) (b ∷ t) = a == b && text_eq s t

-- `s.startswith(p)`
unfoldable pub starts_with : Text → Text → Bool
starts_with s [] = true
starts_with [] (b ∷ p) = false
starts_with (a ∷ s) (b ∷ p) = a == b && starts_with s p

-- `not s`
abbrev pub is_empty {ℓ} : {A : Type ℓ} → List A → Bool
is_empty [] = true
is_empty (c ∷ s) = false

abbrev pub upper_char : ℕ → ℕ
upper_char c = if leb b'a' c && leb c b'z' then c - 32 else c

-- `s.upper()`
abbrev pub upper : Text → Text
upper = map upper_char

-- `s.replace(c, "")`
abbrev pub remove_char : ℕ → Text → Text
remove_char c = select (λ x. not (x == c))

-- `s.replace(c, d)`
abbrev pub replace_char : ℕ → ℕ → Text → Text
replace_char c d = map (λ x. if x == c then d else x)

-- `c in s`
unfoldable pub contains_char : ℕ → Text → Bool
contains_char c [] = false
contains_char c (x ∷ s) = x == c || contains_char c s

abbrev pub is_space : ℕ → Bool
is_space c = c == 32 || (leb 9 c && leb c 13) || (leb 28 c && leb c 31)

unfoldable pub strip_left : Text → Text
strip_left [] = []
strip_left (c ∷ s) = if is_space c then strip_left s else c ∷ s

unfoldable pub strip_right : Text → Text
strip_right [] = []
strip_right (c ∷ s) =
    let rest = strip_right s in if is_space c && is_empty rest then [] else c ∷ rest

-- `s.strip()`
abbrev pub strip : Text → Text
strip s = strip_right (strip_left s)

abbrev push_head : ℕ → List Text → List Text
push_head c [] = (c ∷ []) ∷ []
push_head c (w ∷ ws) = (c ∷ w) ∷ ws

-- `s.split(sep)` for a separator of one character
unfoldable pub split : ℕ → Text → List Text
split sep [] = [] ∷ []
split sep (c ∷ s) = let ws = split sep s in if c == sep then [] ∷ ws else push_head c ws

-- `sep.join(ws)` for a separator of one character
unfoldable pub join : ℕ → List Text → Text
join sep [] = []
join sep (w ∷ []) = w
join sep (w ∷ v ∷ ws) = w ++ sep ∷ join sep (v ∷ ws)

abbrev pub is_digit : ℕ → Bool
is_digit c = leb b'0' c && leb c b'9'

-- `[0-9A-F]`
abbrev pub is_upper_hex : ℕ → Bool
is_upper_hex c = is_digit c || (leb b'A' c && leb c b'F')

abbrev pub digits_value : ℕ → Text → ℕ
digits_value acc [] = acc
digits_value acc (c ∷ s) = digits_value (acc * 10 + (c - b'0')) s

-- `int(s)` of a text of digits
abbrev pub to_int : Text → ℕ
to_int = digits_value 0

pub text_eq_iff : (s t : Text) → (text_eq s t ≡ true) ↔ (s ≡ t)
unfolding text_eq
text_eq_iff [] [] = ground arith
text_eq_iff [] (b ∷ t) = ground arith
text_eq_iff (a ∷ s) [] = ground arith
text_eq_iff (a ∷ s) (b ∷ t) = ground (arith, text_eq_iff s t)

pub text_eq_refl : (s : Text) → text_eq s s ≡ true
text_eq_refl s = (text_eq_iff s s).1 refl

pub starts_with_self : (s : Text) → starts_with s s ≡ true
unfolding starts_with
starts_with_self [] = refl
starts_with_self (c ∷ s) = ground (arith, starts_with_self s)

pub starts_with-append : (s t : Text) → starts_with (s ++ t) s ≡ true
unfolding starts_with
starts_with-append [] t = refl
starts_with-append (c ∷ s) t = ground (arith, starts_with-append s t)

abbrev pub is_solid : Text → Bool
is_solid = all (λ c. not (is_space c))

strip_right-solid : (s : Text) → is_solid s ≡ true → strip_right s ≡ s
unfolding all strip_right
strip_right-solid [] h = refl
strip_right-solid (c ∷ s) h = ground (arith, strip_right-solid s)

strip_left-solid : (s : Text) → is_solid s ≡ true → strip_left s ≡ s
unfolding all strip_left
strip_left-solid [] h = refl
strip_left-solid (c ∷ s) h = ground arith

-- A text with no white space is its own stripped form.
pub strip-solid : (s : Text) → is_solid s ≡ true → strip s ≡ s
strip-solid s h = ap strip_right (strip_left-solid s h) ∙ strip_right-solid s h

pub is_empty-append : (s t : Text) → is_empty s ≡ false → is_empty (s ++ t) ≡ false
is_empty-append [] t h = ground arith
is_empty-append (c ∷ s) t h = refl
