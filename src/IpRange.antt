-- ===== src/IpRange.antt =====
-- Ranges of the form 192.168.1.1-100: the regular expressions of terminal_exclusion_service.py and
-- compliance_service.py, and `_ip_in_range`. Groups of a match are texts, as in the source.
pub mod Laws
use terminal_access_manager.Prelude.{
  ℕ, ◌/◌, ◌%◌, Bool, true, false, not, ◌&&◌, ◌||◌, Option, none, some, List, [], ◌∷◌, ◌++◌, leb,
  ◌==◌, if◌then◌else◌, Text, length, all, is_empty, is_digit, to_int, split, join, text_eq,
  starts_with,
}
use terminal_access_manager.Ipv4.{dot, parse_ipv4, print_ipv4, print_octet}

abbrev pub dash : ℕ
dash = b'-'

pub record Range : Type 0 where
  pub prefix : Text
  pub start : Text
  pub end : Text

-- `$` also matches before a newline that ends the text.
chomp : Text → Text
chomp [] = []
chomp (c ∷ []) = if c == 10 then [] else c ∷ []
chomp (c ∷ d ∷ s) = c ∷ chomp (d ∷ s)

-- `\d{1,3}`
abbrev pub short_digits : Text → Bool
short_digits s = not (is_empty s) && (leb (length s) 3 && all is_digit s)

-- `\d+`
abbrev pub some_digits : Text → Bool
some_digits s = not (is_empty s) && all is_digit s

module _ (digits : Text → Bool) where
  abbrev range_ends : Text → Text → Text → List Text → Option Range
  range_ends a b c (start ∷ end ∷ []) =
      if (digits a && digits b && digits c) && (digits start && digits end)
      then some (record { prefix = join dot (a ∷ b ∷ c ∷ []); start = start; end = end })
      else none
  range_ends a b c _ = none

  abbrev range_parts : List Text → Option Range
  range_parts (a ∷ b ∷ c ∷ last ∷ []) = range_ends a b c (split dash last)
  range_parts _ = none

  -- `^(D\.D\.D)\.(D)-(D)$`, where `digits` says what D matches
  unfoldable pub parse_range : Text → Option Range
  unfolding chomp
  parse_range s = range_parts (split dot (chomp s))

-- The text of a range over the addresses with the first three octets of `k`.
abbrev pub prefix_text : ℕ → Text
prefix_text k =
    join dot
      (print_octet (k / 256 / 256) ∷ print_octet (k / 256 % 256) ∷ print_octet (k % 256) ∷ [])

abbrev pub range_pattern : ℕ → ℕ → ℕ → Text
range_pattern k start end = prefix_text k ++ dot ∷ (print_octet start ++ dash ∷ print_octet end)

abbrev last_of : List Text → Text
last_of [] = []
last_of (w ∷ []) = w
last_of (w ∷ v ∷ ws) = last_of (v ∷ ws)

abbrev pub in_bounds : Range → ℕ → Bool
in_bounds r n = leb (to_int r.start) n && leb n (to_int r.end)

-- The test of `_ip_in_range` once the range is parsed
abbrev address_in_range : Range → Option ℕ → Bool
address_in_range r none = false
address_in_range r (some n) =
    if not (starts_with (print_ipv4 n) (r.prefix ++ dot ∷ []))
    then false
    else in_bounds r (to_int (last_of (split dot (print_ipv4 n))))

-- `_ip_in_range`
unfoldable pub ip_in_range : Text → Text → Bool
ip_in_range address range = elim (parse_range some_digits range) [
  | none ↦ false
  | some r ↦ address_in_range r (parse_ipv4 address)
]
