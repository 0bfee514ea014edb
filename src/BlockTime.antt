-- ===== src/BlockTime.antt =====
-- Block durations such as 30d, 6h or 45m: `_parse_block_time` of terminal_service.py, which
-- compliance_service.py repeats in `_apply_compliance_result`.
use terminal_access_manager.Prelude.{
  ℕ, ◌+◌, ◌*◌, Bool, not, ◌&&◌, ◌||◌, [], ◌∷◌, ◌++◌, if◌then◌else◌, Text, map, leb, ◌==◌, is_digit,
  is_empty, to_int, all,
}
use terminal_access_manager.Models.{Time, minute}

abbrev lower_char : ℕ → ℕ
lower_char c = if leb b'A' c && leb c b'Z' then c + 32 else c

-- `s.lower()`
abbrev lower : Text → Text
lower = map lower_char

abbrev pub hour : Time
hour = 60 * minute

abbrev pub day : Time
day = 24 * hour

abbrev pub default_duration : Time
default_duration = 30 * day

-- The length of one unit
abbrev unit_length : ℕ → Time
unit_length c = if c == b'd' then day else if c == b'h' then hour else minute

abbrev is_unit : ℕ → Bool
is_unit c = c == b'd' || (c == b'h' || c == b'm')

abbrev units : Text → ℕ → Time
units digits unit =
    if (not (is_empty digits) && all is_digit digits) && is_unit unit
    then to_int digits * unit_length unit
    else default_duration

-- Looks for the last character but a final newline: `^(\d+)([dhm])$`
read_units : Text → Text → Time
read_units seen [] = default_duration
read_units seen (c ∷ []) = units seen c
read_units seen (c ∷ d ∷ []) = if d == 10 then units seen c else units (seen ++ c ∷ []) d
read_units seen (c ∷ d ∷ e ∷ s) = read_units (seen ++ c ∷ []) (d ∷ e ∷ s)

unfoldable pub parse_block_time : Text → Time
unfolding read_units all
parse_block_time block_time = read_units [] (lower block_time)
