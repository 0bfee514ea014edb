-- ===== src/Mac.antt =====
-- MAC addresses as the services spell them: `_normalize_mac`, `_validate_mac` and
-- `_validate_mac_prefix` of backend/app/services/terminal_service.py, `_format_mac_hex` of
-- terminal_exclusion_service.py, and the spellings inside compliance_service.py.
pub mod Laws
use terminal_access_manager.Prelude.Results.{
  Result, ok, err, invalid_mac, invalid_mac_prefix, ◌>>=◌, ◌>>◌, require,
}
use terminal_access_manager.Prelude.{
  ℕ, Bool, true, false, not, ◌&&◌, ◌||◌, Option, none, some, List, [], ◌∷◌, ==_iff, ◌==◌,
  if◌then◌else◌, Text, length, all, any, is_empty, is_upper_hex, upper, remove_char, replace_char,
  starts_with, leb, join,
}

abbrev pub colon : ℕ
colon = b':'

abbrev pub dash : ℕ
dash = b'-'

abbrev pub dot : ℕ
dot = b'.'

-- `_normalize_mac`
unfoldable pub normalize_mac : Text → Text
normalize_mac mac = upper (remove_char dot (remove_char dash (remove_char colon mac)))

-- `mac.upper().replace(":", "").replace("-", "").replace(".", "")`, the spelling of
-- `_match_whitelist_in_memory`
unfoldable pub whitelist_mac : Text → Text
whitelist_mac mac = remove_char dot (remove_char dash (remove_char colon (upper mac)))

-- `_norm_mac_key`: `None` for an absent or empty address
unfoldable pub norm_mac_key : Option Text → Option Text
norm_mac_key none = none
norm_mac_key (some mac) =
    if is_empty mac
    then none
    else some (upper (remove_char dot (remove_char colon (remove_char dash mac))))

-- `mac.upper().replace(":", "-")`, the spelling of `_match_ipguard_in_memory`
unfoldable pub ipguard_mac : Text → Text
ipguard_mac mac = replace_char colon dash (upper mac)

unfoldable pub validate_mac : Text → Result Text
unfolding normalize_mac all
validate_mac mac = do
  let normalized = normalize_mac mac
  require (length normalized == 12 && all is_upper_hex normalized) invalid_mac
  ok normalized

unfoldable pub validate_mac_prefix : Text → Result Text
unfolding normalize_mac all
validate_mac_prefix prefix = do
  let cleaned = normalize_mac prefix
  let n = length cleaned
  require ((n == 6 || n == 8 || n == 10) && all is_upper_hex cleaned) invalid_mac_prefix
  ok cleaned

-- `[value[i:i + 2] for i in range(0, len(value), 2)]`
unfoldable pub pairs : Text → List Text
pairs [] = []
pairs (a ∷ []) = (a ∷ []) ∷ []
pairs (a ∷ b ∷ s) = (a ∷ b ∷ []) ∷ pairs s

-- `_format_mac_hex`
unfoldable pub format_mac_hex : Text → Text
unfolding pairs join
format_mac_hex value = join colon (pairs value)

-- `norm_prefix` and `normalized_mac` of `_mac_matches_any_prefix`
abbrev pub compact : Text → Text
compact s = remove_char dash (remove_char colon (upper s))

-- One turn of the loop of `_mac_matches_any_prefix`
unfoldable pub matches_prefix : Text → Text → Bool
unfolding starts_with
matches_prefix mac prefix =
    leb (length (compact prefix)) (length (compact mac))
    && starts_with (compact mac) (compact prefix)

-- `_mac_matches_any_prefix`
unfoldable pub mac_matches_any_prefix : Text → List Text → Bool
unfolding matches_prefix any
mac_matches_any_prefix mac prefixes =
    if is_empty mac || is_empty prefixes then false else any (matches_prefix mac) prefixes
