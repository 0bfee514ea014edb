-- ===== src/Compliance/Device.antt =====
-- Device grouping: `_effective_device_id`, and the registry that maps MAC keys to devices.
use terminal_access_manager.Prelude.{
  Bool, Option, none, some, List, [], ◌∷◌, Text, text_eq, is_empty, if◌then◌else◌, any,
}

abbrev pub Registry : Type 0
Registry = List (Text × Text)

unfoldable pub lookup : Text → Registry → Option Text
lookup k [] = none
lookup k ((j, d) ∷ m) = if text_eq j k then some d else lookup k m

-- `stamped or None`
abbrev pub non_empty : Option Text → Option Text
non_empty none = none
non_empty (some d) = if is_empty d then none else some d

-- `mac_to_device.get(mac_norm) if mac_norm else None`
abbrev registered : Option Text → Registry → Option Text
registered none m = none
registered (some k) m = if is_empty k then none else lookup k m

unfoldable pub effective_device_id : Option Text → Option Text → Registry → Option Text
unfolding lookup
effective_device_id stamped mac_norm [] = non_empty stamped
effective_device_id stamped mac_norm (p ∷ m) = registered mac_norm (p ∷ m)

-- `device_id in device_ids`
unfoldable pub contains : List Text → Text → Bool
unfolding any
contains ids d = any (text_eq d) ids
