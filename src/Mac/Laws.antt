-- ===== src/Mac/Laws.antt =====
-- The spellings of a MAC address agree, and a formatted address is read back.
use terminal_access_manager.Prelude.Results.{ok}
use terminal_access_manager.Prelude.{
  ℕ, ◌≡◌, ◌≤◌, ◌<◌, ◌∙◌, refl, Bool, true, false, ◌||◌, some, [], ◌∷◌, ◌++◌, ◌==◌, Text, length,
  all, select, is_empty, is_upper_hex, upper, remove_char, arith, if◌then◌else◌, ap, select_comm,
}
use terminal_access_manager.Mac.{
  colon, dash, dot, normalize_mac, whitelist_mac, norm_mac_key, validate_mac, validate_mac_prefix,
  format_mac_hex,
}

-- The characters that part the digits.
abbrev pub is_separator : ℕ → Bool
is_separator c = c == colon || (c == dash || c == dot)

normalize_mac-cons :
    (c : ℕ) (s : Text)
    → normalize_mac (c ∷ s)
      ≡ (if is_separator c then normalize_mac s else upper (c ∷ []) ++ normalize_mac s)
unfolding normalize_mac select
normalize_mac-cons c s = ground arith

whitelist_mac-cons :
    (c : ℕ) (s : Text)
    → whitelist_mac (c ∷ s)
      ≡ (if is_separator c then whitelist_mac s else upper (c ∷ []) ++ whitelist_mac s)
unfolding whitelist_mac select
whitelist_mac-cons c s = ground arith

-- Upper case first or last, the compact form is the same.
pub whitelist_mac-eq-normalize_mac : (s : Text) → whitelist_mac s ≡ normalize_mac s
whitelist_mac-eq-normalize_mac [] = unfold whitelist_mac normalize_mac select in refl
whitelist_mac-eq-normalize_mac (c ∷ s) =
    ground (arith, whitelist_mac-cons c s, normalize_mac-cons c s, whitelist_mac-eq-normalize_mac s)

-- The key of a present address is its compact form.
pub norm_mac_key-cons :
    (c : ℕ) (s : Text) → norm_mac_key (some (c ∷ s)) ≡ some (normalize_mac (c ∷ s))
unfolding norm_mac_key normalize_mac
norm_mac_key-cons c s = ap some (ap upper (ap (remove_char dot) (select_comm _ _ (c ∷ s))))

normalize_mac-nil : normalize_mac [] ≡ []
unfolding normalize_mac select
normalize_mac-nil = refl

-- Of a text of upper case hexadecimal digits nothing is removed or changed.
pub normalize_mac-hex : (s : Text) → all is_upper_hex s ≡ true → normalize_mac s ≡ s
unfolding all
normalize_mac-hex [] h = normalize_mac-nil
normalize_mac-hex (c ∷ s) h = ground (arith, normalize_mac-cons c s, normalize_mac-hex s)

normalize_mac-pair :
    (a b : ℕ) (t : Text)
    → is_upper_hex a ≡ true
    → is_upper_hex b ≡ true
    → normalize_mac (a ∷ b ∷ colon ∷ t) ≡ a ∷ b ∷ normalize_mac t
normalize_mac-pair a b t ha hb = ground (
  arith,
  normalize_mac-cons a (b ∷ colon ∷ t),
  normalize_mac-cons b (colon ∷ t),
  normalize_mac-cons colon t,
)

-- Formatting a text of upper case hexadecimal digits with colons and normalizing it gives the
-- text back.
pub normalize_mac-format_mac_hex :
    (s : Text) → all is_upper_hex s ≡ true → normalize_mac (format_mac_hex s) ≡ s
unfolding format_mac_hex all
normalize_mac-format_mac_hex [] h = normalize_mac-nil
normalize_mac-format_mac_hex (a ∷ []) h = normalize_mac-hex (a ∷ []) h
normalize_mac-format_mac_hex (a ∷ b ∷ []) h = normalize_mac-hex (a ∷ b ∷ []) h
normalize_mac-format_mac_hex (a ∷ b ∷ c ∷ []) h =
    ground (arith, normalize_mac-pair a b (c ∷ []), normalize_mac-hex (c ∷ []))
normalize_mac-format_mac_hex (a ∷ b ∷ c ∷ d ∷ s) h = ground (
  arith,
  normalize_mac-pair a b (format_mac_hex (c ∷ d ∷ s)),
  normalize_mac-format_mac_hex (c ∷ d ∷ s),
)

-- What `_validate_mac` accepts: the compact form of its argument, twelve digits.
pub validate_mac_lem :
    (s v : Text)
    → validate_mac s ≡ ok v
    → (v ≡ normalize_mac s) × (length v ≡ 12) × (all is_upper_hex v ≡ true)
unfolding validate_mac
validate_mac_lem s v h = ground arith

-- What `_validate_mac_prefix` accepts: the compact form of its argument, six to ten digits.
pub validate_mac_prefix_lem :
    (s v : Text)
    → validate_mac_prefix s ≡ ok v
    → (v ≡ normalize_mac s) × (6 ≤ length v) × (all is_upper_hex v ≡ true)
unfolding validate_mac_prefix
validate_mac_prefix_lem s v h = ground arith

pub format_mac_hex-ne-nil : (s : Text) → 0 < length s → is_empty (format_mac_hex s) ≡ false
unfolding format_mac_hex
format_mac_hex-ne-nil [] h = absurd (omega arith)
format_mac_hex-ne-nil (a ∷ []) h = refl
format_mac_hex-ne-nil (a ∷ b ∷ []) h = refl
format_mac_hex-ne-nil (a ∷ b ∷ c ∷ []) h = refl
format_mac_hex-ne-nil (a ∷ b ∷ c ∷ d ∷ s) h = refl

module _ (value v : Text) (accepted : validate_mac value ≡ ok v) where
  -- The stored form of an accepted address has the same compact form.
  pub format-validate_mac :
      (is_empty (format_mac_hex v) ≡ false)
      × (normalize_mac (format_mac_hex v) ≡ normalize_mac value)
  format-validate_mac =
      let (same, twelve, hex) = validate_mac_lem value v accepted in
      (format_mac_hex-ne-nil v (omega arith), normalize_mac-format_mac_hex v hex ∙ same)

module _ (value v : Text) (accepted : validate_mac_prefix value ≡ ok v) where
  -- So has the stored form of an accepted prefix.
  pub format-validate_mac_prefix :
      (is_empty (format_mac_hex v) ≡ false)
      × (normalize_mac (format_mac_hex v) ≡ normalize_mac value)
  format-validate_mac_prefix =
      let (same, six, hex) = validate_mac_prefix_lem value v accepted in
      (format_mac_hex-ne-nil v (omega arith), normalize_mac-format_mac_hex v hex ∙ same)
