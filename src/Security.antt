-- ===== src/Security.antt =====
-- backend/app/core/security.py: failed logins and lockout, the captcha, token versions and the check
-- of a token. The key-value store (Redis) is a parameter: its calls return `none` when they raise.
-- The values that the service keeps there are numbers, written as text.
pub mod Store
pub mod Login
pub mod Tokens
use terminal_access_manager.Prelude.{
  ℕ, ◌*◌, Bool, true, false, not, ◌&&◌, ◌||◌, Option, none, some, List, [], ◌∷◌, ◌++◌,
  if◌then◌else◌, leb, ltb, ◌==◌, is_some, Text, codes,
}
use terminal_access_manager.Compliance.Settings.{Parsed, negative, natural, not_a_number, parse_int}

-- The calls of the store that the service uses
pub record Redis (S : Type 0) : Type 0 where
  pub exists : Text → S → Option Bool
  pub get : Text → S → Option (Option ℕ)
  pub incr : Text → S → Option (ℕ × S)
  pub expire : Text → ℕ → S → Option S
  pub setex : Text → ℕ → ℕ → S → Option S
  pub delete : List Text → S → Option S

-- Settings, as `get_config_value` returns them
pub record Limits : Type 0 where
  pub max_login_attempts : ℕ
  pub lockout_duration_minutes : ℕ
  pub captcha_threshold : ℕ

abbrev pub lock_key : Text → Text
lock_key username = codes "login_lock:" ++ username

abbrev pub attempts_key : Text → Text
attempts_key username = codes "login_attempts:" ++ username

abbrev pub version_key : Text → Text
version_key user_id = codes "token_version:" ++ user_id

abbrev pub blacklist_key : Text → Text
blacklist_key jti = codes "token_blacklist:" ++ jti

abbrev pub captcha_key : Text → Text
captcha_key captcha_id = codes "captcha:" ++ captcha_id

abbrev or_false : Option Bool → Bool
or_false none = false
or_false (some b) = b

abbrev or_true : Option Bool → Bool
or_true none = true
or_true (some b) = b

abbrev pub or_state {ℓ} : {A : Type ℓ} → A → Option A → A
or_state s none = s
or_state s (some t) = t

module _ {S : Type 0} (redis : Redis S) where
  -- `check_login_attempts`: an unavailable store locks nobody.
  unfoldable pub check_login_attempts : Text → S → Bool
  check_login_attempts username s = or_false (redis.exists (lock_key username) s)

  abbrev reached : ℕ → Option (Option ℕ) → Bool
  reached threshold (some (some attempts)) = leb threshold attempts
  reached threshold _ = false

  -- `check_captcha_required`
  unfoldable pub check_captcha_required : Limits → Text → S → Bool
  check_captcha_required limits username s =
      reached limits.captcha_threshold (redis.get (attempts_key username) s)

  -- The lock, once the attempts are counted
  abbrev pub lock_account : Limits → Text → ℕ → S → S
  lock_account limits username attempts s =
      if leb limits.max_login_attempts attempts
      then or_state s
          (redis.setex (lock_key username) (limits.lockout_duration_minutes * 60) attempts s)
      else s

  abbrev pub after_expire : Limits → Text → ℕ → S → Option S → S
  after_expire limits username attempts s none = s
  after_expire limits username attempts s (some t) = lock_account limits username attempts t

  abbrev pub count_failure : Limits → Text → S → Option (ℕ × S) → S
  count_failure limits username s none = s
  count_failure limits username s (some (attempts, t)) =
      if attempts == 1
      then after_expire limits username attempts t
          (redis.expire (attempts_key username) (limits.lockout_duration_minutes * 60) t)
      else lock_account limits username attempts t

  -- `record_failed_login`: an exception ends it, and what was done stays done.
  unfoldable pub record_failed_login : Limits → Text → S → S
  record_failed_login limits username s =
      count_failure limits username s (redis.incr (attempts_key username) s)

  -- `reset_login_attempts`
  unfoldable pub reset_login_attempts : Text → S → S
  reset_login_attempts username s =
      or_state s (redis.delete (attempts_key username ∷ lock_key username ∷ []) s)

  abbrev pub is_answer : Parsed → Option ℕ → Bool
  is_answer given none = false
  is_answer (natural n) (some answer) = n == answer
  is_answer _ (some answer) = false

  abbrev pub checked_answer : Text → S → Option (Option ℕ) → Option S → Bool × S
  checked_answer answer s (some stored) (some t) = (is_answer (parse_int answer) stored, t)
  checked_answer answer s _ _ = (false, s)

  -- `verify_captcha`: the stored answer is read and deleted in one transaction.
  unfoldable pub verify_captcha : Text → Text → S → Bool × S
  unfolding parse_int
  verify_captcha captcha_id answer s =
      checked_answer answer s (redis.get (captcha_key captcha_id) s)
        (redis.delete (captcha_key captcha_id ∷ []) s)

  -- `add_token_to_blacklist`, with the seconds until the token expires
  unfoldable pub add_token_to_blacklist : Text → ℕ → S → S
  add_token_to_blacklist jti ttl s =
      if ltb 0 ttl then or_state s (redis.setex (blacklist_key jti) ttl 1 s) else s

  -- `is_token_blacklisted`: with an unavailable store every token is.
  unfoldable pub is_token_blacklisted : Text → S → Bool
  is_token_blacklisted jti s = or_true (redis.exists (blacklist_key jti) s)

  abbrev version_or_zero : Option (Option ℕ) → ℕ
  version_or_zero (some (some version)) = version
  version_or_zero _ = 0

  -- `get_token_version`
  unfoldable pub get_token_version : Text → S → ℕ
  get_token_version user_id s = version_or_zero (redis.get (version_key user_id) s)

  abbrev counted_version : S → Option (ℕ × S) → ℕ × S
  counted_version s none = (0, s)
  counted_version s (some r) = r

  -- `increment_token_version`
  unfoldable pub increment_token_version : Text → S → ℕ × S
  increment_token_version user_id s = counted_version s (redis.incr (version_key user_id) s)

-- The claims of a token that the check reads, once its signature and its time are found good
pub record Payload : Type 0 where
  pub sub : Option Text
  pub jti : Option Text
  pub ver : Option ℕ

-- A row of `users`; the id is the text that the keys are made of.
pub record User : Type 0 where
  pub id : Text
  pub username : Text
  pub is_active : Bool

pub data Access : Type 0 where
  unauthorized inactive : Access
  granted : User → Access

module _ {S : Type 0} (redis : Redis S) (decode : Text → Option Payload)
    (find_user : Text → Option User) where
  abbrev is_revoked : Option Text → S → Bool
  is_revoked none s = false
  is_revoked (some []) s = false
  is_revoked (some (c ∷ jti)) s = is_token_blacklisted redis (c ∷ jti) s

  -- A token without a version is accepted.
  abbrev is_outdated : Option ℕ → User → S → Bool
  is_outdated none u s = false
  is_outdated (some ver) u s = not (ver == get_token_version redis u.id s)

  abbrev check_user : Option ℕ → S → Option User → Access
  check_user ver s none = unauthorized
  check_user ver s (some u) =
      if is_outdated ver u s then unauthorized else if u.is_active then granted u else inactive

  abbrev check_payload : S → Option Payload → Access
  check_payload s none = unauthorized
  check_payload s (some p) = elim p.sub [
    | none ↦ unauthorized
    | some username ↦
        if is_revoked p.jti s then unauthorized else check_user p.ver s (find_user username)
  ]

  -- `get_current_user`
  unfoldable pub get_current_user : Text → S → Access
  unfolding is_token_blacklisted get_token_version
  get_current_user token s = check_payload s (decode token)
