-- ===== src/Tests/Logins.antt =====
-- The theorems on logins and tokens, at a store that is a function.
use terminal_access_manager.Prelude.{
  ℕ, ◌≡◌, refl, true, false, Option, none, some, [], any, is_some, if◌then◌else◌, Text, text_eq,
  codes, arith,
}
use terminal_access_manager.Compliance.Settings.{parse_int}
use terminal_access_manager.Security.{
  Redis, Limits, Payload, User, unauthorized, is_answer, captcha_key, check_login_attempts,
  reset_login_attempts, verify_captcha, get_current_user, get_token_version, add_token_to_blacklist,
}
use terminal_access_manager.Security.Store.{IsStore, bumped, updated}
use terminal_access_manager.Security.Login.{failures, lockout}
use terminal_access_manager.Security.Tokens.{after_increments, revoked, verify_captcha_once}

abbrev Memory : Type 0
Memory = Text → Option ℕ

abbrev memory : Redis Memory
memory = record {
  exists = λ k s. some (is_some (s k));
  get = λ k s. some (s k);
  incr = λ k s. some (bumped (s k), updated s k (some (bumped (s k))));
  expire = λ k ttl s. some s;
  setex = λ k ttl v s. some (updated s k (some v));
  delete = λ ks s. some (λ j. if any (text_eq j) ks then none else s j);
}

abbrev holds : Memory → Text → Option ℕ
holds s k = s k

memory-IsStore : IsStore memory holds
memory-IsStore = record {
  get_value = λ k s. refl;
  exists_value = λ k s. refl;
  incr_value = λ k s. (updated s k (some (bumped (s k))), refl, λ j. refl);
  expire_value = λ k ttl s pos. (s, refl, λ j. refl);
  setex_value = λ k ttl v s pos. (updated s k (some v), refl, λ j. refl);
  delete_value = λ ks s. ((λ j. if any (text_eq j) ks then none else s j), refl, λ j. refl);
}

abbrev limits : Limits
limits = record { max_login_attempts = 5; lockout_duration_minutes = 15; captcha_threshold = 3 }

abbrev blank : Memory
blank = λ k. none

abbrev admin : Text
admin = codes "admin"

lockout_example :
    (check_login_attempts memory admin
        (failures memory holds memory-IsStore limits (omega arith) admin 5 blank)
      ≡ true)
    × (check_login_attempts memory admin (
          reset_login_attempts memory admin
            (failures memory holds memory-IsStore limits (omega arith) admin 5 blank))
        ≡ false)
lockout_example = lockout memory holds memory-IsStore limits (omega arith) admin 5 blank refl refl

verify_captcha_once_example :
    let r = verify_captcha memory (codes "c1") (codes "12") blank in
    (r.0 ≡ is_answer memory (parse_int (codes "12")) (holds blank (captcha_key (codes "c1"))))
    × ((verify_captcha memory (codes "c1") (codes "12") r.1).0 ≡ false)
verify_captcha_once_example =
    verify_captcha_once memory holds memory-IsStore (codes "c1") (codes "12") (codes "12") blank

abbrev user : User
user = record { id = codes "1"; username = admin; is_active = true }

abbrev payload : Payload
payload = record { sub = some admin; jti = some (codes "j"); ver = some 0 }

abbrev decode : Text → Option Payload
decode token = some payload

abbrev find_user : Text → Option User
find_user name = some user

version_zero : get_token_version memory user.id blank ≡ 0
unfolding get_token_version
version_zero = refl

ver_current : payload.ver ≡ some (get_token_version memory user.id blank)
ver_current = rw version_zero refl

revoked_example :
    (get_current_user memory decode find_user
        (codes "t")
        (after_increments memory holds memory-IsStore 1 user.id blank)
      ≡ unauthorized)
    × (get_current_user memory decode find_user
          (codes "t")
          (add_token_to_blacklist memory (codes "j") 60 blank)
        ≡ unauthorized)
revoked_example =
    revoked memory holds memory-IsStore decode find_user (codes "t") admin payload user blank b'j'
      [] 0 60 refl refl refl ver_current refl (omega arith)
