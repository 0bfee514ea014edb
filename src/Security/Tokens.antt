-- ===== src/Security/Tokens.antt =====
-- Tokens that are taken back, and captchas that are used up.
use terminal_access_manager.Prelude.{
  ℕ, zero, suc, ◌+◌, ◌<◌, ◌≡◌, refl, sym, ◌∙◌, ap, true, false, Option, none, some, [], ◌∷◌, any,
  ltb, Text, text_eq_refl, arith,
}
use terminal_access_manager.Compliance.Settings.{parse_int}
use terminal_access_manager.Security.{
  Redis, Payload, User, unauthorized, captcha_key, blacklist_key, version_key, verify_captcha,
  is_answer, add_token_to_blacklist, is_token_blacklisted, get_token_version,
  increment_token_version, get_current_user,
}
use terminal_access_manager.Security.Store.{IsStore, bumped}

module _ {S : Type 0} (redis : Redis S) (value : S → Text → Option ℕ)
    (store : IsStore redis value) where
  abbrev pub after_increments : ℕ → Text → S → S
  after_increments zero u s = s
  after_increments (suc k) u s = (increment_token_version redis u (after_increments k u s)).1

  abbrev version_of : Option ℕ → ℕ
  version_of none = 0
  version_of (some n) = n

  bumped_version : (x : Option ℕ) → bumped x ≡ version_of x + 1
  bumped_version x = ground arith

  version_lem :
      (u : Text) (s : S) → get_token_version redis u s ≡ version_of (value s (version_key u))
  unfolding get_token_version
  version_lem u s = rw (store.get_value (version_key u) s) (ground arith)

  increment_lem :
      (u : Text) (s : S)
      → get_token_version redis u (increment_token_version redis u s).1
        ≡ get_token_version redis u s + 1
  unfolding increment_token_version
  increment_lem u s =
      let (t, done, v) = store.incr_value (version_key u) s in
      rw done (
        version_lem u t
        ∙ ap version_of (v (version_key u))
        ∙ rw (text_eq_refl (version_key u))
            (bumped_version (value s (version_key u)) ∙ ap (λ n. n + 1) (sym (version_lem u s))))

  increments_lem :
      (k : ℕ) (u : Text) (s : S)
      → get_token_version redis u (after_increments k u s) ≡ get_token_version redis u s + k
  increments_lem zero u s = omega arith
  increments_lem (suc k) u s =
      omega (arith, increment_lem u (after_increments k u s), increments_lem k u s)

  -- The first use of a captcha answers by the stored value, and leaves none.
  verify_lem :
      (captcha_id answer : Text) (s : S)
      → (t : S) × (verify_captcha redis captcha_id answer s
          ≡ (is_answer redis (parse_int answer) (value s (captcha_key captcha_id)), t))
        × (value t (captcha_key captcha_id) ≡ none)
  unfolding verify_captcha any
  verify_lem captcha_id answer s =
      let k = captcha_key captcha_id in
      let (t, done, v) = store.delete_value (k ∷ []) s in
      (t, rw (done, store.get_value k s) refl, v k ∙ rw (text_eq_refl k) refl)

  -- With a store that keeps its commands, the first use of a captcha is accepted exactly if the
  -- answer is a number equal to the one stored under its id, and a second use is refused.
  pub verify_captcha_once :
      (captcha_id first second : Text) (s : S)
      → let r = verify_captcha redis captcha_id first s in
        (r.0 ≡ is_answer redis (parse_int first) (value s (captcha_key captcha_id)))
        × ((verify_captcha redis captcha_id second r.1).0 ≡ false)
  verify_captcha_once captcha_id first second s =
      let (t, used, gone) = verify_lem captcha_id first s in
      let (u, again, rest) = verify_lem captcha_id second t in
      (
        ap (λ r. r.0) used,
        ap (λ r. (verify_captcha redis captcha_id second r.1).0) used
            ∙ ap (λ r. r.0) again
            ∙ rw gone refl,
      )

  blacklisted :
      (jti : Text) (ttl : ℕ) (s : S)
      → 0 < ttl
      → is_token_blacklisted redis jti (add_token_to_blacklist redis jti ttl s) ≡ true
  unfolding add_token_to_blacklist is_token_blacklisted
  blacklisted jti ttl s pos =
      let k = blacklist_key jti in
      let (t, done, v) = store.setex_value k ttl 1 s pos in
      let long : ltb 0 ttl ≡ true = ground arith in
      rw long (rw done (rw (store.exists_value k t) (rw (v k) (rw (text_eq_refl k) refl))))

  module _ (decode : Text → Option Payload) (find_user : Text → Option User) where
    -- With a store that keeps its commands, a token that carries the current version of its user
    -- is refused after the version was incremented once or more, and refused after its id was
    -- blacklisted for a time that is not zero.
    pub revoked :
        (token name : Text) (p : Payload) (u : User) (s : S) (c : ℕ) (jti : Text) (k ttl : ℕ)
        → decode token ≡ some p
        → p.sub ≡ some name
        → find_user name ≡ some u
        → p.ver ≡ some (get_token_version redis u.id s)
        → p.jti ≡ some (c ∷ jti)
        → 0 < ttl
        → (get_current_user redis decode find_user token (after_increments (suc k) u.id s)
            ≡ unauthorized)
          × (get_current_user redis decode find_user token
                (add_token_to_blacklist redis (c ∷ jti) ttl s)
              ≡ unauthorized)
    unfolding get_current_user
    revoked token name p u s c jti k ttl d n f v j pos = (
      ground (arith, increments_lem (suc k) u.id s),
      ground (arith, blacklisted (c ∷ jti) ttl s pos),
    )
