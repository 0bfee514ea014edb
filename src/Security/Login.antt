-- ===== src/Security/Login.antt =====
-- The lockout after failed logins.
use terminal_access_manager.Prelude.{
  ℕ, zero, suc, ◌*◌, ◌<◌, ◌≡◌, refl, ◌∙◌, ap, inl, inr, Bool, false, Bool-cases, ◌&&◌, ◌||◌, Option,
  none, some, [], ◌∷◌, any, leb, ltb, ◌==◌, is_some, Text, text_eq, text_eq_refl, arith,
}
use terminal_access_manager.Security.{
  Redis, Limits, lock_key, attempts_key, lock_account, after_expire, record_failed_login,
  check_login_attempts, reset_login_attempts,
}
use terminal_access_manager.Security.Store.{IsStore, bumped, updated}

-- The keys of locks and of counts are different.
lock_not_attempts : (u v : Text) → text_eq (lock_key u) (attempts_key v) ≡ false
unfolding text_eq
lock_not_attempts u v = refl

attempts_not_lock : (u v : Text) → text_eq (attempts_key u) (lock_key v) ≡ false
unfolding text_eq
attempts_not_lock u v = refl

module _ {S : Type 0} (redis : Redis S) (value : S → Text → Option ℕ) (store : IsStore redis value)
    (limits : Limits) (lasts : 0 < limits.lockout_duration_minutes) (u : Text) where
  -- A state with `n` attempts counted
  record IsAt (n : ℕ) (locked : Bool) (t : S) : Type 0 where
    attempts : value t (attempts_key u) ≡ some n
    lock : is_some (value t (lock_key u)) ≡ locked

  lock_account_lem :
      (n : ℕ) (b : Bool) (s : S)
      → IsAt n b s
      → IsAt n (leb limits.max_login_attempts n || b) (lock_account redis limits u n s)
  lock_account_lem n b s at_n = elim (Bool-cases (leb limits.max_login_attempts n)) [
    | inl e ↦
        let (t, done, v) =
          store.setex_value (lock_key u) (limits.lockout_duration_minutes * 60) n s (omega arith) in
        rw e (
          rw done (record {
            attempts = v (attempts_key u) ∙ rw (attempts_not_lock u u) at_n.attempts;
            lock = ap is_some (v (lock_key u)) ∙ rw (text_eq_refl (lock_key u)) refl;
          }))
    | inr e ↦ rw e at_n
  ]

  incr-IsAt :
      (n : ℕ) (s t : S)
      → ((j : Text) → value t j ≡ updated (value s) (attempts_key u) (some n) j)
      → IsAt n (is_some (value s (lock_key u))) t
  incr-IsAt n s t v = record {
    attempts = v (attempts_key u) ∙ rw (text_eq_refl (attempts_key u)) refl;
    lock = ap is_some (v (lock_key u)) ∙ rw (lock_not_attempts u u) refl;
  }

  expire-IsAt :
      (n : ℕ) (b : Bool) (s : S)
      → IsAt n b s
      → IsAt n (leb limits.max_login_attempts n || b) (
          after_expire redis limits u n s
            (redis.expire (attempts_key u) (limits.lockout_duration_minutes * 60) s))
  expire-IsAt n b s at_n =
      let (t, done, v) =
        store.expire_value (attempts_key u) (limits.lockout_duration_minutes * 60) s
          (omega arith) in
      rw done (
        lock_account_lem n b t (record {
          attempts = v (attempts_key u) ∙ at_n.attempts;
          lock = ap is_some (v (lock_key u)) ∙ at_n.lock;
        }))

  -- A failure counts one more, and locks from the limit on.
  record_lem :
      (s : S)
      → let n = bumped (value s (attempts_key u)) in
        IsAt n
          (leb limits.max_login_attempts n || is_some (value s (lock_key u)))
          (record_failed_login redis limits u s)
  unfolding record_failed_login
  record_lem s =
      let n = bumped (value s (attempts_key u)) in
      let (t, done, v) = store.incr_value (attempts_key u) s in
      let counted = incr-IsAt n s t v in
      rw done (elim (Bool-cases (n == 1)) [
        | inl e ↦ rw e (expire-IsAt n _ t counted)
        | inr e ↦ rw e (lock_account_lem n _ t counted)
      ])

  -- Failures in a row
  abbrev pub failures : ℕ → S → S
  failures zero s = s
  failures (suc k) s = record_failed_login redis limits u (failures k s)

  restated : (n m : ℕ) (b c : Bool) (t : S) → IsAt n b t → n ≡ m → b ≡ c → IsAt m c t
  restated n m b c t h e f = record { attempts = h.attempts ∙ ap some e; lock = h.lock ∙ f }

  failures-IsAt :
      (k : ℕ) (s : S)
      → value s (attempts_key u) ≡ none
      → is_some (value s (lock_key u)) ≡ false
      → IsAt (suc k) (leb limits.max_login_attempts (suc k)) (failures (suc k) s)
  failures-IsAt zero s a l =
      restated _ 1 _ _ _ (record_lem s) (rw a refl) (rw (a, l) (ground arith))
  failures-IsAt (suc k) s a l =
      let h = failures-IsAt k s a l in
      let t = failures (suc k) s in
      restated _ (suc (suc k)) _ _ _ (record_lem t) (rw h.attempts (omega arith))
        (rw (h.attempts, h.lock) (ground arith))

  check_lem : (s : S) → check_login_attempts redis u s ≡ is_some (value s (lock_key u))
  unfolding check_login_attempts
  check_lem s = rw (store.exists_value (lock_key u) s) refl

  reset_opens : (s : S) → check_login_attempts redis u (reset_login_attempts redis u s) ≡ false
  unfolding reset_login_attempts any
  reset_opens s =
      let (t, done, v) = store.delete_value (attempts_key u ∷ lock_key u ∷ []) s in
      rw done (
        check_lem t
        ∙ ap is_some (v (lock_key u))
        ∙ rw (text_eq_refl (lock_key u), lock_not_attempts u u) refl)

  -- With a store that keeps its commands and a lockout that lasts, an account without failures
  -- and without a lock is locked after a number of failures in a row exactly if that is not zero
  -- and not below the limit, and a reset opens it again.
  pub lockout :
      (k : ℕ) (s : S)
      → value s (attempts_key u) ≡ none
      → is_some (value s (lock_key u)) ≡ false
      → (check_login_attempts redis u (failures k s) ≡ (ltb 0 k && leb limits.max_login_attempts k))
        × (check_login_attempts redis u (reset_login_attempts redis u (failures k s)) ≡ false)
  lockout zero s a l = (check_lem s ∙ l, reset_opens s)
  lockout (suc k) s a l =
      let h = failures-IsAt k s a l in
      let t = failures (suc k) s in (check_lem t ∙ h.lock ∙ ground arith, reset_opens t)
