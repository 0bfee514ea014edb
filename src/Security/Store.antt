-- ===== src/Security/Store.antt =====
-- What the service relies on of the key-value store, at one moment within the time to live of its
-- keys: the documented effects of the commands on the values.
use terminal_access_manager.Prelude.{
  ℕ, ◌+◌, ◌≡◌, ◌<◌, Option, none, some, List, if◌then◌else◌, any, is_some, Text, text_eq,
}
use terminal_access_manager.Security.{Redis}

-- What INCR makes of a value
abbrev pub bumped : Option ℕ → ℕ
bumped none = 1
bumped (some n) = n + 1

abbrev pub updated : (Text → Option ℕ) → Text → Option ℕ → Text → Option ℕ
updated v k x j = if text_eq j k then x else v j

-- The store answers, and `value` is what it holds.
pub record IsStore {S : Type 0} (redis : Redis S) (value : S → Text → Option ℕ) : Type 0 where
  pub get_value : (k : Text) (s : S) → redis.get k s ≡ some (value s k)
  pub exists_value : (k : Text) (s : S) → redis.exists k s ≡ some (is_some (value s k))
  pub incr_value :
      (k : Text) (s : S)
      → (t : S) × (redis.incr k s ≡ some (bumped (value s k), t))
        × ((j : Text) → value t j ≡ updated (value s) k (some (bumped (value s k))) j)
  pub expire_value :
      (k : Text) (ttl : ℕ) (s : S)
      → 0 < ttl
      → (t : S) × (redis.expire k ttl s ≡ some t) × ((j : Text) → value t j ≡ value s j)
  pub setex_value :
      (k : Text) (ttl v : ℕ) (s : S)
      → 0 < ttl
      → (t : S) × (redis.setex k ttl v s ≡ some t)
        × ((j : Text) → value t j ≡ updated (value s) k (some v) j)
  pub delete_value :
      (ks : List Text) (s : S)
      → (t : S) × (redis.delete ks s ≡ some t)
        × ((j : Text) → value t j ≡ (if any (text_eq j) ks then none else value s j))
