-- ===== src/Exclusion/Purge/Flags.antt =====
-- What `clear_stale_exclusion_flags` leaves.
use terminal_access_manager.Prelude.{
  ◌+◌, ◌≡◌, refl, Bool, true, not, ◌||◌, List, [], ◌∷◌, map, select, length, all, arith, ap₂,
}
use terminal_access_manager.Models.{Terminal}
use terminal_access_manager.Exclusion.{Condition, matches_any}
use terminal_access_manager.Exclusion.Purge.Tables.{
  clear_stale_exclusion_flags, is_stale, unflagged_if,
}

-- A flagged terminal is covered by an active rule.
abbrev pub is_explained : List Condition → Terminal → Bool
is_explained rules t = not t.excluded_by_rule || matches_any rules t.ip_address t.mac_address

abbrev pub flagged : Terminal → Bool
flagged t = t.excluded_by_rule

module _ (rules : List Condition) where
  abbrev cleared : Terminal → Terminal
  cleared t = unflagged_if (is_stale rules t) t

  explained_all : (ts : List Terminal) → all (is_explained rules) (map cleared ts) ≡ true
  unfolding all
  explained_all [] = refl
  explained_all (t ∷ ts) = ground (arith, explained_all ts)

  cleared_count :
      (ts : List Terminal)
      → length (select flagged ts)
        ≡ length (select (is_stale rules) ts) + length (select flagged (map cleared ts))
  unfolding select
  cleared_count [] = ground arith
  cleared_count (t ∷ ts) = ground (arith, cleared_count ts)

  cleared_twice : (ts : List Terminal) → map cleared (map cleared ts) ≡ map cleared ts
  cleared_twice [] = refl
  cleared_twice (t ∷ ts) = ground (arith, cleared_twice ts)

  nothing_stale : (ts : List Terminal) → length (select (is_stale rules) (map cleared ts)) ≡ 0
  unfolding select
  nothing_stale [] = refl
  nothing_stale (t ∷ ts) = ground (arith, nothing_stale ts)

  -- After stale flags are cleared every flag left is explained by an active rule, the count
  -- returned is the number of flags that went, and a second call changes nothing and returns 0.
  pub clear_stale_lem :
      (ts : List Terminal)
      → let (after, cleared_flags) = clear_stale_exclusion_flags rules ts in
        (all (is_explained rules) after ≡ true)
        × (length (select flagged ts) ≡ cleared_flags + length (select flagged after))
        × (clear_stale_exclusion_flags rules after ≡ (after, 0))
  unfolding clear_stale_exclusion_flags
  clear_stale_lem ts = (
    explained_all ts,
    cleared_count ts,
    ap₂ (λ a b. (a, b)) (cleared_twice ts) (nothing_stale ts),
  )
