-- ===== src/Exclusion/Rules/Distinct.antt =====
-- No two rules have one condition.
use terminal_access_manager.Prelude.{
  all-snoc, all-find, all-select-of, ℕ, ◌≡◌, refl, subst, Bool, true, false, not, ◌&&◌, ◌||◌,
  Option, none, some, List, [], ◌∷◌, ◌++◌, ◌==◌, ==_iff, ltb, Text, text_eq, text_eq_iff, any, all,
  select, find, arith, Bool-cases, inl, inr,
}
use terminal_access_manager.Models.{same_key}
use terminal_access_manager.Exclusion.{Condition}
use terminal_access_manager.Exclusion.Rules.{
  Rule, same_condition, find_duplicate, get_rule, replace_rule,
}

abbrev conflict : Rule → Rule → Bool
conflict r s = r.id == s.id || same_condition r.condition s.condition

-- Every two rows differ in id and in condition.
unfoldable pub no_duplicates : List Rule → Bool
unfolding all
no_duplicates [] = true
no_duplicates (r ∷ rs) = all (λ s. not (conflict r s)) rs && no_duplicates rs

text_eq_comm : (s t : Text) → text_eq s t ≡ text_eq t s
text_eq_comm s t = ground (arith, text_eq_iff s t, text_eq_iff t s)

same_key_comm : (a b : Option Text) → same_key a b ≡ same_key b a
same_key_comm none none = refl
same_key_comm none (some t) = refl
same_key_comm (some s) none = refl
same_key_comm (some s) (some t) = text_eq_comm s t

same_condition_comm : (a b : Condition) → same_condition a b ≡ same_condition b a
unfolding same_condition
same_condition_comm a b =
    ground
      (arith, same_key_comm a.ip_pattern b.ip_pattern, same_key_comm a.mac_address b.mac_address)

-- A row that conflicts with none can be added at the end.
pub no_duplicates-snoc :
    (r : Rule) (rs : List Rule)
    → no_duplicates rs ≡ true
    → all (λ s. not (conflict s r)) rs ≡ true
    → no_duplicates (rs ++ r ∷ []) ≡ true
unfolding no_duplicates all
no_duplicates-snoc r [] h k = refl
no_duplicates-snoc r (s ∷ rs) h k =
    ground (arith, no_duplicates-snoc r rs, all-snoc (λ u. not (conflict s u)) rs r)

-- A search that finds nothing, among rows with smaller ids
pub no_conflict-find_duplicate :
    (r : Rule) (rs : List Rule)
    → all (λ s. ltb s.id r.id) rs ≡ true
    → find_duplicate rs r.condition none ≡ false
    → all (λ s. not (conflict s r)) rs ≡ true
unfolding all find_duplicate any
no_conflict-find_duplicate r [] h k = refl
no_conflict-find_duplicate r (s ∷ rs) h k =
    ground (arith, no_conflict-find_duplicate r rs, ==_iff s.id r.id)

-- The rows with another id have another condition.
abbrev pub others_differ : ℕ → Condition → List Rule → Bool
others_differ k v rs = all (λ s. s.id == k || not (same_condition s.condition v)) rs

pub others_differ-find_duplicate :
    (k : ℕ) (v : Condition) (rs : List Rule)
    → find_duplicate rs v (some k) ≡ false
    → others_differ k v rs ≡ true
unfolding all find_duplicate any
others_differ-find_duplicate k v [] h = refl
others_differ-find_duplicate k v (s ∷ rs) h = ground (arith, others_differ-find_duplicate k v rs)

-- Rows that do not conflict with `r`, which has another id, do not after the replacement.
all-replace :
    (n r : Rule) (rs : List Rule)
    → (r.id == n.id) ≡ false
    → same_condition r.condition n.condition ≡ false
    → all (λ s. not (conflict r s)) rs ≡ true
    → all (λ s. not (conflict r s)) (replace_rule n rs) ≡ true
unfolding all replace_rule
all-replace n r [] a b h = refl
all-replace n r (s ∷ rs) a b h = ground (arith, all-replace n r rs)

-- Rows with other ids stay, and do not conflict with the new row.
all-replaced :
    (n r : Rule) (rs : List Rule)
    → (r.id == n.id) ≡ true
    → others_differ n.id n.condition rs ≡ true
    → all (λ s. not (conflict r s)) rs ≡ true
    → all (λ s. not (conflict n s)) (replace_rule n rs) ≡ true
unfolding all replace_rule
all-replaced n r [] a b h = refl
all-replaced n r (s ∷ rs) a b h = ground (
  arith,
  all-replaced n r rs,
  ==_iff r.id n.id,
  ==_iff s.id n.id,
  ==_iff n.id s.id,
  ==_iff r.id s.id,
  same_condition_comm s.condition n.condition,
)

pub no_duplicates-replace_rule :
    (n : Rule) (rs : List Rule)
    → no_duplicates rs ≡ true
    → others_differ n.id n.condition rs ≡ true
    → no_duplicates (replace_rule n rs) ≡ true
unfolding no_duplicates all replace_rule
no_duplicates-replace_rule n [] h k = refl
no_duplicates-replace_rule n (r ∷ rs) h k =
    ground (arith, no_duplicates-replace_rule n rs, all-replace n r rs, all-replaced n r rs)

differ_from :
    (id : ℕ) (s : Rule) (rs : List Rule)
    → all (λ u. not (conflict s u)) rs ≡ true
    → others_differ id s.condition rs ≡ true
unfolding all
differ_from id s [] h = refl
differ_from id s (u ∷ rs) h =
    ground (arith, differ_from id s rs, same_condition_comm s.condition u.condition)

found_first :
    (id : ℕ) (s : Rule) (rs : List Rule) (r : Rule)
    → get_rule id (s ∷ rs) ≡ some r
    → (s.id == id) ≡ true
    → s ≡ r
unfolding get_rule find
found_first id s rs r k e = ground arith

-- A row that is found differs in its condition from the rows with other ids.
pub others_differ-get_rule :
    (id : ℕ) (rs : List Rule) (r : Rule)
    → no_duplicates rs ≡ true
    → get_rule id rs ≡ some r
    → others_differ id r.condition rs ≡ true
unfolding all get_rule no_duplicates find
others_differ-get_rule id [] r h k = refl
others_differ-get_rule id (s ∷ rs) r h k = elim (Bool-cases (s.id == id)) [
  | inl e ↦
      subst (λ u. others_differ id u.condition (s ∷ rs) ≡ true) (found_first id s rs r k e)
        (ground (arith, differ_from id s rs))
  | inr e ↦ ground (
    arith,
    others_differ-get_rule id rs r,
    all-find (λ u. not (conflict s u)) (λ u. u.id == id) rs r,
  )
]

pub get_rule-id : (id : ℕ) (rs : List Rule) (r : Rule) → get_rule id rs ≡ some r → r.id ≡ id
unfolding get_rule find
get_rule-id id [] r h = ground arith
get_rule-id id (s ∷ rs) r h = ground (arith, get_rule-id id rs r, ==_iff s.id id)

pub no_duplicates-select :
    (q : Rule → Bool) (rs : List Rule)
    → no_duplicates rs ≡ true
    → no_duplicates (select q rs) ≡ true
unfolding no_duplicates select all
no_duplicates-select q [] h = refl
no_duplicates-select q (r ∷ rs) h =
    ground (arith, no_duplicates-select q rs, all-select-of (λ s. not (conflict r s)) q rs)
