-- ===== src/Exclusion/Purge/Deletions.antt =====
-- The table of terminals after a purge: deleting and flagging by id is deleting and flagging by
-- what the rule says of a terminal.
use terminal_access_manager.Prelude.{
  ℕ, ◌≡◌, refl, sym, subst, Bool, true, false, not, ◌&&◌, ◌||◌, List, [], ◌∷◌, ◌++◌, map, ◌==◌,
  ==_iff, if◌then◌else◌, select, any, any-append, all, arith,
}
use terminal_access_manager.Models.{Terminal}
use terminal_access_manager.Exclusion.Purge.{ids_if}
use terminal_access_manager.Exclusion.Purge.Tables.{mem_id, flagged_if}
use terminal_access_manager.Exclusion.Purge.Counts.{ids_where-cons, ids_where}

abbrev all_ids : List Terminal → List ℕ
all_ids ts = map (λ t. t.id) ts

-- No id stands in the table twice: it is the primary key.
unfoldable pub distinct_ids : List Terminal → Bool
unfolding mem_id
distinct_ids [] = true
distinct_ids (t ∷ ts) = not (mem_id t.id (all_ids ts)) && distinct_ids ts

abbrev pub same : Bool → Bool → Bool
same a b = if a then b else not b

mem_id-cons : (k i : ℕ) (ids : List ℕ) → mem_id k (i ∷ ids) ≡ (i == k || mem_id k ids)
unfolding mem_id any
mem_id-cons k i ids = refl

pub mem_id-nil : (k : ℕ) → mem_id k [] ≡ false
unfolding mem_id any
mem_id-nil k = refl

pub mem_id-append : (k : ℕ) (xs ys : List ℕ) → mem_id k (xs ++ ys) ≡ (mem_id k xs || mem_id k ys)
unfolding mem_id
mem_id-append k xs ys = any-append (λ i. i == k) xs ys

-- What a filter takes out is not found.
pub mem_id-select-not :
    (k : ℕ) (us xs : List ℕ)
    → mem_id k (select (λ i. not (mem_id i us)) xs) ≡ (mem_id k xs && not (mem_id k us))
unfolding select
mem_id-select-not k us [] = ground (arith, mem_id-nil k)
mem_id-select-not k us (x ∷ xs) =
    let rest = select (λ i. not (mem_id i us)) xs in
    ground (arith, mem_id-select-not k us xs, mem_id-cons k x xs, mem_id-cons k x rest, ==_iff x k)

pub select-select :
    (p q : Terminal → Bool) (ts : List Terminal)
    → select p (select q ts) ≡ select (λ t. q t && p t) ts
unfolding select
select-select p q [] = refl
select-select p q (t ∷ ts) = ground (arith, select-select p q ts)

mem_id-ids_where :
    (p : Terminal → Bool) (k : ℕ) (ts : List Terminal)
    → mem_id k (all_ids ts) ≡ false
    → mem_id k (ids_where p ts) ≡ false
unfolding ids_where select
mem_id-ids_where p k [] h = h
mem_id-ids_where p k (t ∷ ts) h = ground (
  arith,
  mem_id-ids_where p k ts,
  mem_id-cons k t.id (all_ids ts),
  mem_id-cons k t.id (all_ids (select p ts)),
)

-- A further id that no terminal has changes no answer.
agree-ids_if :
    (p : Terminal → Bool) (t : Terminal) (b : Bool) (xs : List ℕ) (us : List Terminal)
    → mem_id t.id (all_ids us) ≡ false
    → all (λ u. same (mem_id u.id xs) (p u)) us ≡ true
    → all (λ u. same (mem_id u.id (ids_if b t ++ xs)) (p u)) us ≡ true
unfolding all
agree-ids_if p t b xs [] h k = refl
agree-ids_if p t b xs (u ∷ us) h k = ground (
  arith,
  agree-ids_if p t b xs us,
  mem_id-cons t.id u.id (all_ids us),
  mem_id-cons u.id t.id xs,
  ==_iff t.id u.id,
  ==_iff u.id t.id,
)

mem_id-head :
    (p : Terminal → Bool) (t : Terminal) (ts : List Terminal)
    → mem_id t.id (all_ids ts) ≡ false
    → same (mem_id t.id (ids_if (p t) t ++ ids_where p ts)) (p t) ≡ true
mem_id-head p t ts h =
    ground
      (arith, mem_id-ids_where p t.id ts, mem_id-cons t.id t.id (ids_where p ts), ==_iff t.id t.id)

-- With distinct ids, an id is among those of the terminals that pass a test exactly if its
-- terminal passes it.
pub ids_agree :
    (p : Terminal → Bool) (ts : List Terminal)
    → distinct_ids ts ≡ true
    → all (λ t. same (mem_id t.id (ids_where p ts)) (p t)) ts ≡ true
unfolding all distinct_ids
ids_agree p [] d = refl
ids_agree p (t ∷ ts) d =
    subst (λ xs. all (λ u. same (mem_id u.id xs) (p u)) (t ∷ ts) ≡ true)
      (sym (ids_where-cons p t ts))
      (ground
        (arith, mem_id-head p t ts, agree-ids_if p t (p t) (ids_where p ts) ts, ids_agree p ts))

-- The table after the two statements depends on the tests for its own terminals only.
pub settled_agree :
    (d e r s : Terminal → Bool) (ts : List Terminal)
    → all (λ t. same (d t) (e t)) ts ≡ true
    → all (λ t. e t || same (r t) (s t)) ts ≡ true
    → map (λ t. flagged_if (r t) t) (select (λ t. not (d t)) ts)
      ≡ map (λ t. flagged_if (s t) t) (select (λ t. not (e t)) ts)
unfolding all select
settled_agree d e r s [] h k = refl
settled_agree d e r s (t ∷ ts) h k = ground (arith, settled_agree d e r s ts)
