-- ===== src/Compliance/Entries/Unique.antt =====
-- At most one active entry for an address on a firewall.
use native.Mathlib.Nat.{le_trans}
use terminal_access_manager.Prelude.{
  ℕ, suc, ◌+◌, ◌≤◌, ◌≡◌, refl, Bool, true, false, ◌&&◌, List, [], ◌∷◌, ◌++◌, map, if◌then◌else◌,
  Text, text_eq, text_eq_iff, any, sym, ◌∙◌, ap, length, length-append, arith, Bool-cases, inl, inr,
}
use terminal_access_manager.Models.{Time, Blacklist, flushed}
use terminal_access_manager.Compliance.Entries.{
  is_holder, Block, new_row, update_holder, attach_active_blacklist,
}

-- The number of rows that pass a test
unfoldable pub count : (Blacklist → Bool) → List Blacklist → ℕ
count p [] = 0
count p (e ∷ es) = (if p e then 1 else 0) + count p es

-- What the unique index of the table says of the rows
pub record IsUnique (rows : List Blacklist) : Type 0 where
  pub at_most_one : (ip firewall_tag : Text) → count (is_holder ip firewall_tag) rows ≤ 1

count-append :
    (p : Blacklist → Bool) (es fs : List Blacklist) → count p (es ++ fs) ≡ count p es + count p fs
unfolding count
count-append p [] fs = omega arith
count-append p (e ∷ es) fs = omega (arith, count-append p es fs)

count-any-false : (p : Blacklist → Bool) (es : List Blacklist) → any p es ≡ false → count p es ≡ 0
unfolding count any
count-any-false p [] h = refl
count-any-false p (e ∷ es) h = ground (arith, count-any-false p es)

-- An update keeps the key of a row and whether it is active.
is_holder-update_holder :
    (i f ip fw : Text) (b : Block) (e : Blacklist)
    → is_holder i f (update_holder ip fw b e) ≡ is_holder i f e
unfolding is_holder update_holder
is_holder-update_holder i f ip fw b e = elim (Bool-cases (is_holder ip fw e)) [
  | inl t ↦ rw t refl
  | inr t ↦ rw t refl
]

-- A map that makes no row pass keeps the number of rows that pass from growing.
pub count-map :
    (p : Blacklist → Bool) (f : Blacklist → Blacklist) (es : List Blacklist)
    → ((e : Blacklist) → p (f e) ≡ true → p e ≡ true)
    → count p (map f es) ≤ count p es
unfolding count
count-map p f [] h = omega arith
count-map p f (e ∷ es) h = ground (arith, h e, count-map p f es h)

pub is_holder-flushed :
    (i f : Text) (e : Blacklist) → is_holder i f (flushed e) ≡ true → is_holder i f e ≡ true
unfolding is_holder flushed
is_holder-flushed i f e h = ground arith

is_holder-new_row :
    (now : Time) (i f ip fw : Text) (b : Block)
    → is_holder i f (new_row now ip fw b) ≡ (text_eq ip i && text_eq fw f)
unfolding is_holder new_row
is_holder-new_row now i f ip fw b = ground arith

attach_lem :
    (now : Time) (ip fw : Text) (b : Block) (rows : List Blacklist)
    → attach_active_blacklist now ip fw b rows ≡ (
        if any (is_holder ip fw) rows
        then map (λ e. flushed (update_holder ip fw b e)) rows
        else rows ++ new_row now ip fw b ∷ [])
unfolding attach_active_blacklist
attach_lem now ip fw b rows = refl

count_one : (p : Blacklist → Bool) (e : Blacklist) → count p (e ∷ []) ≡ (if p e then 1 else 0)
unfolding count
count_one p e = ground arith

-- Attaching a block keeps the rows unique: the table never has two active entries for one address
-- on one firewall.
pub attach-IsUnique :
    (now : Time) (ip fw : Text) (b : Block) (rows : List Blacklist)
    → IsUnique rows
    → IsUnique (attach_active_blacklist now ip fw b rows)
attach-IsUnique now ip fw b rows v = record {
  at_most_one = λ i f. rw attach_lem (elim (Bool-cases (any (is_holder ip fw) rows)) [
    | inl held ↦ rw held (
        le_trans
          (count-map (is_holder i f) (λ e. flushed (update_holder ip fw b e)) rows
            (λ e h.
              sym (is_holder-update_holder i f ip fw b e)
              ∙ is_holder-flushed i f (update_holder ip fw b e) h))
          (v.at_most_one i f))
    | inr free ↦ rw free (
        rw count-append (
          ground (
            arith,
            v.at_most_one i f,
            count_one (is_holder i f) (new_row now ip fw b),
            is_holder-new_row now i f ip fw b,
            text_eq_iff ip i,
            text_eq_iff fw f,
            count-any-false (is_holder ip fw) rows free,
          )))
  ]);
}

length-map-update_holder :
    (ip fw : Text) (b : Block) (es : List Blacklist)
    → length (map (λ e. flushed (update_holder ip fw b e)) es) ≡ length es
length-map-update_holder ip fw b [] = refl
length-map-update_holder ip fw b (e ∷ es) = ap suc (length-map-update_holder ip fw b es)

-- Attaching a block adds one row when no active row has the address on the firewall, and none
-- otherwise.
pub length-attach :
    (now : Time) (ip fw : Text) (b : Block) (rows : List Blacklist)
    → length (attach_active_blacklist now ip fw b rows)
      ≡ (if any (is_holder ip fw) rows then length rows else length rows + 1)
length-attach now ip fw b rows = ground (
  arith,
  attach_lem now ip fw b rows,
  length-map-update_holder ip fw b rows,
  length-append rows (new_row now ip fw b ∷ []),
)
