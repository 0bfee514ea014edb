-- ===== src/Compliance/Counts/Laws.antt =====
-- The sum over the rows of a device, and what the changes of rows do to it.
use terminal_access_manager.Prelude.{
  all, Bool, true, ◌≡◌, refl, Option, none, some, List, [], ◌∷◌, Text, arith,
}
use terminal_access_manager.Models.{Terminal}
use terminal_access_manager.Compliance.Counts.{
  of_mac, mac_non_compliant_total, reset_mac_non_compliant_counts, put,
}

-- Two rows that count alike
pub record SameCount (t u : Terminal) : Type 0 where
  pub id : t.id ≡ u.id
  pub key : t.mac_address_normalized ≡ u.mac_address_normalized
  pub count : t.non_compliant_confirm_count ≡ u.non_compliant_confirm_count

of_mac-same : (key : Option Text) (t u : Terminal) → SameCount t u → of_mac key t ≡ of_mac key u
of_mac-same none t u s = refl
of_mac-same (some k) t u s = rw s.key refl

pub total-put-same :
    (key : Option Text) (t u : Terminal) (ts : List Terminal)
    → SameCount t u
    → mac_non_compliant_total key (put t ts) ≡ mac_non_compliant_total key (put u ts)
unfolding mac_non_compliant_total put
total-put-same key t u [] s = refl
total-put-same key t u (v ∷ ts) s =
    rw s.id (ground (arith, total-put-same key t u ts s, of_mac-same key t u s, s.count))

pub total-reset :
    (key : Option Text) (ts : List Terminal)
    → mac_non_compliant_total key (reset_mac_non_compliant_counts key ts) ≡ 0
unfolding mac_non_compliant_total reset_mac_non_compliant_counts
total-reset key [] = refl
total-reset key (t ∷ ts) = ground (arith, total-reset key ts)

-- Putting a row without a count into rows whose sum is zero
pub total-put-zero :
    (key : Option Text) (u : Terminal) (ts : List Terminal)
    → u.non_compliant_confirm_count ≡ 0
    → mac_non_compliant_total key ts ≡ 0
    → mac_non_compliant_total key (put u ts) ≡ 0
unfolding mac_non_compliant_total put
total-put-zero key u [] z h = refl
total-put-zero key u (t ∷ ts) z h = ground (arith, total-put-zero key u ts)

-- A row put into rows
pub all-put :
    (p : Terminal → Bool) (u : Terminal) (ts : List Terminal)
    → p u ≡ true
    → all p ts ≡ true
    → all p (put u ts) ≡ true
unfolding all put
all-put p u [] h k = refl
all-put p u (t ∷ ts) h k = ground (arith, all-put p u ts)
