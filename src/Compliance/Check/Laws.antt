-- ===== src/Compliance/Check/Laws.antt =====
-- The batch judgement: agreement with the single one, and the partition of its entries.
use mathlib.Core.List.{append_assoc, append-nil}
use terminal_access_manager.Prelude.{
  ◌+◌, ◌≡◌, refl, sym, ◌∙◌, ap, Bool, false, Option, none, some, List, [], ◌∷◌, ◌++◌, map,
  if◌then◌else◌, Text, length, select, is_some, arith,
}
use terminal_access_manager.Models.{
  Compliance, compliant, bypass, non_compliant, unknown, compliance_eq,
}
use terminal_access_manager.Mac.{norm_mac_key}
use terminal_access_manager.Compliance.Whitelist.{match_whitelist}
use terminal_access_manager.Compliance.Device.{effective_device_id, contains}
use terminal_access_manager.Compliance.Check.{
  Loaded, Grouping, Entry, Judged, Lists, check_compliance, signals, judge, file_under, no_lists,
  batch_loop, batch_check_compliance, classify,
}

abbrev entry_of : Text → Text → Option Text → Entry
entry_of ip mac id = record { ip_address = ip; mac_address = mac; device_id = id }

-- With device grouping off, the batch gives an entry the status and the kind of whitelist match
-- that the single check gives its address and MAC.
pub judge-check_compliance :
    (d : Loaded) (ip mac : Text) (id : Option Text)
    → ((judge d none (entry_of ip mac id)).compliance_status
        ≡ (check_compliance d ip mac).compliance_status)
      × ((judge d none (entry_of ip mac id)).wl_match_type
          ≡ (check_compliance d ip mac).wl_match_type)
unfolding judge check_compliance signals
judge-check_compliance d ip mac id = ground arith

judge_grouped :
    (d : Loaded) (g : Grouping) (e : Entry) (id : Text)
    → effective_device_id e.device_id (norm_mac_key (some e.mac_address)) g.mac_to_device ≡ some id
    → (judge d (some g) e).compliance_status
      ≡ classify
          (is_some (match_whitelist d.whitelist e.ip_address e.mac_address))
          (contains g.device_ids id)
unfolding judge
judge_grouped d g e id h = rw h refl

abbrev pub is_whitelisted : Loaded → Entry → Bool
is_whitelisted d e = is_some (match_whitelist d.whitelist e.ip_address e.mac_address)

-- With device grouping on, two entries that have the same effective device, and that are both
-- matched by the whitelist or both not, get the same status, whatever the baseline says of their
-- addresses and MACs.
pub judge-same_device :
    (d : Loaded) (g : Grouping) (e f : Entry) (id : Text)
    → effective_device_id e.device_id (norm_mac_key (some e.mac_address)) g.mac_to_device ≡ some id
    → effective_device_id f.device_id (norm_mac_key (some f.mac_address)) g.mac_to_device ≡ some id
    → is_whitelisted d e ≡ is_whitelisted d f
    → (judge d (some g) e).compliance_status ≡ (judge d (some g) f).compliance_status
judge-same_device d g e f id h k w =
    judge_grouped d g e id h
    ∙ (ap (λ b. classify b (contains g.device_ids id)) w ∙ sym (judge_grouped d g f id k))

abbrev pub with_status : Compliance → Judged → Bool
with_status s j = compliance_eq j.compliance_status s

abbrev only_if : Bool → Judged → List Judged
only_if b j = if b then j ∷ [] else []

file_under_lem :
    (s : Compliance) (j : Judged) (l : Lists)
    → compliance_eq s unknown ≡ false
    → ((file_under s j l).bypass_list ≡ l.bypass_list ++ only_if (compliance_eq s bypass) j)
      × ((file_under s j l).compliant_list
          ≡ l.compliant_list ++ only_if (compliance_eq s compliant) j)
      × ((file_under s j l).non_compliant_list
          ≡ l.non_compliant_list ++ only_if (compliance_eq s non_compliant) j)
file_under_lem s j l h =
    ground (
      arith,
      append-nil l.bypass_list,
      append-nil l.compliant_list,
      append-nil l.non_compliant_list,
    )

judge-ne-unknown :
    (d : Loaded) (g : Option Grouping) (e : Entry)
    → compliance_eq (judge d g e).compliance_status unknown ≡ false
unfolding judge
judge-ne-unknown d g e = ground arith

only_if-select :
    (p : Judged → Bool) (j : Judged) (js : List Judged)
    → select p (j ∷ js) ≡ only_if (p j) j ++ select p js
unfolding select
only_if-select p j js = ground arith

-- A list that was extended by one entry and then by the rest is extended by the entry and the rest.
extend :
    (p : Judged → Bool) (j : Judged) (js acc next out : List Judged)
    → out ≡ next ++ select p js
    → next ≡ acc ++ only_if (p j) j
    → out ≡ acc ++ select p (j ∷ js)
extend p j js acc next out h k =
    h
    ∙ ap (λ x. x ++ select p js) k
    ∙ append_assoc acc (only_if (p j) j) (select p js)
    ∙ ap (λ x. acc ++ x) (sym (only_if-select p j js))

module _ (d : Loaded) (g : Option Grouping) where
  batch_loop_lem :
      (es : List Entry) (l : Lists)
      → ((batch_loop d g es l).bypass_list
          ≡ l.bypass_list ++ select (with_status bypass) (map (judge d g) es))
        × ((batch_loop d g es l).compliant_list
            ≡ l.compliant_list ++ select (with_status compliant) (map (judge d g) es))
        × ((batch_loop d g es l).non_compliant_list
            ≡ l.non_compliant_list ++ select (with_status non_compliant) (map (judge d g) es))
  unfolding batch_loop
  batch_loop_lem [] l =
      unfold select in
      (
        sym (append-nil l.bypass_list),
        sym (append-nil l.compliant_list),
        sym (append-nil l.non_compliant_list),
      )
  batch_loop_lem (e ∷ es) l =
      let j = judge d g e in
      let filed = file_under j.compliance_status j l in
      let (b, c, n) = batch_loop_lem es filed in
      let (fb, fc, fn) = file_under_lem j.compliance_status j l (judge-ne-unknown d g e) in
      (
        extend (with_status bypass) j _ _ filed.bypass_list _ b fb,
        extend (with_status compliant) j _ _ filed.compliant_list _ c fc,
        extend (with_status non_compliant) j _ _ filed.non_compliant_list _ n fn,
      )

  -- The three lists of a batch are the judged entries of each status in the order of the entries.
  pub batch_lists :
      (es : List Entry)
      → let r = batch_check_compliance d g es in
        (r.bypass_list ≡ select (with_status bypass) (map (judge d g) es))
        × (r.compliant_list ≡ select (with_status compliant) (map (judge d g) es))
        × (r.non_compliant_list ≡ select (with_status non_compliant) (map (judge d g) es))
  unfolding batch_check_compliance
  batch_lists es = batch_loop_lem es no_lists

  three_ways :
      (es : List Entry)
      → length (select (with_status bypass) (map (judge d g) es))
          + length (select (with_status compliant) (map (judge d g) es))
          + length (select (with_status non_compliant) (map (judge d g) es))
        ≡ length es
  unfolding select
  three_ways [] = refl
  three_ways (e ∷ es) = ground (arith, three_ways es, judge-ne-unknown d g e)

  -- The three counts of a batch add up to the number of entries checked, which is the number of
  -- entries given.
  pub batch_counts :
      (es : List Entry)
      → let r = batch_check_compliance d g es in
        (r.bypass_count + r.compliant_count + r.non_compliant_count ≡ r.total_checked)
        × (r.total_checked ≡ length es)
  unfolding batch_check_compliance
  batch_counts es =
      let (b, c, n) = batch_loop_lem es no_lists in
      (ground (arith, three_ways es, ap length b, ap length c, ap length n), refl)
