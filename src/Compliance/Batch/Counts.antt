-- ===== src/Compliance/Batch/Counts.antt =====
-- The counts and the rows of an automatic block of a source.
use terminal_access_manager.Prelude.{
  ℕ, ◌+◌, ◌≡◌, inl, inr, Bool, Bool-cases, Option, some, List, [], ◌∷◌, is_empty, length, Text,
  arith,
}
use terminal_access_manager.Models.{Terminal, Blacklist}
use terminal_access_manager.Exclusion.{Condition}
use terminal_access_manager.Compliance.Device.{Registry}
use terminal_access_manager.Compliance.Firewall.{bound_firewall_tags}
use terminal_access_manager.Compliance.Entries.Unique.{IsUnique}
use terminal_access_manager.Compliance.Block.Laws.{attach_all-IsUnique}
use terminal_access_manager.Compliance.Work.{Env}
use terminal_access_manager.Compliance.Batch.{
  Target, Batch, attempts, block_for, block_target, block_targets, heal_all, to_block, untouched,
  screened, block_screened, auto_block_non_compliant,
}

abbrev counted : Batch → ℕ
counted b = b.blocked_count + b.skipped_count

module _ (env : Env) (arp_source : Text) (dry_run : Bool) (tags : List Text) where
  counted-block_target :
      (x : Target) (b : Batch)
      → counted (block_target env arp_source dry_run tags x b) ≡ counted b + 1
  unfolding block_target
  counted-block_target x b = ground arith

  counted-block_targets :
      (xs : List Target) (b : Batch)
      → counted (block_targets env arp_source dry_run tags xs b) ≡ counted b + length xs
  unfolding block_targets
  counted-block_targets [] b = omega arith
  counted-block_targets (x ∷ xs) b = omega (
    arith,
    counted-block_targets xs (block_target env arp_source dry_run tags x b),
    counted-block_target x b,
  )

  block_target-IsUnique :
      (x : Target) (b : Batch)
      → IsUnique b.rows
      → IsUnique (block_target env arp_source dry_run tags x b).rows
  unfolding block_target
  block_target-IsUnique x b v = elim (Bool-cases dry_run) [
    | inl e ↦ rw e v
    | inr e ↦ rw e (elim (Bool-cases (is_empty (attempts env x.entry.ip_address tags).successful)) [
      | inl f ↦ rw f v
      | inr f ↦ rw f (
          attach_all-IsUnique env.now x.entry.ip_address (block_for env arp_source x)
            (attempts env x.entry.ip_address tags).successful b.rows v)
    ])
  ]

  block_targets-IsUnique :
      (xs : List Target) (b : Batch)
      → IsUnique b.rows
      → IsUnique (block_targets env arp_source dry_run tags xs b).rows
  unfolding block_targets
  block_targets-IsUnique [] b v = v
  block_targets-IsUnique (x ∷ xs) b v =
      block_targets-IsUnique xs (block_target env arp_source dry_run tags x b)
        (block_target-IsUnique x b v)

module _ (env : Env) (rules : List Condition) (device_block : Option Registry) (arp_source : Text)
    (dry_run : Bool) (ts : List Terminal) (rows : List Blacklist) where
  -- The terminals blocked and skipped add up to the total that is reported.
  pub auto_block_counts :
      let r = auto_block_non_compliant env rules device_block arp_source dry_run ts rows in
      r.batch.blocked_count + r.batch.skipped_count ≡ r.total_non_compliant
  unfolding auto_block_non_compliant block_screened
  auto_block_counts =
      let xs = to_block env (screened rules arp_source device_block ts rows) in
      let tags = bound_firewall_tags env.bindings (some arp_source) in
      let start =
        untouched (heal_all env (screened rules arp_source device_block ts rows) ts) rows in
      ground (arith, counted-block_targets env arp_source dry_run tags xs start)

  -- Given rows with at most one active one for each address on each firewall, the call keeps them so.
  pub auto_block-IsUnique :
      IsUnique rows
      → IsUnique
          (auto_block_non_compliant env rules device_block arp_source dry_run ts rows).batch.rows
  unfolding auto_block_non_compliant block_screened
  auto_block-IsUnique v =
      let xs = screened rules arp_source device_block ts rows in
      let tags = bound_firewall_tags env.bindings (some arp_source) in
      elim (Bool-cases (is_empty (to_block env xs))) [
        | inl e ↦ rw e v
        | inr e ↦ rw e (elim (Bool-cases (is_empty tags)) [
          | inl f ↦ rw f v
          | inr f ↦ rw f (
              block_targets-IsUnique env arp_source dry_run tags (to_block env xs)
                (untouched (heal_all env xs ts) rows) v)
        ])
      ]
