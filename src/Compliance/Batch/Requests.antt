-- ===== src/Compliance/Batch/Requests.antt =====
-- Which addresses an automatic block of a source asks the firewalls to block.
use terminal_access_manager.Prelude.{
  ◌≡◌, refl, inl, inr, Bool, true, Bool-cases, not, ◌&&◌, Option, some, none, List, [], ◌∷◌, ◌++◌,
  map, any, all, all-append, all-select, all-select-of, all_and, select, is_empty, Text, text_eq,
  text_eq_refl, arith,
}
use terminal_access_manager.Models.{Terminal, Blacklist}
use terminal_access_manager.Exclusion.{Condition}
use terminal_access_manager.Compliance.Device.{Registry}
use terminal_access_manager.Compliance.Firewall.{bound_firewall_tags}
use terminal_access_manager.Compliance.Work.{Env}
use terminal_access_manager.Compliance.Batch.{
  Target, Batch, attempts, is_open, is_candidate, expand, targets, is_blacklisted, is_excluded,
  is_whitelisted, block_target, block_targets, heal_all, to_block, untouched, screened,
  block_screened, auto_block_non_compliant,
}

-- A terminal of the source that may be blocked
unfoldable pub may_block : Env → List Condition → Text → List Blacklist → Terminal → Bool
may_block env rules arp_source rows t =
    is_open arp_source t
    && (not (is_blacklisted arp_source rows t)
        && (not (is_excluded rules t) && not (is_whitelisted env t)))

-- A terminal of a table: what holds of it holds of some row.
abbrev IsFrom : List Terminal → Terminal → Type 0
IsFrom ts e = (q : Terminal → Bool) → q e ≡ true → any q ts ≡ true

abbrev AllFrom : List Terminal → List Target → Type 0
AllFrom ts [] = Unit
AllFrom ts (x ∷ xs) = IsFrom ts x.entry × AllFrom ts xs

AllFrom-select :
    (ts : List Terminal) (p : Target → Bool) (xs : List Target)
    → AllFrom ts xs
    → AllFrom ts (select p xs)
unfolding select
AllFrom-select ts p [] h = h
AllFrom-select ts p (x ∷ xs) h = elim (Bool-cases (p x)) [
  | inl e ↦ rw e (h.0, AllFrom-select ts p xs h.1)
  | inr e ↦ rw e (AllFrom-select ts p xs h.1)
]

AllFrom-append :
    (ts : List Terminal) (xs ys : List Target)
    → AllFrom ts xs
    → AllFrom ts ys
    → AllFrom ts (xs ++ ys)
AllFrom-append ts [] ys h k = k
AllFrom-append ts (x ∷ xs) ys h k = (h.0, AllFrom-append ts xs ys h.1 k)

-- The rows of a query, made into targets
AllFrom-rows :
    (ts us : List Terminal) (f : Terminal → Option Terminal) (p : Terminal → Bool)
    → ((q : Terminal → Bool) → any q us ≡ true → any q ts ≡ true)
    → AllFrom ts (map (λ e. record { entry = e; trigger = f e }) (select p us))
unfolding select any
AllFrom-rows ts [] f p h = tt
AllFrom-rows ts (u ∷ us) f p h =
    let rest = AllFrom-rows ts us f p (λ q k. h q (ground arith)) in
    elim (Bool-cases (p u)) [ inl e ↦ rw e ((λ q k. h q (ground arith)), rest) | inr e ↦ rw e rest ]

all-rows :
    (f : Terminal → Option Terminal) (p r : Terminal → Bool) (us : List Terminal)
    → ((t : Terminal) → p t ≡ true → r t ≡ true)
    → all (λ (x : Target). r x.entry) (map (λ e. record { entry = e; trigger = f e }) (select p us))
      ≡ true
unfolding select all
all-rows f p r [] h = refl
all-rows f p r (u ∷ us) h = ground (arith, h u, all-rows f p r us h)

AllFrom-targets :
    (arp_source : Text) (device_block : Option Registry) (ts : List Terminal)
    → AllFrom ts (targets arp_source device_block ts)
unfolding targets expand
AllFrom-targets arp_source none ts =
    AllFrom-rows ts ts (λ e. none) (is_candidate arp_source) (λ q h. h)
AllFrom-targets arp_source (some registry) ts =
    AllFrom-append ts _ _ (AllFrom-rows ts ts (λ e. none) (is_candidate arp_source) (λ q h. h))
      (AllFrom-rows ts ts _ _ (λ q h. h))

all_open :
    (arp_source : Text) (device_block : Option Registry) (ts : List Terminal)
    → all (λ x. is_open arp_source x.entry) (targets arp_source device_block ts) ≡ true
unfolding targets expand
all_open arp_source none ts =
    all-rows (λ e. none) (is_candidate arp_source) (is_open arp_source) ts (λ t h. ground arith)
all_open arp_source (some registry) ts =
    all-append (λ x. is_open arp_source x.entry) _ _
      (all-rows (λ e. none) (is_candidate arp_source) (is_open arp_source) ts (λ t h. ground arith))
      (all-rows _ _ (is_open arp_source) ts (λ t h. ground arith))

-- Three filters, one after the other
filters_pass :
    (o f g h : Target → Bool) (xs : List Target)
    → all o xs ≡ true
    → all (λ x. o x && (f x && (g x && h x))) (select h (select g (select f xs))) ≡ true
filters_pass o f g h xs k =
    let a = select f xs in
    let b = select g a in
    let ys = select h b in
    all_and o (λ x. f x && (g x && h x)) ys
      (all-select-of o h b (all-select-of o g a (all-select-of o f xs k)))
      (all_and f (λ x. g x && h x) ys (all-select-of f h b (all-select-of f g a (all-select f xs)))
        (all_and g h ys (all-select-of g h b (all-select g a)) (all-select h b)))

module _ (env : Env) (rules : List Condition) (device_block : Option Registry) (arp_source : Text)
    (ts : List Terminal) (rows : List Blacklist) where
  abbrev chosen : List Target
  chosen = to_block env (screened rules arp_source device_block ts rows)

  chosen_from : AllFrom ts chosen
  unfolding to_block screened
  chosen_from =
      AllFrom-select ts _ _
        (AllFrom-select ts _ _ (AllFrom-select ts _ _ (AllFrom-targets arp_source device_block ts)))

  -- What the four filters leave
  chosen_pass : all (λ x. may_block env rules arp_source rows x.entry) chosen ≡ true
  unfolding to_block screened may_block
  chosen_pass =
      filters_pass (λ x. is_open arp_source x.entry)
        (λ x. not (is_blacklisted arp_source rows x.entry)) (λ x. not (is_excluded rules x.entry))
        (λ x. not (is_whitelisted env x.entry)) (targets arp_source device_block ts)
        (all_open arp_source device_block ts)

  -- A request for the address of a terminal that may be blocked
  abbrev pub is_justified : Text × Text → Bool
  is_justified r = any (λ t. may_block env rules arp_source rows t && text_eq t.ip_address r.1) ts

  all_justified :
      (x : Target) (tags : List Text)
      → IsFrom ts x.entry
      → may_block env rules arp_source rows x.entry ≡ true
      → all is_justified (map (λ tag. (tag, x.entry.ip_address)) tags) ≡ true
  unfolding all
  all_justified x [] h k = refl
  all_justified x (tag ∷ tags) h k =
      let first : is_justified (tag, x.entry.ip_address) ≡ true =
        h (λ t. may_block env rules arp_source rows t && text_eq t.ip_address x.entry.ip_address)
          (rw (k, text_eq_refl x.entry.ip_address) refl) in
      ground (arith, first, all_justified x tags h k)

  module _ (dry_run : Bool) (tags : List Text) where
    justified-block_target :
        (x : Target) (b : Batch)
        → IsFrom ts x.entry
        → may_block env rules arp_source rows x.entry ≡ true
        → all is_justified b.requests ≡ true
        → all is_justified (block_target env arp_source dry_run tags x b).requests ≡ true
    unfolding block_target
    justified-block_target x b h k a =
        let sent =
          map (λ tag. (tag, x.entry.ip_address)) (attempts env x.entry.ip_address tags).requested in
        let asked =
          all-append is_justified b.requests sent a
            (all_justified x (attempts env x.entry.ip_address tags).requested h k) in
        elim (Bool-cases dry_run) [
          | inl e ↦ rw e a
          | inr e ↦
              rw e (elim (Bool-cases (is_empty (attempts env x.entry.ip_address tags).successful)) [
                | inl f ↦ rw f asked
                | inr f ↦ rw f asked
              ])
        ]

    justified-block_targets :
        (xs : List Target) (b : Batch)
        → AllFrom ts xs
        → all (λ x. may_block env rules arp_source rows x.entry) xs ≡ true
        → all is_justified b.requests ≡ true
        → all is_justified (block_targets env arp_source dry_run tags xs b).requests ≡ true
    unfolding block_targets all
    justified-block_targets [] b h k a = a
    justified-block_targets (x ∷ xs) b h k a =
        justified-block_targets xs (block_target env arp_source dry_run tags x b) h.1 (ground arith)
          (justified-block_target x b h.0 (ground arith) a)

  -- Every address that an automatic block of a source asks a firewall to block is that of a
  -- terminal of the source that is not blocked, not offline, not blacklisted for the source with
  -- its MAC, covered by no exclusion rule and matched by no whitelist entry.
  pub auto_block_justified :
      (dry_run : Bool)
      → all is_justified
          (auto_block_non_compliant env rules device_block arp_source dry_run ts
            rows).batch.requests
        ≡ true
  unfolding auto_block_non_compliant block_screened all
  auto_block_justified dry_run =
      let xs = screened rules arp_source device_block ts rows in
      let tags = bound_firewall_tags env.bindings (some arp_source) in
      elim (Bool-cases (is_empty (to_block env xs))) [
        | inl e ↦ rw e refl
        | inr e ↦ rw e (elim (Bool-cases (is_empty tags)) [
          | inl f ↦ rw f refl
          | inr f ↦ rw f (
              justified-block_targets dry_run tags chosen (untouched (heal_all env xs ts) rows)
                chosen_from chosen_pass refl)
        ])
      ]
