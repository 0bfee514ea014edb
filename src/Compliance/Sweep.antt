-- ===== src/Compliance/Sweep.antt =====
-- `auto_unblock_compliant` of compliance_service.py: the blacklist rows that are not unblocked are
-- taken by (MAC, IP), and released when the whitelist or the baseline accepts the pair and its
-- firewalls answer. The queries ask for columns that the loop never writes, so they are made on the
-- tables as they were. The events, the audit log and the list of details are left out.
pub mod Closed
pub mod Address
use terminal_access_manager.Prelude.{
  ℕ, ◌+◌, ◌-◌, Bool, true, false, not, ◌&&◌, ◌||◌, Option, none, some, List, [], ◌∷◌, ◌++◌, map,
  any, all, select, if◌then◌else◌, ◌==◌, is_empty, is_some, or_else, length, Text, text_eq, codes,
}
use terminal_access_manager.Models.{Terminal, Blacklist, unblocked, bypass, compliant}
use terminal_access_manager.Mac.{norm_mac_key}
use terminal_access_manager.Comments.{append_comment, join_with, sort}
use terminal_access_manager.Exclusion.{Condition, first_match}
use terminal_access_manager.Compliance.Whitelist.{Match, match_whitelist}
use terminal_access_manager.Compliance.Scope.{
  in_arp_scope, in_or_scope, extract_ipguard_mac_prefixes,
}
use terminal_access_manager.Compliance.Check.{type_of, signals}
use terminal_access_manager.Compliance.Device.{non_empty}
use terminal_access_manager.Compliance.Firewall.{usable, unblock_on_firewall, bound_firewall_tags}
use terminal_access_manager.Compliance.Entries.{tags_of}
use terminal_access_manager.Compliance.Reasons.{build_unblock_reason}
use terminal_access_manager.Compliance.Unblock.{dedupe, close_row}
use terminal_access_manager.Compliance.Work.{Env}

-- A group: the normalised MAC, empty when there is none, and the address
abbrev pub Pair : Type 0
Pair = Text × Text

-- The key of a row, `(mac_norm_key, entry.ip_address or "")`
unfoldable pub pair_of : Blacklist → Pair
unfolding norm_mac_key
pair_of e = (or_else (norm_mac_key e.mac_address) [], or_else e.ip_address [])

abbrev pub pair_eq : Pair → Pair → Bool
pair_eq p q = text_eq p.0 q.0 && text_eq p.1 q.1

-- A selected row of a group
unfoldable pub in_group : Pair → Blacklist → Bool
unfolding pair_of
in_group k e = not e.auto_unblocked && pair_eq (pair_of e) k

-- The keys of `entry_groups`, in the order of their first rows, given those seen before
unfoldable pub groups : List Pair → List Blacklist → List Pair
unfolding pair_of any
groups seen [] = []
groups seen (e ∷ es) =
    let rest = groups (pair_of e ∷ seen) es in
    let skipped = groups seen es in
    if e.auto_unblocked || any (pair_eq (pair_of e)) seen then skipped else pair_of e ∷ rest

-- `scalar_one_or_none`: `none` when it raises
abbrev pub one_or_none {ℓ} : {A : Type ℓ} → List A → Option (Option A)
one_or_none [] = some none
one_or_none (a ∷ []) = some (some a)
one_or_none (a ∷ b ∷ bs) = none

-- The query for the terminal of a group
unfoldable pub terminals_of : Pair → List Terminal → List Terminal
unfolding select
terminals_of k ts =
    if is_empty k.0
    then select (λ t. text_eq t.ip_address k.1) ts
    else select (λ t. text_eq t.mac_address_normalized k.0 && text_eq t.ip_address k.1) ts

-- `(current_ip, current_mac)`
abbrev pub current : Option Terminal → List Blacklist → Text × Text
current (some t) es = (t.ip_address, t.mac_address)
current none [] = ([], [])
current none (e ∷ es) = (or_else e.ip_address [], or_else e.mac_address [])

-- What the loop does with a group: the lookup raises, the group is skipped, or it is released with
-- the terminal found and its current address and MAC
pub data Decision : Type 0 where
  ambiguous kept : Decision
  released : (terminal : Option Terminal) (ip mac : Text) → Decision

-- `wl_match or ig_match`
unfoldable pub is_accepted : Env → Text → Text → Bool
unfolding match_whitelist signals
is_accepted env ip mac =
    is_some (match_whitelist env.loaded.whitelist ip mac) || (signals env.loaded ip mac).ig_match

abbrev pub judge_group : Env → List Blacklist → Option (Option Terminal) → Decision
judge_group env es none = ambiguous
judge_group env es (some found) =
    let (ip, mac) = current found es in
    if is_accepted env ip mac then released found ip mac else kept

unfoldable pub decide : Env → List Condition → List Blacklist → List Terminal → Pair → Decision
unfolding first_match select in_group terminals_of is_accepted
decide env rules rows ts k =
    if is_some (first_match rules k.1 k.0)
    then kept
    else judge_group env (select (in_group k) rows) (one_or_none (terminals_of k ts))

-- The firewalls that a row is on: its own, or else those its source is bound to
unfoldable pub firewalls_of : Env → Blacklist → List Text
unfolding bound_firewall_tags
firewalls_of env e = elim (non_empty e.firewall_tag) [
  | some tag ↦ tag ∷ []
  | none ↦ elim (non_empty e.source_tag) [
    | some s ↦ bound_firewall_tags env.bindings (some s)
    | none ↦ []
  ]
]

-- `bl_entry.ip_address or current_ip`
abbrev pub blocked_ip : Text → Blacklist → Text
blocked_ip ip e = or_else (non_empty e.ip_address) ip

-- A row of `successfully_unblocked_entries`
unfoldable pub is_released : Env → Text → Blacklist → Bool
unfolding firewalls_of unblock_on_firewall all
is_released env ip e =
    all (unblock_on_firewall env.sources env.appliance (blocked_ip ip e)) (firewalls_of env e)

-- The requests for a row, by firewall and address
unfoldable pub requests_of : Env → Text → Blacklist → List (Text × Text)
unfolding firewalls_of usable select
requests_of env ip e =
    map (λ tag. (tag, blocked_ip ip e)) (select (usable env.sources) (firewalls_of env e))

-- `unblock_reason`, and `partial_unblock_reason` when a firewall did not answer
unfoldable pub reason_for : Env → (all_success : Bool) → Text → Text → Text
unfolding build_unblock_reason in_arp_scope in_or_scope extract_ipguard_mac_prefixes match_whitelist
reason_for env all_success ip mac =
    let d = env.loaded in
    let reason =
      build_unblock_reason (is_some (match_whitelist d.whitelist ip mac))
        (in_arp_scope d.scopes ip mac) (in_or_scope d.scopes ip mac) d.baseline ip mac
        (extract_ipguard_mac_prefixes d.scopes) in
    if all_success then reason else reason ++ codes "（部分成功）"

-- What the loops over `successfully_unblocked_entries` do to a row
unfoldable pub settle_row : Env → List Blacklist → Decision → Pair → Blacklist → Blacklist
unfolding in_group is_released reason_for select all
settle_row env rows ambiguous k e = e
settle_row env rows kept k e = e
settle_row env rows (released t ip mac) k e =
    let all_success = all (is_released env ip) (select (in_group k) rows) in
    if in_group k e && is_released env ip e
    then close_row env.now (reason_for env all_success ip mac) e
    else e

abbrev or_na : List Text → Text
or_na [] = codes "N/A"
or_na (t ∷ ts) = join_with (codes ",") (sort (dedupe [] (t ∷ ts)))

-- The terminal of a group that every firewall released
abbrev pub released_terminal : Option Match → List Blacklist → Terminal → Terminal
released_terminal wl es t = record t {
  status = unblocked;
  firewall_tag = none;
  compliance_status = if is_some wl then bypass else compliant;
  compliant_confirm_count = 0;
  non_compliant_confirm_count = 0;
  wl_match_type = type_of wl;
  comments = append_comment t.comments (
      codes "Auto-unblocked by TAM from firewall ["
      ++ (or_na (select (λ tag. not (is_empty tag)) (tags_of es)) ++ codes "]"));
}

unfoldable pub settle_terminals :
    Option Match → List Blacklist → Option Terminal → List Terminal → List Terminal
unfolding append_comment dedupe sort join_with tags_of select
settle_terminals wl es none ts = ts
settle_terminals wl es (some t) ts =
    map (λ u. if u.id == t.id then released_terminal wl es u else u) ts

-- What the loop leaves
pub record Sweep : Type 0 where
  pub rows : List Blacklist
  pub terminals : List Terminal
  pub requests : List (Text × Text)
  pub unblocked_count : ℕ
  pub skipped_count : ℕ

-- The requests of one group, in order
unfoldable pub group_requests : Env → Text → List Blacklist → List (Text × Text)
unfolding requests_of
group_requests env ip [] = []
group_requests env ip (e ∷ es) = requests_of env ip e ++ group_requests env ip es

-- The turn of a released group; a partial failure leaves the terminal.
unfoldable pub release : Env → List Blacklist → Pair → Option Terminal → Text → Text → Sweep → Sweep
unfolding settle_row settle_terminals group_requests is_released match_whitelist select all
release env rows k t ip mac s =
    let es = select (in_group k) rows in
    let closed = record s {
      rows = map (settle_row env rows (released t ip mac) k) s.rows;
      requests = s.requests ++ group_requests env ip es;
    } in
    if all (is_released env ip) es
    then record closed {
      terminals = settle_terminals (match_whitelist env.loaded.whitelist ip mac) es t s.terminals;
      unblocked_count = s.unblocked_count + 1;
    }
    else record closed {
      skipped_count = s.skipped_count + (length es - length (select (is_released env ip) es));
    }

-- The job ends, or a lookup raises after these requests.
pub data Job : Type 0 where
  raised : (requests : List (Text × Text)) → Job
  finished : (sweep : Sweep) → Job

module _ (env : Env) (rules : List Condition) (rows : List Blacklist) (ts : List Terminal) where
  -- The loop over the groups
  unfoldable pub sweep_groups : List Pair → Sweep → Job
  unfolding decide release select in_group
  sweep_groups [] s = finished s
  sweep_groups (k ∷ ks) s = elim (decide env rules rows ts k) [
    | ambiguous ↦ raised s.requests
    | kept ↦
        sweep_groups ks
          (record s { skipped_count = s.skipped_count + length (select (in_group k) rows) })
    | released t ip mac ↦ sweep_groups ks (release env rows k t ip mac s)
  ]

  unfoldable pub auto_unblock_compliant : Job
  unfolding sweep_groups groups
  auto_unblock_compliant = sweep_groups (groups [] rows) (record {
    rows = rows;
    terminals = ts;
    requests = [];
    unblocked_count = 0;
    skipped_count = 0;
  })
