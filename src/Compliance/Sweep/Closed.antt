-- ===== src/Compliance/Sweep/Closed.antt =====
-- Which blacklist rows the automatic unblock closes.
use terminal_access_manager.Prelude.{
  ◌≡◌, refl, sym, ap, ap₂, ◌∙◌, subst, inl, inr, ◌+◌, Bool, true, false, Bool-cases, ◌&&◌, ◌||◌,
  Option, none, some, is_some, List, [], ◌∷◌, map, any, all, select, if◌then◌else◌, length, Text,
  text_eq_iff, text_eq_refl, all_mono, arith,
}
use terminal_access_manager.Models.{Terminal, Blacklist}
use terminal_access_manager.Exclusion.{Condition, first_match}
use terminal_access_manager.Compliance.Whitelist.{match_whitelist}
use terminal_access_manager.Compliance.Check.{signals}
use terminal_access_manager.Compliance.Unblock.{close_row}
use terminal_access_manager.Compliance.Work.{Env}
use terminal_access_manager.Compliance.Sweep.{
  Pair, Decision, ambiguous, kept, released, Sweep, Job, raised, finished, pair_of, pair_eq,
  in_group, groups, decide, settle_row, is_released, reason_for, release, sweep_groups,
  terminals_of, one_or_none, current, is_accepted, judge_group, auto_unblock_compliant,
}

pair_eq-≡ : (p q : Pair) → pair_eq p q ≡ true → p ≡ q
pair_eq-≡ p q h =
    ap₂ (λ a b. (a, b)) ((text_eq_iff p.0 q.0).0 (ground arith))
      ((text_eq_iff p.1 q.1).0 (ground arith))

pair_eq_refl : (p : Pair) → pair_eq p p ≡ true
pair_eq_refl p = rw (text_eq_refl p.0, text_eq_refl p.1) refl

-- What the rows of a decision are, when the job ends
module _ (env : Env) (rules : List Condition) (rows : List Blacklist) (ts : List Terminal) where
  -- A row that is not unblocked, by the decision on its pair
  abbrev close_if : Decision → Blacklist → Blacklist
  close_if (released t ip mac) e =
      let partners = select (in_group (pair_of e)) rows in
      if is_released env ip e
      then close_row env.now (reason_for env (all (is_released env ip) partners) ip mac) e
      else e
  close_if _ e = e

  -- A row of a pair that no rule covers, by the terminal of the pair: closed if the whitelist or the
  -- baseline accepts its address and MAC and the firewalls of the row answer
  abbrev judged_by : Option (Option Terminal) → Blacklist → Blacklist
  judged_by none e = e
  judged_by (some found) e =
      let partners = select (in_group (pair_of e)) rows in
      let ip = (current found partners).0 in
      let mac = (current found partners).1 in
      let whitelisted = is_some (match_whitelist env.loaded.whitelist ip mac) in
      if (whitelisted || (signals env.loaded ip mac).ig_match) && is_released env ip e
      then close_row env.now (reason_for env (all (is_released env ip) partners) ip mac) e
      else e

  -- A row judged by itself
  unfoldable pub judged_row : Blacklist → Blacklist
  unfolding is_released pair_of in_group reason_for select all first_match terminals_of
      match_whitelist signals
  judged_row e =
      if e.auto_unblocked || is_some (first_match rules (pair_of e).1 (pair_of e).0)
      then e
      else judged_by (one_or_none (terminals_of (pair_of e) ts)) e

  abbrev step : Pair → Blacklist → Blacklist
  step k e = settle_row env rows (decide env rules rows ts k) k e

  abbrev steps : List Pair → Blacklist → Blacklist
  steps [] e = e
  steps (k ∷ ks) e = steps ks (step k e)

  -- A group leaves the rows outside it.
  settle_row-outside :
      (d : Decision) (k : Pair) (e : Blacklist)
      → in_group k e ≡ false
      → settle_row env rows d k e ≡ e
  unfolding settle_row
  settle_row-outside ambiguous k e h = refl
  settle_row-outside kept k e h = refl
  settle_row-outside (released t ip mac) k e h = rw h refl

  -- A second turn finds nothing left to close.
  settle_row-twice :
      (d : Decision) (k : Pair) (e : Blacklist)
      → settle_row env rows d k (settle_row env rows d k e) ≡ settle_row env rows d k e
  unfolding settle_row in_group
  settle_row-twice ambiguous k e = refl
  settle_row-twice kept k e = refl
  settle_row-twice (released t ip mac) k e =
      elim (Bool-cases (in_group k e && is_released env ip e)) [
        | inl h ↦ rw h refl
        | inr h ↦ rw (h, h) refl
      ]

  pair_of-settle_row :
      (d : Decision) (k : Pair) (e : Blacklist) → pair_of (settle_row env rows d k e) ≡ pair_of e
  unfolding settle_row pair_of
  pair_of-settle_row ambiguous k e = refl
  pair_of-settle_row kept k e = refl
  pair_of-settle_row (released t ip mac) k e =
      elim (Bool-cases (in_group k e && is_released env ip e)) [
        | inl h ↦ rw h refl
        | inr h ↦ rw h refl
      ]

  step-outside : (k : Pair) (e : Blacklist) → pair_eq (pair_of e) k ≡ false → step k e ≡ e
  unfolding in_group
  step-outside k e h = settle_row-outside (decide env rules rows ts k) k e (ground arith)

  -- A row that its own group leaves is left by every group.
  steps-left : (ks : List Pair) (e : Blacklist) → step (pair_of e) e ≡ e → steps ks e ≡ e
  steps-left [] e h = refl
  steps-left (k ∷ ks) e h =
      let left : step k e ≡ e = elim (Bool-cases (pair_eq (pair_of e) k)) [
        | inl same ↦ subst (λ q. step q e ≡ e) (pair_eq-≡ (pair_of e) k same) h
        | inr other ↦ step-outside k e other
      ] in
      ap (steps ks) left ∙ steps-left ks e h

  step-left :
      (e : Blacklist)
      → step (pair_of (step (pair_of e) e)) (step (pair_of e) e) ≡ step (pair_of e) e
  step-left e =
      let d = decide env rules rows ts (pair_of e) in
      subst (λ q. step q (step (pair_of e) e) ≡ step (pair_of e) e)
        (sym (pair_of-settle_row d (pair_of e) e)) (settle_row-twice d (pair_of e) e)

  -- The loop reaches the group of a row.
  steps-reached :
      (ks : List Pair) (e : Blacklist)
      → any (pair_eq (pair_of e)) ks ≡ true
      → steps ks e ≡ step (pair_of e) e
  unfolding any
  steps-reached [] e h = ground arith
  steps-reached (k ∷ ks) e h = elim (Bool-cases (pair_eq (pair_of e) k)) [
    | inl same ↦
        subst (λ q. steps ks (step q e) ≡ step (pair_of e) e) (pair_eq-≡ (pair_of e) k same)
          (steps-left ks (step (pair_of e) e) (step-left e))
    | inr other ↦ ap (steps ks) (step-outside k e other) ∙ steps-reached ks e (ground arith)
  ]

  settle_row-close_if :
      (d : Decision) (e : Blacklist)
      → e.auto_unblocked ≡ false
      → settle_row env rows d (pair_of e) e ≡ close_if d e
  unfolding settle_row in_group
  settle_row-close_if ambiguous e h = refl
  settle_row-close_if kept e h = refl
  settle_row-close_if (released t ip mac) e h =
      let here : in_group (pair_of e) e ≡ true = ground (arith, pair_eq_refl (pair_of e)) in
      ap
        (λ b.
          if b && is_released env ip e
          then close_row env.now
              (reason_for env (all (is_released env ip) (select (in_group (pair_of e)) rows)) ip
                mac)
              e
          else e)
        here

  close_if-judge_group :
      (x : Option (Option Terminal)) (e : Blacklist)
      → close_if (judge_group env (select (in_group (pair_of e)) rows) x) e ≡ judged_by x e
  unfolding is_accepted
  close_if-judge_group none e = refl
  close_if-judge_group (some found) e =
      let now = current found (select (in_group (pair_of e)) rows) in
      let white = is_some (match_whitelist env.loaded.whitelist now.0 now.1) in
      elim (Bool-cases (white || (signals env.loaded now.0 now.1).ig_match)) [
        | inl h ↦ rw h refl
        | inr h ↦ rw h refl
      ]

  close_if-judged_row :
      (e : Blacklist)
      → e.auto_unblocked ≡ false
      → close_if (decide env rules rows ts (pair_of e)) e ≡ judged_row e
  unfolding judged_row decide
  close_if-judged_row e u =
      let x = one_or_none (terminals_of (pair_of e) ts) in
      let covered = is_some (first_match rules (pair_of e).1 (pair_of e).0) in
      let partners = select (in_group (pair_of e)) rows in
      let by = λ (b : Bool). close_if (if b then kept else judge_group env partners x) e in
      let spec = λ (b d : Bool). if b || d then e else judged_by x e in
      elim (Bool-cases covered) [
        | inl h ↦ ap by h ∙ ap₂ spec (sym u) (sym h)
        | inr h ↦ ap by h ∙ (close_if-judge_group x e ∙ ap₂ spec (sym u) (sym h))
      ]

  steps-judged_row :
      (ks : List Pair) (e : Blacklist)
      → e.auto_unblocked || any (pair_eq (pair_of e)) ks ≡ true
      → steps ks e ≡ judged_row e
  unfolding judged_row in_group
  steps-judged_row ks e h =
      let d = decide env rules rows ts (pair_of e) in
      let x = one_or_none (terminals_of (pair_of e) ts) in
      let covered = is_some (first_match rules (pair_of e).1 (pair_of e).0) in
      elim (Bool-cases e.auto_unblocked) [
        | inl u ↦
            steps-left ks e (settle_row-outside d (pair_of e) e (ground arith))
            ∙ ap (λ b. if b || covered then e else judged_by x e) (sym u)
        | inr u ↦
            steps-reached ks e (ground arith)
            ∙ (settle_row-close_if d e u ∙ close_if-judged_row e u)
      ]

-- A row that needs no group, or has one
abbrev is_covered : (seen ks : List Pair) → Blacklist → Bool
is_covered seen ks e =
    e.auto_unblocked || (any (pair_eq (pair_of e)) seen || any (pair_eq (pair_of e)) ks)

covered-next :
    (seen ks : List Pair) (k : Pair) (e : Blacklist)
    → is_covered (k ∷ seen) ks e ≡ true
    → is_covered seen (k ∷ ks) e ≡ true
unfolding any
covered-next seen ks k e h = ground arith

-- Every selected row has its group.
groups-covers :
    (seen : List Pair) (es : List Blacklist) → all (is_covered seen (groups seen es)) es ≡ true
unfolding groups all any
groups-covers seen [] = refl
groups-covers seen (e ∷ es) =
    elim (Bool-cases (e.auto_unblocked || any (pair_eq (pair_of e)) seen)) [
      | inl h ↦
          let same : groups seen es ≡ groups seen (e ∷ es) = rw h refl in
          subst (λ ks. all (is_covered seen ks) (e ∷ es) ≡ true) same
            (ground (arith, groups-covers seen es))
      | inr h ↦
          let ks = groups (pair_of e ∷ seen) es in
          let same : pair_of e ∷ ks ≡ groups seen (e ∷ es) = rw h refl in
          let rest =
            all_mono (is_covered (pair_of e ∷ seen) ks) (is_covered seen (pair_of e ∷ ks)) es
              (covered-next seen ks (pair_of e)) (groups-covers (pair_of e ∷ seen) es) in
          subst (λ gs. all (is_covered seen gs) (e ∷ es) ≡ true) same
            (ground (arith, pair_eq_refl (pair_of e), rest))
    ]

map-all :
    (p : Blacklist → Bool) (f g : Blacklist → Blacklist) (es : List Blacklist)
    → ((e : Blacklist) → p e ≡ true → f e ≡ g e)
    → all p es ≡ true
    → map f es ≡ map g es
unfolding all
map-all p f g [] h k = refl
map-all p f g (e ∷ es) h k =
    ap₂ (λ x xs. x ∷ xs) (h e (ground arith)) (map-all p f g es h (ground arith))

map-twice :
    (f g : Blacklist → Blacklist) (es : List Blacklist) → map g (map f es) ≡ map (λ e. g (f e)) es
map-twice f g [] = refl
map-twice f g (e ∷ es) = ap (λ xs. g (f e) ∷ xs) (map-twice f g es)

map-same : (es : List Blacklist) → map (λ e. e) es ≡ es
map-same [] = refl
map-same (e ∷ es) = ap (λ xs. e ∷ xs) (map-same es)

abbrev rows_or : List Blacklist → Job → List Blacklist
rows_or es (raised r) = es
rows_or es (finished s) = s.rows

module _ (env : Env) (rules : List Condition) (rows : List Blacklist) (ts : List Terminal) where
  rows-release :
      (k : Pair) (t : Option Terminal) (ip mac : Text) (s : Sweep)
      → (release env rows k t ip mac s).rows
        ≡ map (settle_row env rows (released t ip mac) k) s.rows
  unfolding release
  rows-release k t ip mac s =
      elim (Bool-cases (all (is_released env ip) (select (in_group k) rows))) [
        | inl h ↦ rw h refl
        | inr h ↦ rw h refl
      ]

  abbrev turn : List Pair → Pair → Sweep → Decision → Job
  turn ks k s ambiguous = raised s.requests
  turn ks k s kept =
      sweep_groups env rules rows ts ks
        (record s { skipped_count = s.skipped_count + length (select (in_group k) rows) })
  turn ks k s (released t ip mac) =
      sweep_groups env rules rows ts ks (release env rows k t ip mac s)

  rows-turn :
      (ks : List Pair) (k : Pair) (s u : Sweep) (f : Blacklist → Blacklist)
      → ((r : Sweep) → sweep_groups env rules rows ts ks r ≡ finished u → u.rows ≡ map f r.rows)
      → (d : Decision) → turn ks k s d ≡ finished u
      → u.rows ≡ map (λ e. f (settle_row env rows d k e)) s.rows
  unfolding settle_row
  rows-turn ks k s u f ih ambiguous h = ground arith
  rows-turn ks k s u f ih kept h = ih _ h
  rows-turn ks k s u f ih (released t ip mac) h =
      ih _ h
      ∙ (ap (map f) (rows-release k t ip mac s)
          ∙ map-twice (settle_row env rows (released t ip mac) k) f s.rows)

  -- When the job ends, its rows have passed every group.
  rows-sweep_groups :
      (ks : List Pair) (s u : Sweep)
      → sweep_groups env rules rows ts ks s ≡ finished u
      → u.rows ≡ map (steps env rules rows ts ks) s.rows
  unfolding sweep_groups
  rows-sweep_groups [] s u h = sym (ap (λ j. rows_or s.rows j) h) ∙ sym (map-same s.rows)
  rows-sweep_groups (k ∷ ks) s u h =
      rows-turn ks k s u (steps env rules rows ts ks) (λ r. rows-sweep_groups ks r u)
        (decide env rules rows ts k) h

  -- When the automatic unblock ends, its loop over the groups of rows has left every blacklist
  -- row as it is judged by itself: a row whose auto_unblocked is false (also one that
  -- unblocked_at says is closed), whose pair of MAC and address no exclusion rule covers and is
  -- accepted by the whitelist or the baseline, is closed if each of its firewalls answered, and
  -- every other row is unchanged.
  pub auto_unblock-judged_row :
      (u : Sweep)
      → auto_unblock_compliant env rules rows ts ≡ finished u
      → u.rows ≡ map (judged_row env rules rows ts) rows
  unfolding auto_unblock_compliant
  auto_unblock-judged_row u h =
      rows-sweep_groups (groups [] rows) _ u h
      ∙ map-all (is_covered [] (groups [] rows)) (steps env rules rows ts (groups [] rows))
          (judged_row env rules rows ts) rows
          (λ e k. steps-judged_row env rules rows ts (groups [] rows) e k) (groups-covers [] rows)
