-- ===== src/Compliance/Sweep/Address.antt =====
-- Which address the automatic unblock checks.
use terminal_access_manager.Prelude.{
  ◌≡◌, refl, sym, ap, ◌∙◌, inl, inr, Bool, true, false, Bool-cases, ◌&&◌, Option, some, none, List,
  [], ◌∷◌, all, any, all-select, all_mono, select, if◌then◌else◌, or_else, is_empty, is_some, Text,
  text_eq, text_eq_iff, arith,
}
use terminal_access_manager.Models.{Terminal, Blacklist}
use terminal_access_manager.Exclusion.{Condition, first_match}
use terminal_access_manager.Compliance.Work.{Env}
use terminal_access_manager.Compliance.Sweep.{
  Pair, Decision, kept, released, pair_of, in_group, terminals_of, one_or_none, current,
  judge_group, is_accepted, decide,
}

abbrev ip_or : Text → Decision → Text
ip_or ip (released t i mac) = i
ip_or ip _ = ip

terminals_of-address :
    (k : Pair) (ts : List Terminal) → all (λ t. text_eq t.ip_address k.1) (terminals_of k ts) ≡ true
unfolding terminals_of
terminals_of-address k ts = elim (Bool-cases (is_empty k.0)) [
  | inl h ↦ rw h (all-select (λ t. text_eq t.ip_address k.1) ts)
  | inr h ↦ rw h (
      all_mono (λ t. text_eq t.mac_address_normalized k.0 && text_eq t.ip_address k.1)
        (λ t. text_eq t.ip_address k.1) _ (λ t p. ground arith)
        (all-select (λ t. text_eq t.mac_address_normalized k.0 && text_eq t.ip_address k.1) ts))
]

released-current :
    (env : Env) (es : List Blacklist) (found : Option Terminal) (t : Option Terminal)
    (ip mac : Text)
    → judge_group env es (some found) ≡ released t ip mac
    → (current found es).0 ≡ ip
released-current env es found t ip mac h =
    let i = (current found es).0 in
    let m = (current found es).1 in
    let decided = λ (b : Bool). if b then released found i m else kept in
    elim (Bool-cases (is_accepted env i m)) [
      | inl a ↦ ap (ip_or i) (ap decided (sym a) ∙ h)
      | inr a ↦ let never : kept ≡ released t ip mac = ap decided (sym a) ∙ h in ground arith
    ]

current-address :
    (env : Env) (k : Pair) (xs : List Terminal) (es : List Blacklist) (t : Option Terminal)
    (ip mac : Text)
    → all (λ u. text_eq u.ip_address k.1) xs ≡ true
    → all (in_group k) es ≡ true
    → is_empty es ≡ false
    → judge_group env es (one_or_none xs) ≡ released t ip mac
    → ip ≡ k.1
unfolding all in_group pair_of
current-address env k [] [] t ip mac p q r h = ground arith
current-address env k [] (e ∷ es) t ip mac p q r h =
    sym (released-current env (e ∷ es) none t ip mac h)
    ∙ (text_eq_iff (or_else e.ip_address []) k.1).0 (ground arith)
current-address env k (x ∷ []) es t ip mac p q r h =
    sym (released-current env es (some x) t ip mac h)
    ∙ ((text_eq_iff x.ip_address k.1).0 (ground arith))
current-address env k (x ∷ y ∷ xs) es t ip mac p q r h = ground arith

selected_some :
    (p : Blacklist → Bool) (es : List Blacklist) → any p es ≡ true → is_empty (select p es) ≡ false
unfolding any select
selected_some p [] h = ground arith
selected_some p (e ∷ es) h = elim (Bool-cases (p e)) [
  | inl k ↦ rw k refl
  | inr k ↦ rw k (selected_some p es (ground arith))
]

module _ (env : Env) (rules : List Condition) (rows : List Blacklist) (ts : List Terminal) where
  -- A group that has a row and that the automatic unblock releases is checked with the address
  -- that its rows hold, whatever terminal is found.
  pub decide-address :
      (k : Pair) (t : Option Terminal) (ip mac : Text)
      → any (in_group k) rows ≡ true
      → decide env rules rows ts k ≡ released t ip mac
      → ip ≡ k.1
  unfolding decide
  decide-address k t ip mac h d =
      let es = select (in_group k) rows in
      let judged = judge_group env es (one_or_none (terminals_of k ts)) in
      let decided = λ (b : Bool). if b then kept else judged in
      elim (Bool-cases (is_some (first_match rules k.1 k.0))) [
        | inl e ↦ let never : kept ≡ released t ip mac = ap decided (sym e) ∙ d in ground arith
        | inr e ↦
            current-address env k (terminals_of k ts) es t ip mac (terminals_of-address k ts)
              (all-select (in_group k) rows) (selected_some (in_group k) rows h)
              (ap decided (sym e) ∙ d)
      ]
