-- ===== src/Comments.antt =====
-- The comments of a terminal, segments parted by semicolons: `_comment_dedupe_key`,
-- `_append_terminal_comment`, `_strip_block_unblock_comments` and
-- `sync_terminal_whitelist_comments` of compliance_service.py. An absent column is the empty text.
use terminal_access_manager.Prelude.{
  ℕ, Bool, true, false, not, ◌&&◌, ◌||◌, Option, none, some, List, [], ◌∷◌, ◌++◌, map,
  if◌then◌else◌, Text, codes, ltb, ◌==◌, any, select, is_empty, split, strip, strip_left,
  starts_with, text_eq,
}
use mathlib.Core.List.{reverse}

abbrev semicolon : ℕ
semicolon = b';'

-- `sep.join(parts)` for a separator of any length
unfoldable pub join_with : Text → List Text → Text
join_with sep [] = []
join_with sep (w ∷ []) = w
join_with sep (w ∷ v ∷ ws) = w ++ (sep ++ join_with sep (v ∷ ws))

abbrev text_ltb : Text → Text → Bool
text_ltb [] [] = false
text_ltb [] (b ∷ t) = true
text_ltb (a ∷ s) [] = false
text_ltb (a ∷ s) (b ∷ t) = ltb a b || (a == b && text_ltb s t)

unfoldable pub insert_sorted : Text → List Text → List Text
insert_sorted t [] = t ∷ []
insert_sorted t (u ∷ us) = if text_ltb u t then u ∷ insert_sorted t us else t ∷ u ∷ us

-- `sorted(texts)`
unfoldable pub sort : List Text → List Text
unfolding insert_sorted
sort [] = []
sort (t ∷ ts) = insert_sorted t (sort ts)

pub data Key : Type 0 where
  exact : Text → Key
  auto : (unblocked : Bool) → List Text → Key

-- The rest of a text behind a prefix
abbrev after : Text → Text → Option Text
after [] s = some s
after (p ∷ ps) [] = none
after (p ∷ ps) (c ∷ s) = if p == c then after ps s else none

-- The text up to a character, and the text from it on
abbrev break_at : ℕ → Text → Text × Text
break_at stop [] = ([], [])
break_at stop (c ∷ s) =
    let (before, from) = break_at stop s in if c == stop then ([], c ∷ s) else (c ∷ before, from)

abbrev or_next : Option Text → Option Text → Option Text
or_next (some s) other = some s
or_next none other = other

abbrev then_after : Text → Option Text → Option Text
then_after p none = none
then_after p (some s) = after p s

-- `(?:\s*\(failed on:\s*([^)]*)\))?$`
abbrev ends_well : Text → Bool
ends_well [] = true
ends_well (c ∷ s) = elim (after (codes "(failed on:") (strip_left (c ∷ s))) [
  | none ↦ false
  | some rest ↦ text_eq (break_at b')' (strip_left rest)).1 (codes ")")
]

-- The tags of the bracket that opens the text
abbrev bracket : Option Text → Option Text
bracket none = none
bracket (some s) =
    let (tags, rest) = break_at b']' s in
    elim rest [ [] ↦ none | c ∷ tail ↦ if ends_well tail then some tags else none ]

-- `_AUTO_COMMENT_RE` for one action: the text between the brackets
auto_tags : Text → Text → Option Text
auto_tags action c =
    let head = after (codes "Auto-" ++ (action ++ codes " by TAM ")) c in
    bracket (
      then_after (codes " firewall [")
        (or_next (then_after (codes "on") head) (then_after (codes "from") head)))

-- `[t.strip() for t in s.split(sep) if t.strip()]`
unfoldable pub segments : ℕ → Text → List Text
segments sep s = select (λ t. not (is_empty t)) (map strip (split sep s))

-- `tuple(sorted(t.strip() for t in tags.split(",") if t.strip()))`
tag_set : Text → List Text
unfolding sort segments
tag_set tags = sort (segments b',' tags)

unfoldable pub dedupe_key : Text → Key
unfolding auto_tags tag_set
dedupe_key comment =
    let c = strip comment in
    elim (auto_tags (codes "blocked") c) [
      | some tags ↦ auto false (tag_set tags)
      | none ↦ elim (auto_tags (codes "unblocked") c) [
        | some tags ↦ auto true (tag_set tags)
        | none ↦ exact c
      ]
    ]

abbrev texts_eq : List Text → List Text → Bool
texts_eq [] [] = true
texts_eq [] (b ∷ t) = false
texts_eq (a ∷ s) [] = false
texts_eq (a ∷ s) (b ∷ t) = text_eq a b && texts_eq s t

abbrev bool_eq : Bool → Bool → Bool
bool_eq true b = b
bool_eq false b = not b

abbrev key_eq : Key → Key → Bool
key_eq (exact s) (exact t) = text_eq s t
key_eq (exact s) (auto b ts) = false
key_eq (auto a ss) (exact t) = false
key_eq (auto a ss) (auto b ts) = bool_eq a b && texts_eq ss ts

abbrev is_auto : Key → Bool
is_auto (exact s) = false
is_auto (auto b ts) = true

-- `_append_terminal_comment`, on the column
unfoldable pub append_comment : Text → Text → Text
unfolding dedupe_key segments any
append_comment comments comment =
    if is_empty comment
    then comments
    else if any (λ ex. key_eq (dedupe_key ex) (dedupe_key comment)) (segments semicolon comments)
    then comments
    else if is_empty comments
    then comment
    else comments ++ (codes "; " ++ comment)

-- `_strip_block_unblock_comments`
unfoldable pub strip_block_unblock_comments : Text → Text
unfolding dedupe_key segments join_with
strip_block_unblock_comments comments =
    join_with (codes "; ")
      (select (λ c. not (is_auto (dedupe_key c))) (segments semicolon comments))

abbrev whitelist_mark : Text
whitelist_mark = codes "Whitelist: "

-- The segment that a whitelist comment adds
abbrev whitelist_part : Option Text → List Text
whitelist_part none = []
whitelist_part (some c) = if is_empty c then [] else (whitelist_mark ++ c) ∷ []

-- `sync_terminal_whitelist_comments`, on the column
unfoldable pub sync_whitelist_comments : Text → Option Text → Text
unfolding strip_block_unblock_comments
sync_whitelist_comments comments wl_comments = join_with (codes "; ") (
    select (λ p. not (starts_with p whitelist_mark))
      (segments semicolon (strip_block_unblock_comments comments))
    ++ whitelist_part wl_comments)

-- The text before the first mark, and the text from it on
abbrev find_mark : Text → Option (Text × Text)
find_mark [] = none
find_mark (c ∷ s) =
    let rest = find_mark s in
    if starts_with (c ∷ s) whitelist_mark
    then some ([], c ∷ s)
    else elim rest [ none ↦ none | some (before, from) ↦ some (c ∷ before, from) ]

abbrev drop_marks : Text → Text
drop_marks [] = []
drop_marks (c ∷ s) = if c == semicolon || c == 32 then drop_marks s else c ∷ s

-- `s.rstrip("; ")`
abbrev rstrip_marks : Text → Text
rstrip_marks s = reverse (drop_marks (reverse s))

-- The branch of `_apply_compliance_result` that drops the whitelist comment of a terminal that is
-- no longer whitelisted
unfoldable pub drop_whitelist_comment : Text → Text
drop_whitelist_comment comments = elim (find_mark comments) [
  | none ↦ comments
  | some (before, from) ↦ elim (break_at semicolon from).1 [
    | [] ↦ rstrip_marks before
    | c ∷ behind ↦ rstrip_marks before ++ strip_left behind
  ]
]
