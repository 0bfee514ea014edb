-- ===== src/Compliance/Unblock/Quiet.antt =====
-- The automatic unblock asks no firewall to block.
use terminal_access_manager.Prelude.{
  ◌≡◌, refl, inl, inr, Bool, true, false, Bool-cases, List, [], ◌∷◌, map, any, any-append, Text,
  arith,
}
use terminal_access_manager.Models.{Compliance}
use terminal_access_manager.Compliance.Unblock.{
  holds_unblock, unblock_targets, after_unblock, unblock_all, auto_unblock,
}
use terminal_access_manager.Compliance.Work.{
  Env, Effect, block_request, terminal_blocked, block_failed_error, terminal_non_compliant,
  unblock_request, Work, Call,
}

-- Requests to block and the events that tell of a block
abbrev pub is_block : Effect → Bool
is_block (block_request tag) = true
is_block terminal_blocked = true
is_block block_failed_error = true
is_block terminal_non_compliant = true
is_block _ = false

unblock_requests : (tags : List Text) → any is_block (map unblock_request tags) ≡ false
unfolding any
unblock_requests [] = refl
unblock_requests (t ∷ ts) = unblock_requests ts

after_unblock-effects :
    (env : Env) (c : Call) (new : Compliance) (successful failed : List Text) (w : Work)
    → (after_unblock env c new successful failed w).effects ≡ w.effects
unfolding after_unblock
after_unblock-effects env c new [] failed w = refl
after_unblock-effects env c new (s ∷ ss) failed w = refl

unblock_all-quiet :
    (env : Env) (c : Call) (new : Compliance) (tags : List Text) (w : Work)
    → any is_block (unblock_all env c new tags w).effects ≡ any is_block w.effects
unfolding unblock_all
unblock_all-quiet env c new [] w = refl
unblock_all-quiet env c new (t ∷ ts) w = rw (after_unblock-effects env c new _ _ _) (
    ground (
      arith,
      any-append is_block w.effects (map unblock_request (t ∷ ts)),
      unblock_requests (t ∷ ts),
    ))

pub auto_unblock-quiet :
    (env : Env) (c : Call) (new : Compliance) (w : Work)
    → any is_block (auto_unblock env c new w).effects ≡ any is_block w.effects
unfolding auto_unblock
auto_unblock-quiet env c new w = elim (Bool-cases (holds_unblock env c new w.rows)) [
  | inl held ↦ rw held refl
  | inr go ↦ rw go (unblock_all-quiet env c new (unblock_targets env c w.terminal w.rows) w)
]
