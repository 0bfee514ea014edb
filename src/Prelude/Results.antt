-- ===== src/Prelude/Results.antt =====
-- Functions that raise: `ValueError` with its message as a constructor, and chains of such calls.
use mathlib.Core.Path.{◌≡◌, refl, ap}
use mathlib.Core.Bool.{Bool, true, false}
use native.Mathlib.Omega.{arith}

pub data ValueError : Type 0 where
  invalid_mac : ValueError
  invalid_mac_prefix : ValueError
  condition_required : ValueError
  ip_type_required : ValueError
  mac_type_required : ValueError
  invalid_ip : ValueError
  cidr_without_prefix : ValueError
  invalid_cidr_prefix : ValueError
  invalid_cidr : ValueError
  invalid_ip_range : ValueError
  range_start_after_end : ValueError
  range_end_above_255 : ValueError
  duplicate_rule : ValueError
  comments_empty : ValueError
  scope_value_empty : ValueError
  mac_prefix_segments : ValueError
  mac_prefix_segment : ValueError
  unknown_scope_type : ValueError

pub data Result {ℓ} (A : Type ℓ) : Type ℓ where
  err : (raised : ValueError) → Result A
  ok : (returned : A) → Result A

-- `if not test: raise e`
abbrev pub require : Bool → ValueError → Result (Unit {0})
require test raised = elim test [ true ↦ ok tt | false ↦ err raised ]

infixl 10 ◌>>=◌
abbrev pub ◌>>=◌ {ℓ κ} : {A : Type ℓ} {B : Type κ} → Result A → (A → Result B) → Result B
err raised >>= next = err raised
ok returned >>= next = next returned

infixl 10 ◌>>◌
abbrev pub ◌>>◌ {ℓ} : {B : Type ℓ} → Result (Unit {0}) → Result B → Result B
first >> next = first >>= λ _. next

-- A chain returns only if both of its parts do.
pub >>=-eq-ok {ℓ κ} :
    {A : Type ℓ} {B : Type κ} (first : Result A) (next : A → Result B) {b : B}
    → (first >>= next) ≡ ok b
    → (a : A) × (first ≡ ok a) × (next a ≡ ok b)
>>=-eq-ok (err raised) next h = ground arith
>>=-eq-ok (ok returned) next h = (returned, refl, h)

abbrev pub returned_or {ℓ} : {A : Type ℓ} → A → Result A → A
returned_or other (err raised) = other
returned_or other (ok returned) = returned

pub ok-injective {ℓ} : {A : Type ℓ} {a b : A} → ok a ≡ ok b → a ≡ b
ok-injective {a = a} h = ap (returned_or a) h

pub require-holds :
    (test : Bool) (raised : ValueError) {u : Unit {0}} → require test raised ≡ ok u → test ≡ true
require-holds true raised h = refl
require-holds false raised h = ground arith
