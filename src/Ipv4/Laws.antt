-- ===== src/Ipv4/Laws.antt =====
-- Addresses and their texts.
use terminal_access_manager.Prelude.{
  ℕ, ◌/◌, ◌%◌, ◌^◌, ◌<◌, ◌≡◌, refl, Bool, true, false, not, Option, none, some, List, [], ◌∷◌, ◌++◌,
  ◌==◌, Text, all, split, join, arith, text_eq, text_eq_iff, Bool-ext, ap, is_solid, all-append,
  is_empty,
}
use terminal_access_manager.Ipv4.{
  dot, parse_octet, parse_ipv4, print_octet, octets, print_ipv4, parse_octets, address_of,
}

abbrev pub without : ℕ → Text → Bool
without sep = all (λ c. not (c == sep))

pub split-plain : (sep : ℕ) (w : Text) → without sep w ≡ true → split sep w ≡ w ∷ []
unfolding split all
split-plain sep [] h = refl
split-plain sep (c ∷ w) h = ground (arith, split-plain sep w)

pub split-append :
    (sep : ℕ) (w t : Text) → without sep w ≡ true → split sep (w ++ sep ∷ t) ≡ w ∷ split sep t
unfolding split all
split-append sep [] t h = ground arith
split-append sep (c ∷ w) t h = ground (arith, split-append sep w t)

print_octet-plain : (n : ℕ) → n < 1000 → without dot (print_octet n) ≡ true
unfolding print_octet all
print_octet-plain n h = ground arith

pub parse_octet-print_octet : (n : ℕ) → n < 256 → parse_octet (print_octet n) ≡ some n
unfolding parse_octet print_octet text_eq
parse_octet-print_octet n h = ground arith

pub print_octet-solid : (n : ℕ) → n < 256 → is_solid (print_octet n) ≡ true
unfolding print_octet all
print_octet-solid n h = ground arith

dot-solid : (s : Text) → is_solid s ≡ true → is_solid (dot ∷ s) ≡ true
unfolding all
dot-solid s h = h

-- The text of an address has no white space.
pub print_ipv4-solid : (n : ℕ) → n < 2 ^ 32 → is_solid (print_ipv4 n) ≡ true
unfolding print_ipv4 join
print_ipv4-solid n h = all-append _ _ _ (print_octet-solid (n / 256 / 256 / 256) (omega arith)) (
    dot-solid _ (
      all-append _ _ _ (print_octet-solid (n / 256 / 256 % 256) (omega arith)) (
        dot-solid _ (
          all-append _ _ _ (print_octet-solid (n / 256 % 256) (omega arith))
            (dot-solid _ (print_octet-solid (n % 256) (omega arith)))))))

-- The octet texts have no dot inside.
pub octet-plain : (n : ℕ) → n < 256 → without dot (print_octet n) ≡ true
octet-plain n h = print_octet-plain n (omega arith)

pub split-print_ipv4 : (n : ℕ) → n < 2 ^ 32 → split dot (print_ipv4 n) ≡ octets n
unfolding print_ipv4 join
split-print_ipv4 n h = rw (split-append dot _ _ (octet-plain (n / 256 / 256 / 256) (omega arith))) (
    rw (split-append dot _ _ (octet-plain (n / 256 / 256 % 256) (omega arith))) (
      rw (split-append dot _ _ (octet-plain (n / 256 % 256) (omega arith)))
        (rw (split-plain dot _ (octet-plain (n % 256) (omega arith))) refl)))

-- An address is read back from its text.
pub parse_ipv4-print_ipv4 : (n : ℕ) → n < 2 ^ 32 → parse_ipv4 (print_ipv4 n) ≡ some n
unfolding parse_ipv4
parse_ipv4-print_ipv4 n h = rw (split-print_ipv4 n h) (
    rw (parse_octet-print_octet (n / 256 / 256 / 256) (omega arith)) (
      rw (parse_octet-print_octet (n / 256 / 256 % 256) (omega arith)) (
        rw (parse_octet-print_octet (n / 256 % 256) (omega arith))
          (rw (parse_octet-print_octet (n % 256) (omega arith)) (ap some (omega arith))))))

abbrev IsByte : Option ℕ → Type 0
IsByte none = Unit
IsByte (some n) = n < 256

parse_octet-IsByte : (s : Text) → IsByte (parse_octet s)
unfolding parse_octet
parse_octet-IsByte s = ground arith

address_of-lt :
    (a b c d : Option ℕ) (n : ℕ)
    → IsByte a
    → IsByte b
    → IsByte c
    → IsByte d
    → address_of a b c d ≡ some n
    → n < 2 ^ 32
address_of-lt (some a) (some b) (some c) (some d) n ha hb hc hd h = ground arith
address_of-lt _ _ _ _ n ha hb hc hd h = ground arith

parse_octets-lt : (ws : List Text) (n : ℕ) → parse_octets ws ≡ some n → n < 2 ^ 32
parse_octets-lt (a ∷ b ∷ c ∷ d ∷ []) n h =
    address_of-lt (parse_octet a) (parse_octet b) (parse_octet c) (parse_octet d) n
      (parse_octet-IsByte a) (parse_octet-IsByte b) (parse_octet-IsByte c) (parse_octet-IsByte d) h
parse_octets-lt ws n h = ground arith

-- A parsed address fits 32 bits.
pub parse_ipv4-lt : (s : Text) (n : ℕ) → parse_ipv4 s ≡ some n → n < 2 ^ 32
unfolding parse_ipv4
parse_ipv4-lt s n h = parse_octets-lt (split dot s) n h

-- Two addresses with one text are one address.
pub text_eq-print_ipv4 :
    (m n : ℕ) → m < 2 ^ 32 → n < 2 ^ 32 → text_eq (print_ipv4 m) (print_ipv4 n) ≡ (m == n)
text_eq-print_ipv4 m n hm hn = Bool-ext _ _ there back
  where
    there : text_eq (print_ipv4 m) (print_ipv4 n) ≡ true → (m == n) ≡ true
    there e = ground (
      arith,
      parse_ipv4-print_ipv4 m hm,
      parse_ipv4-print_ipv4 n hn,
      text_eq_iff (print_ipv4 m) (print_ipv4 n),
    )

    back : (m == n) ≡ true → text_eq (print_ipv4 m) (print_ipv4 n) ≡ true
    back e = ground (arith, text_eq_iff (print_ipv4 m) (print_ipv4 n))

pub print_ipv4-ne-nil : (n : ℕ) → is_empty (print_ipv4 n) ≡ false
unfolding print_ipv4 join print_octet
print_ipv4-ne-nil n = ground arith
