-- ===== src/IpRange/Laws.antt =====
-- Range patterns are read back from their text.
use mathlib.Core.List.{append_assoc}
use terminal_access_manager.Prelude.{
  ℕ, ◌/◌, ◌%◌, ◌^◌, ◌<◌, ◌≡◌, refl, true, some, [], ◌∷◌, ◌++◌, ◌==◌, Text, all, split, join, to_int,
  arith, text_eq, text_eq_iff, ap, is_solid, all-append,
}
use terminal_access_manager.Ipv4.{dot, print_octet}
use terminal_access_manager.Ipv4.Laws.{
  without, split-plain, split-append, octet-plain, print_octet-solid, parse_octet-print_octet,
}
use terminal_access_manager.IpRange.{
  dash, Range, chomp, short_digits, parse_range, prefix_text, range_pattern,
}

chomp-solid : (s : Text) → is_solid s ≡ true → chomp s ≡ s
unfolding chomp all
chomp-solid [] h = refl
chomp-solid (c ∷ []) h = ground arith
chomp-solid (c ∷ d ∷ s) h = ground (arith, chomp-solid (d ∷ s))

split-prefix_text :
    (k : ℕ)
    → k < 2 ^ 24
    → split dot (prefix_text k)
      ≡ print_octet (k / 256 / 256) ∷ print_octet (k / 256 % 256) ∷ print_octet (k % 256) ∷ []
unfolding join
split-prefix_text k h = rw (split-append dot _ _ (octet-plain (k / 256 / 256) (omega arith))) (
    rw (split-append dot _ _ (octet-plain (k / 256 % 256) (omega arith)))
      (rw (split-plain dot _ (octet-plain (k % 256) (omega arith))) refl))

print_octet-injective : (m n : ℕ) → m < 256 → n < 256 → print_octet m ≡ print_octet n → m ≡ n
print_octet-injective m n hm hn e =
    ground (arith, parse_octet-print_octet m hm, parse_octet-print_octet n hn)

prefix_text-injective : (m n : ℕ) → m < 2 ^ 24 → n < 2 ^ 24 → prefix_text m ≡ prefix_text n → m ≡ n
prefix_text-injective m n hm hn e =
    let same = ap (split dot) e in
    ground (
      arith,
      split-prefix_text m hm,
      split-prefix_text n hn,
      print_octet-injective (m / 256 / 256) (n / 256 / 256) (omega arith) (omega arith),
      print_octet-injective (m / 256 % 256) (n / 256 % 256) (omega arith) (omega arith),
      print_octet-injective (m % 256) (n % 256) (omega arith) (omega arith),
    )

pub text_eq-prefix_text :
    (m n : ℕ) → m < 2 ^ 24 → n < 2 ^ 24 → text_eq (prefix_text m) (prefix_text n) ≡ (m == n)
text_eq-prefix_text m n hm hn =
    ground (arith, text_eq_iff (prefix_text m) (prefix_text n), prefix_text-injective m n hm hn)

pub to_int-print_octet : (n : ℕ) → n < 256 → to_int (print_octet n) ≡ n
unfolding print_octet
to_int-print_octet n h = ground arith

abbrev pub parsed : ℕ → ℕ → ℕ → Range
parsed k start end = record {
  prefix = prefix_text k;
  start = print_octet start;
  end = print_octet end;
}

octet_digits : (n : ℕ) → n < 256 → short_digits (print_octet n) ≡ true
unfolding print_octet all
octet_digits n h = ground arith

dash-plain : (n : ℕ) → n < 256 → without dash (print_octet n) ≡ true
unfolding print_octet all
dash-plain n h = ground arith

-- The text behind the last dot.
abbrev ends : ℕ → ℕ → Text
ends start end = print_octet start ++ dash ∷ print_octet end

ends-plain : (start end : ℕ) → start < 256 → end < 256 → without dot (ends start end) ≡ true
unfolding all
ends-plain start end hs he =
    all-append _ (print_octet start) _ (octet-plain start hs) (octet-plain end he)

ends-solid : (start end : ℕ) → start < 256 → end < 256 → is_solid (dot ∷ ends start end) ≡ true
unfolding all
ends-solid start end hs he =
    all-append _ (print_octet start) _ (print_octet-solid start hs) (print_octet-solid end he)

prefix_text-solid : (k : ℕ) → k < 2 ^ 24 → is_solid (prefix_text k) ≡ true
unfolding join all
prefix_text-solid k h =
    all-append _ (print_octet (k / 256 / 256)) _ (print_octet-solid _ (omega arith)) (
      all-append _ (print_octet (k / 256 % 256)) _ (print_octet-solid _ (omega arith))
        (print_octet-solid _ (omega arith)))

module _ (k start end : ℕ) (hk : k < 2 ^ 24) (hs : start < 256) (he : end < 256) where
  range_pattern-solid : is_solid (range_pattern k start end) ≡ true
  range_pattern-solid =
      all-append _ (prefix_text k) _ (prefix_text-solid k hk) (ends-solid start end hs he)

  split-range_pattern :
      split dot (range_pattern k start end)
      ≡ print_octet (k / 256 / 256)
        ∷ print_octet (k / 256 % 256)
        ∷ print_octet (k % 256)
        ∷ (print_octet start ++ dash ∷ print_octet end)
        ∷ []
  unfolding join
  split-range_pattern = simp append_assoc (
      rw (split-append dot _ _ (octet-plain (k / 256 / 256) (omega arith))) (
        rw (split-append dot _ _ (octet-plain (k / 256 % 256) (omega arith))) (
          rw (split-append dot _ _ (octet-plain (k % 256) (omega arith)))
            (rw (split-plain dot _ (ends-plain start end hs he)) refl))))

  pub parse_range-range_pattern :
      parse_range short_digits (range_pattern k start end) ≡ some (parsed k start end)
  unfolding parse_range
  parse_range-range_pattern = rw (chomp-solid _ range_pattern-solid) (
      rw split-range_pattern (
        rw (split-append dash _ _ (dash-plain start hs)) (
          rw (split-plain dash _ (dash-plain end he)) (
            ground (
              arith,
              octet_digits (k / 256 / 256),
              octet_digits (k / 256 % 256),
              octet_digits (k % 256),
              octet_digits start,
              octet_digits end,
            )))))
