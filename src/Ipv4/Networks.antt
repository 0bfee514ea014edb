-- ===== src/Ipv4/Networks.antt =====
-- Networks and their texts.
use native.Mathlib.Nat.{one-le-pow, div-add-mod', mod-lt, div-eq_of_lt-le}
use terminal_access_manager.Prelude.{
  ℕ, ◌+◌, ◌-◌, ◌*◌, ◌/◌, ◌%◌, ◌^◌, ◌<◌, ◌≤◌, ◌≡◌, true, ◌&&◌, some, ◌∷◌, ◌==◌, ltb, leb, Text, all,
  join, arith, ap, Bool-ext, ==_iff, leb→le, ltb→lt, ◌∙◌, all-append,
}
use terminal_access_manager.Ipv4.{
  dot, slash, print_octet, print_ipv4, Network, block_size, masked, in_network, parse_prefix,
  parse_network, make_netmask, print_network,
}
use terminal_access_manager.Ipv4.Laws.{without, split-plain, split-append, parse_ipv4-print_ipv4}

octet-slash : (n : ℕ) → n < 256 → without slash (print_octet n) ≡ true
unfolding print_octet all
octet-slash n h = ground arith

dot-slash : (s : Text) → without slash s ≡ true → without slash (dot ∷ s) ≡ true
unfolding all
dot-slash s h = h

print_ipv4-slash : (n : ℕ) → n < 2 ^ 32 → without slash (print_ipv4 n) ≡ true
unfolding print_ipv4 join
print_ipv4-slash n h = all-append _ _ _ (octet-slash (n / 256 / 256 / 256) (omega arith)) (
    dot-slash _ (
      all-append _ _ _ (octet-slash (n / 256 / 256 % 256) (omega arith)) (
        dot-slash _ (
          all-append _ _ _ (octet-slash (n / 256 % 256) (omega arith))
            (dot-slash _ (octet-slash (n % 256) (omega arith)))))))

parse_prefix-print_octet : (p : ℕ) → p ≤ 32 → parse_prefix (print_octet p) ≡ some p
unfolding parse_prefix print_octet
parse_prefix-print_octet p h = ground arith

make_netmask-print_octet : (p : ℕ) → p ≤ 32 → make_netmask (print_octet p) ≡ some p
make_netmask-print_octet p h = ground (arith, parse_prefix-print_octet p h)

-- A network whose base has no host bits, and a prefix length that fits.
pub record IsNetwork (net : Network) : Type 0 where
  pub fits : net.prefix ≤ 32
  pub below : net.base < 2 ^ 32
  pub clear : masked net.prefix net.base ≡ net.base

-- A network is read back from its text.
pub parse_network-print_network :
    (net : Network) → IsNetwork net → parse_network (print_network net) ≡ some net
unfolding parse_network print_network
parse_network-print_network net v =
    rw (split-append slash _ _ (print_ipv4-slash net.base v.below)) (
      rw (split-plain slash _ (octet-slash net.prefix (omega arith))) (
        rw (parse_ipv4-print_ipv4 net.base v.below) (
          rw (make_netmask-print_octet net.prefix v.fits)
            (λ i. some (record { base = v.clear i; prefix = net.prefix })))))

block : (h n b : ℕ) → 0 < h → b / h * h ≡ b → (n / h * h == b) ≡ (leb b n && ltb n (b + h))
block h n b pos clear = Bool-ext _ _ there back
  where
    there : (n / h * h == b) ≡ true → (leb b n && ltb n (b + h)) ≡ true
    there e = ground (arith, div-add-mod' n h, mod-lt n pos)

    same : b ≤ n → n < b + h → n / h ≡ b / h
    same l u = div-eq_of_lt-le h (omega arith) (omega arith)

    back : (leb b n && ltb n (b + h)) ≡ true → (n / h * h == b) ≡ true
    back e = (==_iff (n / h * h) b).1 (
        ap (λ q. q * h) (same (leb→le b n (ground arith)) (ltb→lt n (b + h) (ground arith)))
        ∙ clear)

pub block_size-pos : (p : ℕ) → 0 < block_size p
block_size-pos p = one-le-pow (32 - p) 2 (omega arith)

-- An address is in a network if it is one of the block that starts at the base.
pub in_network-block :
    (n : ℕ) (net : Network)
    → IsNetwork net
    → in_network n net ≡ (leb net.base n && ltb n (net.base + block_size net.prefix))
unfolding in_network
in_network-block n net v =
    block (block_size net.prefix) n net.base (block_size-pos net.prefix) v.clear
