-- ===== src/Exclusion/Patterns.antt =====
-- What the stored patterns of a rule match.
use terminal_access_manager.Prelude.{
  ℕ, ◌+◌, ◌/◌, ◌%◌, ◌^◌, ◌<◌, ◌≡◌, refl, false, not, ◌&&◌, some, leb, ◌==◌, Text, is_empty,
  is_empty-append, ltb, join, text_eq, starts_with, strip-solid, arith, ◌∙◌,
}
use terminal_access_manager.Prelude.Results.{ok, >>=-eq-ok}
use terminal_access_manager.Ipv4.{print_ipv4, print_octet, Network, print_network}
use terminal_access_manager.Ipv4.Laws.{
  parse_ipv4-print_ipv4, text_eq-print_ipv4, print_ipv4-solid, print_ipv4-ne-nil, split-print_ipv4,
}
use terminal_access_manager.Ipv4.{block_size}
use terminal_access_manager.Ipv4.Networks.{IsNetwork, parse_network-print_network, in_network-block}
use terminal_access_manager.IpRange.{range_pattern}
use terminal_access_manager.IpRange.Laws.{
  parse_range-range_pattern, text_eq-prefix_text, to_int-print_octet,
}
use terminal_access_manager.Mac.{normalize_mac, validate_mac, validate_mac_prefix}
use terminal_access_manager.Mac.Laws.{format-validate_mac, format-validate_mac_prefix}
use terminal_access_manager.Exclusion.{
  IpType, single_ip, cidr, ip_range, mac, mac_prefix, match_ip, match_mac, match_address,
  match_cidr, normalize_mac_condition,
}

-- A pattern is compared with the address that the text names.
match_ip-print_ipv4 :
    (n : ℕ) (pattern : Text) (type : IpType)
    → n < 2 ^ 32
    → is_empty pattern ≡ false
    → match_ip (print_ipv4 n) (some pattern) (some type) ≡ match_address n pattern type
unfolding match_ip
match_ip-print_ipv4 n pattern type h p =
    rw p
      (rw (strip-solid (print_ipv4 n) (print_ipv4-solid n h)) (rw (parse_ipv4-print_ipv4 n h) refl))

-- A stored single address, written as a number below 2 ^ 32, matches that address and no other
-- below 2 ^ 32.
pub match_ip-single_ip :
    (n m : ℕ)
    → n < 2 ^ 32
    → m < 2 ^ 32
    → match_ip (print_ipv4 n) (some (print_ipv4 m)) (some single_ip) ≡ (n == m)
match_ip-single_ip n m hn hm =
    match_ip-print_ipv4 n (print_ipv4 m) single_ip hn (print_ipv4-ne-nil m)
    ∙ text_eq-print_ipv4 n m hn hm

print_network-ne-nil : (net : Network) → is_empty (print_network net) ≡ false
unfolding print_network
print_network-ne-nil net = is_empty-append (print_ipv4 net.base) _ (print_ipv4-ne-nil net.base)

-- A stored network whose base has no host bits matches an address below 2 ^ 32 exactly if it lies
-- in the block of addresses that starts at the base of the network.
pub match_ip-cidr :
    (n : ℕ) (net : Network)
    → n < 2 ^ 32
    → IsNetwork net
    → match_ip (print_ipv4 n) (some (print_network net)) (some cidr)
      ≡ (leb net.base n && ltb n (net.base + block_size net.prefix))
match_ip-cidr n net h v =
    match_ip-print_ipv4 n (print_network net) cidr h (print_network-ne-nil net)
    ∙ rw (parse_network-print_network net v, match_cidr) (in_network-block n net v)

range_pattern-ne-nil : (k s e : ℕ) → is_empty (range_pattern k s e) ≡ false
unfolding join print_octet
range_pattern-ne-nil k s e = ground arith

-- A stored range of octets matches an address below 2 ^ 32 exactly if its first three octets are
-- those of the range and its last octet is within the bounds.
pub match_ip-ip_range :
    (n k start end : ℕ)
    → n < 2 ^ 32
    → k < 2 ^ 24
    → start < 256
    → end < 256
    → match_ip (print_ipv4 n) (some (range_pattern k start end)) (some ip_range)
      ≡ (n / 256 == k && (leb start (n % 256) && leb (n % 256) end))
match_ip-ip_range n k start end hn hk hs he =
    match_ip-print_ipv4 n (range_pattern k start end) ip_range hn (range_pattern-ne-nil k start end)
    ∙ rw (parse_range-range_pattern k start end hk hs he) (
        rw (split-print_ipv4 n hn) (
          rw (text_eq-prefix_text (n / 256) k (omega arith) hk) (
            rw (to_int-print_octet (n % 256) (omega arith))
              (rw (to_int-print_octet start hs) (rw (to_int-print_octet end he) (ground arith))))))

module _ (value stored address : Text) where
  -- A MAC condition that validation accepts is stored in a form that matches an address exactly
  -- if the compact form of the address is not empty and equals that of the value given.
  pub match_mac-normalize_mac :
      normalize_mac_condition mac value ≡ ok (stored, mac)
      → match_mac address (some stored) (some mac) ≡ (
          not (is_empty (normalize_mac address))
          && text_eq (normalize_mac address) (normalize_mac value))
  unfolding normalize_mac_condition match_mac
  match_mac-normalize_mac h =
      let (v, accepted, e) = >>=-eq-ok (validate_mac value) _ h in
      let (filled, same) = format-validate_mac value v accepted in ground arith

  -- A MAC prefix condition that validation accepts is stored in a form that matches an address
  -- exactly if the compact form of the address is not empty and begins with that of the value
  -- given.
  pub match_mac-normalize_mac_prefix :
      normalize_mac_condition mac_prefix value ≡ ok (stored, mac_prefix)
      → match_mac address (some stored) (some mac_prefix) ≡ (
          not (is_empty (normalize_mac address))
          && starts_with (normalize_mac address) (normalize_mac value))
  unfolding normalize_mac_condition match_mac
  match_mac-normalize_mac_prefix h =
      let (v, accepted, e) = >>=-eq-ok (validate_mac_prefix value) _ h in
      let (filled, same) = format-validate_mac_prefix value v accepted in ground arith
