-- ===== src/Compliance/Ipguard/Reference.antt =====
-- What the early returns and flags of the baseline search compute.
use terminal_access_manager.Prelude.{
  ◌≡◌, refl, Bool, true, false, ◌&&◌, ◌||◌, List, [], ◌∷◌, ◌++◌, if◌then◌else◌, Text, any,
  any-append, arith,
}
use terminal_access_manager.Mac.{ipguard_mac}
use terminal_access_manager.Compliance.Ipguard.{
  Entry, Baseline, Search, returned, searching, same_ip, same_mac, accepts, search_entries,
  search_sources, match_ipguard, match_ip_only, match_or,
}

-- All entries, of the sources in turn
unfoldable pub all_entries : Baseline → List Entry
all_entries [] = []
all_entries ((tag, es) ∷ sources) = es ++ all_entries sources

abbrev pub hit : Text → Text → List Text → Entry → Bool
hit ip m prefixes e = same_ip ip e && accepts m prefixes e

module _ (ip m : Text) (prefixes : List Text) where
  abbrev summary : List Entry → Bool → Bool → Search
  summary es i k =
      if any (hit ip m prefixes) es
      then returned
      else searching (any (same_ip ip) es || i) (any (same_mac m) es || k)

  search_entries-eq-summary :
      (es : List Entry) (i k : Bool) → search_entries ip m prefixes es i k ≡ summary es i k
  unfolding search_entries any
  search_entries-eq-summary [] i k = refl
  search_entries-eq-summary (e ∷ es) i k =
      ground (arith, search_entries-eq-summary es (same_ip ip e || i) (same_mac m e || k))

  search_sources-eq-summary :
      (b : Baseline) (i k : Bool) → search_sources ip m prefixes b i k ≡ summary (all_entries b) i k
  unfolding search_sources all_entries
  search_sources-eq-summary [] i k = unfold any in refl
  search_sources-eq-summary ((tag, es) ∷ sources) i k = ground (
    arith,
    search_entries-eq-summary es i k,
    search_sources-eq-summary sources (any (same_ip ip) es || i) (any (same_mac m) es || k),
    any-append (hit ip m prefixes) es (all_entries sources),
    any-append (same_ip ip) es (all_entries sources),
    any-append (same_mac m) es (all_entries sources),
  )

-- The baseline search with its early returns and flags equals a description by existence over all
-- entries: compliant with both flags when some entry has the address and either the MAC or a MAC
-- under a prefix, otherwise the flags tell whether the address and the MAC occur at all.
pub match_ipguard_lem :
    (b : Baseline) (ip mac : Text) (prefixes : List Text)
    → match_ipguard b ip mac prefixes ≡ (
        if any (hit ip (ipguard_mac mac) prefixes) (all_entries b)
        then record { is_compliant = true; ip_found = true; mac_found = true }
        else record {
          is_compliant = false;
          ip_found = any (same_ip ip) (all_entries b);
          mac_found = any (same_mac (ipguard_mac mac)) (all_entries b);
        })
unfolding match_ipguard
match_ipguard_lem b ip mac prefixes =
    ground (arith, search_sources-eq-summary ip (ipguard_mac mac) prefixes b false false)

pub match_ip_only_lem :
    (b : Baseline) (ip : Text) → match_ip_only b ip ≡ any (same_ip ip) (all_entries b)
unfolding match_ip_only all_entries
match_ip_only_lem [] ip = unfold any in refl
match_ip_only_lem ((tag, es) ∷ sources) ip =
    ground (arith, match_ip_only_lem sources ip, any-append (same_ip ip) es (all_entries sources))

-- What passes two tests passes the first.
any-and : (p q : Entry → Bool) (es : List Entry) → any (λ e. p e && q e) es ≡ true → any p es ≡ true
unfolding any
any-and p q [] h = h
any-and p q (e ∷ es) h = ground (arith, any-and p q es)

-- A pair that the exact search accepts is accepted by the search by address alone and by the
-- search by address or MAC.
pub strategies_ordered :
    (b : Baseline) (ip mac : Text) (prefixes : List Text)
    → (match_ipguard b ip mac prefixes).is_compliant ≡ true
    → (match_ip_only b ip ≡ true) × (match_or b ip mac ≡ true)
unfolding match_or
strategies_ordered b ip mac prefixes h = ground (
  arith,
  match_ipguard_lem b ip mac prefixes,
  match_ipguard_lem b ip mac [],
  match_ip_only_lem b ip,
  any-and (same_ip ip) (accepts (ipguard_mac mac) prefixes) (all_entries b),
)
