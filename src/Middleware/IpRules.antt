-- ===== src/Middleware/IpRules.antt =====
-- internal/ipfilter/ip_filter.go. The set of allowed addresses is the list of their texts.
use elite_gate.Prelude.{
  Bool, true, false, ◌&&◌, ◌||◌, not, List, [], ◌∷◌, ◌++◌, Option, none, some, if◌then◌else◌, ltb,
  ◌==◌, any,
}
use elite_gate.Text.{Text, Unicode, codes, is_empty, text_eq, split, trim_space}
use elite_gate.Middleware.{Net, IpChecker}

-- sort.Strings and strings.Join.
unfoldable text_le : Text → Text → Bool
text_le [] t = true
text_le (x ∷ s) [] = false
text_le (x ∷ s) (y ∷ t) = ltb x y || (x == y && text_le s t)

unfoldable insert_sorted : Text → List Text → List Text
unfolding text_le
insert_sorted s [] = s ∷ []
insert_sorted s (t ∷ ts) =
    let rest = insert_sorted s ts in if text_le s t then s ∷ t ∷ ts else t ∷ rest

unfoldable pub sort_strings : List Text → List Text
unfolding insert_sorted
sort_strings [] = []
sort_strings (s ∷ ss) = insert_sorted s (sort_strings ss)

unfoldable pub join : Text → List Text → Text
join sep [] = []
join sep (s ∷ []) = s
join sep (s ∷ t ∷ ts) = s ++ sep ++ join sep (t ∷ ts)

unfoldable pub rule_set_key : List Text → Text
unfolding sort_strings join
rule_set_key rules = join (codes ",") (sort_strings rules)

module _ {Ip Subnet : Type 0} (u : Unicode) (n : Net Ip Subnet) where
  abbrev parses : Text → Bool
  parses s = elim (n.parse_ip s) [ none ↦ false | some _ ↦ true ]

  abbrev or_valid : Option Text → Text → Option Text
  or_valid (some found) s = some found
  or_valid none s = if parses s then some s else none

  -- The loop over the parts of X-Forwarded-For, from the last to the first.
  unfoldable last_valid : List Text → Option Text
  last_valid [] = none
  last_valid (p ∷ ps) = or_valid (last_valid ps) (trim_space u p)

  unfoldable peer_ip : Text → Text
  peer_ip addr = elim (n.split_host_port addr) [ none ↦ trim_space u addr | some ip ↦ ip ]

  unfoldable real_ip : Text → Text → Text
  real_ip addr real =
      if not (is_empty real) && parses (trim_space u real) then trim_space u real else peer_ip addr

  abbrev or_real_ip : Text → Text → Option Text → Text
  or_real_ip addr real (some ip) = ip
  or_real_ip addr real none = real_ip addr real

  unfoldable pub extract_ip : Text → Option (Text → Text) → Bool → Text
  unfolding real_ip last_valid peer_ip
  extract_ip addr (some header) true =
      let xff = header (codes "X-Forwarded-For") in
      or_real_ip addr (header (codes "X-Real-IP"))
        (if is_empty xff then none else last_valid (split b',' xff))
  extract_ip addr (some header) false = peer_ip addr
  extract_ip addr none trust = peer_ip addr

  abbrev with_ip : IpChecker Subnet → Option Ip → Option (IpChecker Subnet)
  with_ip c none = none
  with_ip c (some ip) = some record c { allowed_ips = n.ip_string ip ∷ c.allowed_ips }

  -- none for the error.
  unfoldable add_pattern : IpChecker Subnet → Text → Option (IpChecker Subnet)
  add_pattern c pat = if is_empty pat then some c else elim (n.parse_cidr pat) [
    | some subnet ↦ some record c { allowed_subnets = c.allowed_subnets ++ subnet ∷ [] }
    | none ↦ with_ip c (n.parse_ip pat)
  ]

  unfoldable add_patterns : IpChecker Subnet → List Text → Option (IpChecker Subnet)
  add_patterns c [] = some c
  add_patterns c (p ∷ ps) = elim (add_pattern c (trim_space u p)) [
    | none ↦ none
    | some d ↦ add_patterns d ps
  ]

  unfoldable pub new_ip_checker : List Text → Option (IpChecker Subnet)
  unfolding add_patterns add_pattern
  new_ip_checker = add_patterns record { allowed_ips = []; allowed_subnets = [] }

  abbrev as_4 : Ip → Ip
  as_4 ip = elim (n.to_4 ip) [ none ↦ ip | some v4 ↦ v4 ]

  -- IsAllowed, and IsBlocked, which is the same.
  unfoldable pub is_allowed : IpChecker Subnet → Text → Bool
  is_allowed c ip_str = elim (n.parse_ip ip_str) [
    | none ↦ false
    | some ip ↦
        any (λ s. text_eq s (n.ip_string (as_4 ip))) c.allowed_ips
        || any (λ s. n.contains_ip s (as_4 ip)) c.allowed_subnets
  ]
