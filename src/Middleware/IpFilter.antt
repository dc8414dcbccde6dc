-- ===== src/Middleware/IpFilter.antt =====
-- middleware/ip_filter.go: the cache of checkers and IPFilterMiddleware.
use elite_gate.Prelude.{
  Bool, true, false, ◌&&◌, not, List, [], ◌∷◌, Option, none, some, if◌then◌else◌, leb, length,
}
use elite_gate.Text.{Text, codes}
use elite_gate.TextMap.{lookup, insert}
use elite_gate.Router.{Route}
use elite_gate.Middleware.{IpChecker, GatewayConfig, World, Handler, Request, Reply, http_json}
use elite_gate.Middleware.IpRules.{rule_set_key, new_ip_checker, is_allowed, extract_ip}

abbrev pub is_nil {ℓ} : {A : Type ℓ} → List A → Bool
is_nil [] = true
is_nil (x ∷ xs) = false

module _ {S Ip Subnet : Type 0} (e : GatewayConfig S Ip Subnet) where
  -- The cache is emptied when it holds 5000 rule sets.
  unfoldable pub remember : World S Subnet → Text → IpChecker Subnet → World S Subnet
  remember w key c =
      if leb 5000 (length w.cache)
      then record w { cache = insert key c [] }
      else record w { cache = insert key c w.cache }

  abbrev pub remembered :
      World S Subnet → Text → Option (IpChecker Subnet) → World S Subnet × Option (IpChecker Subnet)
  remembered w key none = (w, none)
  remembered w key (some c) = (remember w key c, some c)

  abbrev pub cached :
      World S Subnet
      → List Text
      → Option (IpChecker Subnet)
      → World S Subnet × Option (IpChecker Subnet)
  cached w rules (some c) = (w, some c)
  cached w rules none = remembered w (rule_set_key rules) (new_ip_checker e.unicode e.net rules)

  unfoldable pub get_checker :
      World S Subnet → List Text → World S Subnet × Option (IpChecker Subnet)
  get_checker w rules =
      if is_nil rules then (w, none) else cached w rules (lookup (rule_set_key rules) w.cache)

  abbrev pub matches_ip : Option (IpChecker Subnet) → Text → Bool
  matches_ip none ip = false
  matches_ip (some c) ip = is_allowed e.unicode e.net c ip

  abbrev pub misses_ip : Option (IpChecker Subnet) → Text → Bool
  misses_ip none ip = false
  misses_ip (some c) ip = not (is_allowed e.unicode e.net c ip)

  module _ (next : Handler S Subnet) where
    abbrev pub check_allowlist :
        Request → Text → World S Subnet × Option (IpChecker Subnet) → World S Subnet × Reply
    check_allowlist r ip (w, allowlist) =
        if misses_ip allowlist ip
        then http_json 403 (codes "IP address not in allowlist") w
        else next w r

    abbrev pub check_blocklist :
        Request
        → Text
        → List Text
        → World S Subnet × Option (IpChecker Subnet)
        → World S Subnet × Reply
    check_blocklist r ip allowed (w, blocklist) =
        if matches_ip blocklist ip
        then http_json 403 (codes "IP address blocked by policy") w
        else check_allowlist r ip (get_checker w allowed)

    abbrev pub filter_for : World S Subnet → Request → Option Route → World S Subnet × Reply
    filter_for w r none = next w r
    filter_for w r (some rt) =
        if is_nil rt.ip_allowlist && is_nil rt.ip_blocklist
        then next w r
        else check_blocklist r (extract_ip e.unicode e.net r.remote_addr (some r.header) false)
            rt.ip_allowlist (get_checker w rt.ip_blocklist)

    unfoldable pub ip_filter : Handler S Subnet
    ip_filter w r = filter_for w r r.context.route
