-- ===== src/Middleware/Matching.antt =====
-- middleware/routeMatch.go, and NormalizeHost and LookupDomain of internal/gateway/runtime/config.go.
use elite_gate.Prelude.{Bool, false, ◌&&◌, not, Option, none, some, if◌then◌else◌}
use elite_gate.Text.{Text, codes, text_eq, is_empty, trim_space, to_lower, to_upper, trim_suffix}
use elite_gate.TextMap.{lookup}
use elite_gate.Router.{Route, match_http}
use elite_gate.Middleware.{GatewayConfig, World, Handler, Request, Reply, DomainContext, http_json}
use elite_gate.Middleware.IpFilter.{is_nil}

abbrev pub host_of_request : Request → Text
host_of_request r = if is_empty r.host then r.header (codes "Host") else r.host

abbrev pub in_domain : Request → Option DomainContext → Request
in_domain r none = r
in_domain r (some d) = record r { context = record r.context { custom_domain = some d } }

module _ {S Ip Subnet : Type 0} (e : GatewayConfig S Ip Subnet) where
  unfoldable pub is_preflight : Request → Bool
  is_preflight r =
      if not (text_eq r.method (codes "OPTIONS"))
      then false
      else not (is_empty (trim_space e.unicode (r.header (codes "Origin"))))
        && not (is_empty (trim_space e.unicode (r.header (codes "Access-Control-Request-Method"))))

  abbrev or_whole : Text → Option Text → Text
  or_whole host none = host
  or_whole host (some h) = h

  unfoldable pub normalize_host : Text → Text
  normalize_host host =
      let h = trim_suffix b'.' (to_lower e.unicode (trim_space e.unicode host)) in
      trim_suffix b'.' (or_whole h (e.net.split_host_port h))

  unfoldable pub lookup_domain : Text → Option DomainContext
  lookup_domain host =
      if is_nil e.domain_map then none else lookup (normalize_host host) e.domain_map

  unfoldable pub method_to_match : Request → Text
  unfolding is_preflight
  method_to_match r =
      let acrm =
        to_upper e.unicode
          (trim_space e.unicode (r.header (codes "Access-Control-Request-Method"))) in
      if is_preflight r && not (is_empty acrm) then acrm else r.method

  module _ (next : Handler S Subnet) where
    abbrev pub forward_matched : World S Subnet → Request → Option Route → World S Subnet × Reply
    forward_matched w r none = http_json 404 (codes "route not found") w
    forward_matched w r (some rt) =
        next w (record r { context = record r.context { route = some rt } })

    unfoldable pub route_matcher : Handler S Subnet
    route_matcher w r =
        let req = in_domain r (lookup_domain (host_of_request r)) in
        forward_matched w req (match_http e.unicode req.path (method_to_match req) e.routes)
