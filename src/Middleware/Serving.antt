-- ===== src/Middleware/Serving.antt =====
-- internal/gateway/router.go: the handler of "/" in NewRouter, up to the proxy.
use elite_gate.Prelude.{[], ◌∷◌}
use elite_gate.Middleware.{GatewayConfig, Handler, proxied, chain}
use elite_gate.Middleware.Matching.{route_matcher}
use elite_gate.Middleware.IpFilter.{ip_filter}
use elite_gate.Middleware.Cors.{cors}
use elite_gate.Middleware.Access.{auth}
use elite_gate.Middleware.Throttle.{rate_limit}

module _ {S Ip Subnet : Type 0} (e : GatewayConfig S Ip Subnet) where
  -- The place of the proxy.
  abbrev pub proxy : Handler S Subnet
  proxy w r = (w, proxied r)

  unfoldable pub customer_handler : Handler S Subnet
  customer_handler =
      chain proxy (route_matcher e ∷ ip_filter e ∷ cors e ∷ auth e ∷ rate_limit e ∷ [])
