-- ===== src/Middleware/Cors.antt =====
-- middleware/cors.go.
use elite_gate.Prelude.{◌||◌, [], ◌∷◌, List, Option, none, some, if◌then◌else◌, any}
use elite_gate.Text.{Text, codes, text_eq, is_empty, equal_fold}
use elite_gate.Router.{Route}
use elite_gate.Middleware.{
  GatewayConfig, World, Handler, Request, Reply, no_content, set_header, add_header, http_json,
}
use elite_gate.Middleware.IpFilter.{is_nil}
use elite_gate.Middleware.IpRules.{join}

-- What the loop over the allowed origins finds first.
pub data Found : Type 0 where
  wildcard : Found
  the_origin : Found
  no_origin : Found

unfoldable pub find_origin : Text → List Text → Found
find_origin origin [] = no_origin
find_origin origin (o ∷ os) =
    let rest = find_origin origin os in
    if text_eq o (codes "*") then wildcard else if text_eq o origin then the_origin else rest

module _ {S Ip Subnet : Type 0} (e : GatewayConfig S Ip Subnet) where
  unfoldable pub allowed_methods : List Text → Text
  allowed_methods ms =
      if is_nil ms || any (λ m. equal_fold e.unicode m (codes "ANY")) ms
      then codes "GET, POST, PUT, DELETE, PATCH, OPTIONS, HEAD"
      else join (codes ", ") ms

  unfoldable pub allowed_headers : Text → Text
  allowed_headers requested =
      if is_empty requested then codes "Content-Type, Authorization, X-API-Key" else requested

  unfoldable pub preflight_headers : Route → Request → World S Subnet → World S Subnet
  preflight_headers rt r w = set_header (codes "Access-Control-Max-Age") (codes "7200") (
      set_header (codes "Access-Control-Allow-Headers")
        (allowed_headers (r.header (codes "Access-Control-Request-Headers")))
        (set_header (codes "Access-Control-Allow-Methods") (allowed_methods rt.methods) w))

  unfoldable pub allow_any : World S Subnet → World S Subnet
  allow_any = set_header (codes "Access-Control-Allow-Origin") (codes "*")

  unfoldable pub allow_origin : Text → World S Subnet → World S Subnet
  allow_origin origin w =
      set_header (codes "Access-Control-Allow-Credentials") (codes "true")
        (set_header (codes "Access-Control-Allow-Origin") origin w)

  module _ (next : Handler S Subnet) where
    abbrev pub after_origin : Route → World S Subnet → Request → World S Subnet × Reply
    after_origin rt w r =
        if text_eq r.method (codes "OPTIONS")
        then (preflight_headers rt r w, no_content)
        else next w r

    abbrev pub for_origin : Route → World S Subnet → Request → Found → World S Subnet × Reply
    for_origin rt w r no_origin = http_json 403 (codes "CORS origin not allowed") w
    for_origin rt w r wildcard = after_origin rt (allow_any w) r
    for_origin rt w r the_origin = after_origin rt (allow_origin (r.header (codes "Origin")) w) r

    abbrev pub with_vary : World S Subnet → World S Subnet
    with_vary = add_header (codes "Vary") (codes "Origin")

    abbrev pub cors_for : World S Subnet → Request → Option Route → World S Subnet × Reply
    cors_for w r none = next w r
    cors_for w r (some rt) =
        if is_nil rt.allowed_origins
        then next w r
        else if is_empty (r.header (codes "Origin"))
        then next (with_vary w) r
        else for_origin rt (with_vary w) r
            (find_origin (r.header (codes "Origin")) rt.allowed_origins)

    unfoldable pub cors : Handler S Subnet
    cors w r = cors_for w r r.context.route
