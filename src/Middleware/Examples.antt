-- ===== src/Middleware/Examples.antt =====
-- The theorems on a request with a key, and on one without.
use elite_gate.Prelude.{◌≡◌, refl, true, false, [], ◌∷◌, none, some, pos, if◌then◌else◌, arith}
use elite_gate.Text.{
  Text, codes, plain, text_eq, is_empty, has_prefix, trim_space, trim_left, trim_right,
}
use elite_gate.TextMap.{lookup, insert}
use elite_gate.RateLimit.{MemoryLimiter, check_and_consume, trim}
use elite_gate.Router.{Route, match_http, consider_all, consider, match_method, match_score}
use elite_gate.Middleware.{
  Net, Limiter, GatewayConfig, World, Request, Context, Identity, http_json,
}
use elite_gate.Middleware.IpRules.{extract_ip, rule_set_key, new_ip_checker, is_allowed}
use elite_gate.Middleware.IpFilter.{ip_filter, get_checker, remember}
use elite_gate.Middleware.Matching.{route_matcher, lookup_domain, is_preflight, method_to_match}
use elite_gate.Middleware.Cors.{cors}
use elite_gate.Middleware.Access.{auth, authenticate, is_public_path, has_all_scopes}
use elite_gate.Middleware.Throttle.{rate_limit, limit_key}
use elite_gate.Middleware.Stops.{IsSmall}
use elite_gate.Middleware.Serving.{customer_handler}
use elite_gate.Middleware.Admission.{customer_handler-limiter_state, customer_handler-IsSmall}

abbrev orders : Route
orders = record {
  id = codes "r";
  project_id = codes "p";
  name = codes "orders";
  path = codes "/orders";
  upstream_id = none;
  upstream_url = [];
  methods = codes "GET" ∷ [];
  protocol = codes "http";
  match_type = codes "prefix";
  enabled = true;
  policy_id = none;
  auth_required = true;
  rate_limit_rpm = pos 2;
  allowed_origins = [];
  allowed_roles = codes "client" ∷ [];
  allowed_scopes = codes "read" ∷ [];
  ip_allowlist = [];
  ip_blocklist = codes "8" ∷ [];
  created_at = 0;
  updated_at = 0;
}

abbrev whole_texts : Net Text Text
whole_texts = record {
  parse_ip = λ s. if is_empty s then none else some s;
  to_4 = λ ip. none;
  ip_string = λ ip. ip;
  parse_cidr = λ s. none;
  contains_ip = λ n ip. false;
  split_host_port = λ s. none;
}

abbrev memory : Limiter MemoryLimiter
memory = record { limit = λ m. m.requests_per_min; check_and_consume = check_and_consume }

abbrev reader : Identity
reader = record { client_id = codes "ann"; role = []; scopes = codes "read" ∷ [] }

abbrev config : GatewayConfig MemoryLimiter Text Text
config = record {
  now = 7;
  unicode = plain;
  decimal = λ n. [];
  net = whole_texts;
  limiter = memory;
  jwt_validator = none;
  key_store = some (λ key. if text_eq key (codes "k1") then some reader else none);
  routes = orders ∷ [];
  domain_map = [];
}

abbrev empty_context : Context
empty_context = record {
  route = none;
  custom_domain = none;
  client_id = [];
  role = [];
  scopes = [];
}

abbrev with_key : Text → Request
with_key key = record {
  path = codes "/orders";
  method = codes "GET";
  host = codes "shop";
  remote_addr = codes "9";
  header = λ name. if text_eq name (codes "X-API-Key") then key else [];
  context = empty_context;
}

abbrev known_reader : Request
known_reader = record (with_key (codes "k1")) {
  context = record {
    route = some orders;
    custom_domain = none;
    client_id = codes "ann";
    role = codes "client";
    scopes = codes "read" ∷ [];
  };
}

abbrev fresh : World MemoryLimiter Text
fresh = record {
  limiter_state = record { requests = []; requests_per_min = pos 60 };
  cache = [];
  headers = [];
}

customer_handler-limiter_state_example :
    (customer_handler config fresh (with_key (codes "k2"))).0.limiter_state ≡ fresh.limiter_state
unfolding customer_handler route_matcher lookup_domain method_to_match is_preflight match_http
    consider_all consider match_method match_score ip_filter get_checker remember rule_set_key
    new_ip_checker is_allowed extract_ip cors auth authenticate is_public_path has_all_scopes
    rate_limit limit_key check_and_consume text_eq has_prefix trim_space trim_left trim_right trim
    lookup insert http_json
customer_handler-limiter_state_example =
    customer_handler-limiter_state config fresh (with_key (codes "k2")) refl

customer_handler-IsSmall_example :
    IsSmall (customer_handler config fresh (with_key (codes "k1"))).0.cache
customer_handler-IsSmall_example =
    customer_handler-IsSmall config fresh (with_key (codes "k1")) (omega arith)
