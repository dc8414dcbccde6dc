-- ===== src/Middleware/Facts.antt =====
-- What each middleware has seen of a request that it forwards.
use elite_gate.Prelude.{
  ◌≢◌, ◌≡◌, sym, ◌⊎◌, Bool, true, false, not, ◌||◌, [], ◌∷◌, List, Option, some, any, arith,
}
use elite_gate.Text.{Text, codes, text_eq, is_empty, has_prefix, trim_prefix, trim_space}
use elite_gate.Router.{Route}
use elite_gate.Middleware.{GatewayConfig, World, Request, Context, Identity}
use elite_gate.Middleware.IpFilter.{is_nil, get_checker, misses_ip, matches_ip}
use elite_gate.Middleware.Matching.{is_preflight}
use elite_gate.Middleware.Cors.{Found, no_origin, find_origin}
use elite_gate.Middleware.Access.{
  is_public_path, permits_role, permits_scopes, identified, is_client,
}
use elite_gate.Middleware.IpRules.{extract_ip}

-- What CORS has seen of a request that it forwards.
pub data Origin (rt : Route) (r : Request) : Type 0 where
  no_policy : is_nil rt.allowed_origins ≡ true → Origin rt r
  no_header : is_empty (r.header (codes "Origin")) ≡ true → Origin rt r
  permitted :
      any (λ o. text_eq o (codes "*") || text_eq o (r.header (codes "Origin"))) rt.allowed_origins
        ≡ true
      → text_eq r.method (codes "OPTIONS") ≡ false
      → Origin rt r

module _ {S Ip Subnet : Type 0} (e : GatewayConfig S Ip Subnet) where
  -- What the filter has seen of the address of a request that it forwards: the rules of the route are
  -- the ones that the cache answers for them.
  pub data Filtered (w : World S Subnet) (rt : Route) (r : Request) : Type 0 where
    no_rules : is_nil rt.ip_allowlist ≡ true → is_nil rt.ip_blocklist ≡ true → Filtered w rt r
    passes :
        matches_ip e
            (get_checker e w rt.ip_blocklist).1
            (extract_ip e.unicode e.net r.remote_addr (some r.header) false)
          ≡ false
        → misses_ip e
            (get_checker e (get_checker e w rt.ip_blocklist).0 rt.ip_allowlist).1
            (extract_ip e.unicode e.net r.remote_addr (some r.header) false)
          ≡ false
        → Filtered w rt r

  -- Who sent a request: the bearer of a token that the validator accepts, or of a key.
  pub data Credential (r : Request) : Identity → Type 0 where
    by_jwt :
        (validate : Text → Option Identity) (i : Identity)
        → e.jwt_validator ≡ some validate
        → has_prefix (r.header (codes "Authorization")) (codes "Bearer ") ≡ true
        → validate (
            trim_space e.unicode (trim_prefix (r.header (codes "Authorization")) (codes "Bearer ")))
          ≡ some i
        → Credential r i
    by_api_key :
        (validate : Text → Option Identity) (i : Identity)
        → e.key_store ≡ some validate
        → validate (trim_space e.unicode (r.header (codes "X-API-Key"))) ≡ some i
        → Credential r (is_client i)

  -- Why a request for a route is let in, and the request that is passed on.
  pub data Entry (rt : Route) (r : Request) : Request → Type 0 where
    is_public : is_public_path r.path ≡ true → Entry rt r r
    before_flight : is_preflight e r ≡ true → Entry rt r r
    is_open : rt.auth_required ≡ false → Entry rt r r
    is_known :
        (i : Identity)
        → Credential r i
        → permits_role rt i ≡ true
        → permits_scopes rt i ≡ true
        → Entry rt r (identified r i)

-- A request with the values of a context and its route.
abbrev pub routed : Request → Context → Route → Request
routed r c rt = record r { context = record c { route = some rt } }

pub negated_false : {b : Bool} → not b ≡ false → b ≡ true
negated_false {b} h = ground arith

pub negated_true : {b : Bool} → not b ≡ true → b ≡ false
negated_true {b} h = ground arith

pub or_cases : (a b : Bool) → (a || b) ≡ true → (a ≡ true) ⊎ (b ≡ true)
or_cases a b h = ground arith

pub find_origin-any :
    (origin : Text) (os : List Text) (f : Found)
    → find_origin origin os ≡ f
    → f ≢ no_origin
    → any (λ o. text_eq o (codes "*") || text_eq o origin) os ≡ true
unfolding find_origin
find_origin-any origin [] f m n = absurd (n (sym m))
find_origin-any origin (o ∷ os) f m n = ground (arith, find_origin-any origin os f)
