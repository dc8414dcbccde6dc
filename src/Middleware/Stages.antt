-- ===== src/Middleware/Stages.antt =====
-- The middlewares one by one: each answers itself or calls the next handler, and what held of the
-- request when it did.
use mathlib.Core.Path.{subst}
use elite_gate.Prelude.{
  and_true, ℕ, some_injective, ◌≡◌, refl, inl, inr, true, false, not, ◌&&◌, ◌||◌, List, Option,
  none, some, any,
}
use elite_gate.Text.{Text, codes, text_eq, is_empty, has_prefix, trim_prefix, trim_space}
use elite_gate.Router.{Route, match_http}
use elite_gate.Middleware.{
  GatewayConfig, World, Handler, Request, Context, Reply, no_content, set_header, Identity,
  DomainContext, IpChecker, http_json, error_reply,
}
use elite_gate.Middleware.IpFilter.{
  is_nil, get_checker, misses_ip, matches_ip, filter_for, check_blocklist, check_allowlist,
}
use elite_gate.Middleware.Matching.{
  is_preflight, in_domain, method_to_match, forward_matched, route_matcher, lookup_domain,
  host_of_request,
}
use elite_gate.Middleware.Cors.{
  Found, wildcard, the_origin, no_origin, find_origin, allow_any, allow_origin, preflight_headers,
  after_origin, for_origin, cors_for,
}
use elite_gate.Middleware.Access.{
  is_public_path, permits_role, permits_scopes, is_client, with_identity, by_token, by_key,
  as_client, authenticate, auth,
}
use elite_gate.Middleware.Stops.{
  is_answer, Stays, stays, Stays-trans, set_header-Stays, add_header-Stays, get_checker-Stays,
  if_holds,
}
use elite_gate.Middleware.Facts.{
  Origin, no_policy, no_header, permitted, Credential, by_jwt, by_api_key, Entry, is_public,
  before_flight, is_open, is_known, Filtered, no_rules, passes, routed, negated_false, negated_true,
  or_cases, find_origin-any,
}

module _ {S Ip Subnet : Type 0} (e : GatewayConfig S Ip Subnet) (next : Handler S Subnet)
    (P : World S Subnet × Reply → Type 0) (w : World S Subnet)
    (stop : (v : World S Subnet) (s : Reply) → Stays w v → is_answer s ≡ true → P (v, s)) where
  http_json-stops :
      (status : ℕ) (message : Text) (v : World S Subnet)
      → Stays w v
      → P (http_json status message v)
  unfolding http_json
  http_json-stops status message v k =
      stop _ (error_reply status message) (Stays-trans w v _ k (set_header-Stays _ _ v)) refl

  check_allowlist-holds :
      (r : Request) (ip : Text) (o : World S Subnet × Option (IpChecker Subnet))
      → Stays w o.0
      → ((v : World S Subnet) → Stays w v → misses_ip e o.1 ip ≡ false → P (next v r))
      → P (check_allowlist e next r ip o)
  check_allowlist-holds r ip (v, c) k go =
      if_holds P (misses_ip e c ip) _ _ (λ m. http_json-stops _ _ v k) (λ m. go v k m)

  check_blocklist-holds :
      (r : Request) (ip : Text) (rules : List Text) (o : World S Subnet × Option (IpChecker Subnet))
      → Stays w o.0
      → ((v : World S Subnet)
          → Stays w v
          → matches_ip e o.1 ip ≡ false
          → misses_ip e (get_checker e o.0 rules).1 ip ≡ false
          → P (next v r))
      → P (check_blocklist e next r ip rules o)
  check_blocklist-holds r ip rules (v, c) k go =
      if_holds P (matches_ip e c ip) _ _ (λ m. http_json-stops _ _ v k)
        (λ m.
          check_allowlist-holds r ip _ (Stays-trans w v _ k (get_checker-Stays e v rules))
            (λ x l n. go x l m n))

  pub filter_for-holds :
      (r : Request) (rt : Route)
      → ((v : World S Subnet) → Stays w v → Filtered e w rt r → P (next v r))
      → P (filter_for e next w r (some rt))
  filter_for-holds r rt go =
      if_holds P (is_nil rt.ip_allowlist && is_nil rt.ip_blocklist) _ _
        (λ m. let both = and_true _ _ m in go w (stays w) (no_rules both.0 both.1))
        (λ m.
          check_blocklist-holds r _ _ _ (get_checker-Stays e w rt.ip_blocklist)
            (λ v k blocked missed. go v k (passes blocked missed)))

  pub route_matcher-holds :
      (r : Request)
      → ((rt : Route) (c : Context)
          → match_http e.unicode r.path (method_to_match e r) e.routes ≡ some rt
          → P (next w (routed r c rt)))
      → P (route_matcher e next w r)
  unfolding route_matcher method_to_match
  route_matcher-holds r go = in_any (lookup_domain e (host_of_request r))
    where
      forwarded :
          (c : Context) (o : Option Route)
          → match_http e.unicode r.path (method_to_match e r) e.routes ≡ o
          → P (forward_matched e next w (record r { context = c }) o)
      forwarded c none m = http_json-stops _ _ w (stays w)
      forwarded c (some rt) m = go rt c m

      in_any :
          (d : Option DomainContext)
          → P (
              forward_matched e next w (in_domain r d) (
                match_http e.unicode
                  (in_domain r d).path
                  (method_to_match e (in_domain r d))
                  e.routes))
      in_any none = forwarded r.context _ refl
      in_any (some d) = forwarded (record r.context { custom_domain = some d }) _ refl

  module _ (r : Request) (rt : Route) where
    after_origin-holds :
        (v : World S Subnet)
        → Stays w v
        → any
            (λ o. text_eq o (codes "*") || text_eq o (r.header (codes "Origin")))
            rt.allowed_origins
          ≡ true
        → ((v : World S Subnet) → Stays w v → Origin rt r → P (next v r))
        → P (after_origin e next rt v r)
    unfolding preflight_headers set_header
    after_origin-holds v k found go =
        if_holds P (text_eq r.method (codes "OPTIONS")) _ _
          (λ m.
            stop _ no_content (record { limiter_kept = k.limiter_kept; cache_kept = k.cache_kept })
              refl)
          (λ m. go v k (permitted found m))

    for_origin-holds :
        (v : World S Subnet) (f : Found)
        → Stays w v
        → find_origin (r.header (codes "Origin")) rt.allowed_origins ≡ f
        → ((v : World S Subnet) → Stays w v → Origin rt r → P (next v r))
        → P (for_origin e next rt v r f)
    unfolding allow_any allow_origin
    for_origin-holds v no_origin k m go = http_json-stops _ _ v k
    for_origin-holds v wildcard k m go =
        after_origin-holds _ (Stays-trans w v _ k (set_header-Stays _ _ v))
          (find_origin-any _ _ wildcard m (λ n. cc)) go
    for_origin-holds v the_origin k m go =
        after_origin-holds _
          (Stays-trans w v _ k
            (Stays-trans v _ _ (set_header-Stays _ _ v) (set_header-Stays _ _ _)))
          (find_origin-any _ _ the_origin m (λ n. cc)) go

    pub cors_for-holds :
        ((v : World S Subnet) → Stays w v → Origin rt r → P (next v r))
        → P (cors_for e next w r (some rt))
    cors_for-holds go =
        if_holds P (is_nil rt.allowed_origins) _ _ (λ m. go w (stays w) (no_policy m))
          (λ n.
            if_holds P (is_empty (r.header (codes "Origin"))) _ _
              (λ m. go _ (add_header-Stays _ _ w) (no_header m))
              (λ m. for_origin-holds _ _ (add_header-Stays _ _ w) refl go))

  module _ (r : Request) (c : Context) (rt : Route) where
    identity-holds :
        (message : Text) (o : Option Identity)
        → ((i : Identity) → o ≡ some i → Credential e (routed r c rt) i)
        → ((q : Request) → Entry e rt (routed r c rt) q → P (next w q))
        → P (with_identity e next w (routed r c rt) message o)
    identity-holds message none known go = http_json-stops _ _ w (stays w)
    identity-holds message (some i) known go =
        if_holds P (not (permits_role rt i)) _ _ (λ m. http_json-stops _ _ w (stays w))
          (λ a.
            if_holds P (not (permits_scopes rt i)) _ _ (λ m. http_json-stops _ _ w (stays w))
              (λ b. go _ (is_known i (known i refl) (negated_false a) (negated_false b))))

    token-holds :
        (o : Option (Text → Option Identity))
        → e.jwt_validator ≡ o
        → has_prefix (r.header (codes "Authorization")) (codes "Bearer ") ≡ true
        → ((q : Request) → Entry e rt (routed r c rt) q → P (next w q))
        → P (
            by_token e next w
              (routed r c rt)
              (trim_space e.unicode
                (trim_prefix (r.header (codes "Authorization")) (codes "Bearer ")))
              o)
    token-holds none m bearer go = http_json-stops _ _ w (stays w)
    token-holds (some validate) m bearer go =
        if_holds P
          (is_empty (
            trim_space e.unicode
              (trim_prefix (r.header (codes "Authorization")) (codes "Bearer "))))
          _ _ (λ n. http_json-stops _ _ w (stays w))
          (λ n. identity-holds _ _ (λ i known. by_jwt validate i m bearer known) go)

    key-holds :
        (o : Option (Text → Option Identity))
        → e.key_store ≡ o
        → ((q : Request) → Entry e rt (routed r c rt) q → P (next w q))
        → P (
            by_key e next w (routed r c rt) (trim_space e.unicode (r.header (codes "X-API-Key"))) o)
    key-holds none m go = http_json-stops _ _ w (stays w)
    key-holds (some validate) m go =
        if_holds P (is_empty (trim_space e.unicode (r.header (codes "X-API-Key")))) _ _
          (λ n. http_json-stops _ _ w (stays w)) (λ n. as_client-holds _ refl)
      where
        as_client-holds :
            (o : Option Identity)
            → validate (trim_space e.unicode (r.header (codes "X-API-Key"))) ≡ o
            → P (with_identity e next w (routed r c rt) (codes "invalid api key") (as_client o))
        as_client-holds none k = http_json-stops _ _ w (stays w)
        as_client-holds (some i) k =
            identity-holds (codes "invalid api key") (some (is_client i))
              (λ j same.
                subst (Credential e (routed r c rt)) (some_injective same)
                  (by_api_key validate i m k))
              go

    pub auth-holds :
        ((q : Request) → Entry e rt (routed r c rt) q → P (next w q))
        → P (auth e next w (routed r c rt))
    unfolding auth authenticate
    auth-holds go =
        if_holds P (is_public_path r.path || is_preflight e (routed r c rt)) _ _
          (λ m. elim (or_cases _ _ m) [
            | inl p ↦ go _ (is_public p)
            | inr p ↦ go _ (before_flight p)
          ])
          (λ n.
            if_holds P (not rt.auth_required) _ _ (λ m. go _ (is_open (negated_true m)))
              (λ m.
                if_holds P (has_prefix (r.header (codes "Authorization")) (codes "Bearer ")) _ _
                  (λ bearer. token-holds _ refl bearer go) (λ other. key-holds _ refl go)))
