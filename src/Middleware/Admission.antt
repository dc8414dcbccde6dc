-- ===== src/Middleware/Admission.antt =====
-- internal/gateway/router.go: what holds of a request that the handler of "/" gives to the proxy,
-- and what the requests that it answers itself leave behind.
use elite_gate.Prelude.{ℕ, ℤ, ◌≡◌, refl, sym, ◌∙◌, ap, true, not, some, true_not_false, pos, int_le}
use mathlib.Core.Path.{subst}
use elite_gate.Text.{Text}
use elite_gate.RateLimit.{RateResult}
use elite_gate.Router.{Route, match_http}
use elite_gate.Middleware.{
  GatewayConfig, World, Request, Context, Reply, proxied, rate_reply, set_header,
}
use elite_gate.Middleware.IpFilter.{is_nil, ip_filter}
use elite_gate.Middleware.Matching.{is_preflight, method_to_match}
use elite_gate.Middleware.Cors.{cors}
use elite_gate.Middleware.Access.{auth}
use elite_gate.Middleware.Throttle.{
  limit_for, limit_key, rate_headers, too_many_requests, limited, rate_limit,
}
use elite_gate.Middleware.Stops.{is_answer, IsSmall, Stays, Stays-trans, if_holds}
use elite_gate.Middleware.Facts.{Origin, Entry, routed, Filtered, negated_false}
use elite_gate.Middleware.Rules.{Address}
use elite_gate.Middleware.Stages.{filter_for-holds, route_matcher-holds, cors_for-holds, auth-holds}
use elite_gate.Middleware.Serving.{proxy, customer_handler}

module _ {S Ip Subnet : Type 0} (e : GatewayConfig S Ip Subnet) where
  -- The limit of the request's route is none, or the limiter grants the request.
  pub data Budget (s : S) (q : Request) : Type 0 where
    no_limit : int_le (limit_for e s q.context.route) (pos 0) ≡ true → Budget s q
    granted :
        (e.limiter.check_and_consume s e.now
            (limit_key e q)
            (limit_for e s q.context.route)).1.allowed
          ≡ true
        → Budget s q

  pub record Admitted (w : World S Subnet) (r q : Request) : Type 0 where
    pub route : Route
    pub context : Context
    pub matched : match_http e.unicode r.path (method_to_match e r) e.routes ≡ some route
    pub address : Address e route (routed r context route)
    pub origin : Origin route (routed r context route)
    pub entry : Entry e route (routed r context route) q
    pub preflight_needs_no_policy : is_preflight e r ≡ true → is_nil route.allowed_origins ≡ true
    pub budget : Budget w.limiter_state q

  -- The chain: its first five middlewares answer, or the limiter is asked.
  customer_handler-holds :
      (P : World S Subnet × Reply → Type 0) (w : World S Subnet) (r : Request)
      → ((v : World S Subnet) (s : Reply) → Stays w v → is_answer s ≡ true → P (v, s))
      → ((v : World S Subnet) (rt : Route) (c : Context) (q : Request)
          → Stays w v
          → match_http e.unicode r.path (method_to_match e r) e.routes ≡ some rt
          → Filtered e w rt (routed r c rt)
          → Origin rt (routed r c rt)
          → Entry e rt (routed r c rt) q
          → P (rate_limit e (proxy e) v q))
      → P (customer_handler e w r)
  unfolding customer_handler cors ip_filter
  customer_handler-holds P w r stop go = route_matcher-holds e _ P w stop r (λ rt c m.
      filter_for-holds e (cors e (auth e (rate_limit e (proxy e)))) P w stop (routed r c rt) rt
        (λ v k d.
          cors_for-holds e (auth e (rate_limit e (proxy e))) P v
            (λ x s l. stop x s (Stays-trans w v x k l)) (routed r c rt) rt
            (λ x l o.
              let kept = Stays-trans w v x k l in
              auth-holds e (rate_limit e (proxy e)) P x
                (λ y s j. stop y s (Stays-trans w x y kept j)) r c rt
                (λ q n. go x rt c q kept m d o n))))

  rate_limit-holds :
      (P : World S Subnet × Reply → Type 0) (v : World S Subnet) (p : Request)
      → (Budget v.limiter_state p → P (v, proxied p))
      → ((x : World S Subnet) → x.cache ≡ v.cache → Budget v.limiter_state p → P (x, proxied p))
      → ((x : World S Subnet) (l : ℤ) (t : ℕ) → x.cache ≡ v.cache → P (x, rate_reply l t))
      → P (rate_limit e (proxy e) v p)
  unfolding rate_limit too_many_requests rate_headers set_header
  rate_limit-holds P v p free grant refuse =
      if_holds P (int_le (limit_for e v.limiter_state p.context.route) (pos 0)) _ _
        (λ m. free (no_limit m)) (λ m. asked _ refl)
    where
      asked :
          (o : S × RateResult)
          → e.limiter.check_and_consume v.limiter_state e.now
              (limit_key e p)
              (limit_for e v.limiter_state p.context.route)
            ≡ o
          → P (limited e (proxy e) (limit_for e v.limiter_state p.context.route) v p o)
      asked (s, result) m =
          if_holds P (not result.allowed) _ _ (λ n. refuse _ _ _ refl)
            (λ n. grant _ refl (granted (ap (λ o. o.1.allowed) m ∙ negated_false n)))

  -- A request that the chain answers before the limiter, with an error or a preflight response,
  -- leaves the limiter as it was.
  pub customer_handler-limiter_state :
      (w : World S Subnet) (r : Request)
      → is_answer (customer_handler e w r).1 ≡ true
      → (customer_handler e w r).0.limiter_state ≡ w.limiter_state
  customer_handler-limiter_state w r =
      let P : World S Subnet × Reply → Type 0 =
        λ o. is_answer o.1 ≡ true → o.0.limiter_state ≡ w.limiter_state in
      customer_handler-holds P w r (λ v s k a h. k.limiter_kept)
        (λ v rt c p k m d o n.
          rate_limit-holds P v p (λ b h. absurd (true_not_false (sym h)))
            (λ x j b h. absurd (true_not_false (sym h)))
            (λ x l t j h. absurd (true_not_false (sym h))))

  -- A request leaves at most 5000 rule sets in the cache of the IP filter, if it finds at most as
  -- many.
  pub customer_handler-IsSmall :
      (w : World S Subnet) (r : Request)
      → IsSmall w.cache
      → IsSmall (customer_handler e w r).0.cache
  customer_handler-IsSmall w r h =
      let P : World S Subnet × Reply → Type 0 = λ o. IsSmall o.0.cache in
      customer_handler-holds P w r (λ v s k a. k.cache_kept h)
        (λ v rt c p k m d o n.
          rate_limit-holds P v p (λ b. k.cache_kept h)
            (λ x j b. subst IsSmall (sym j) (k.cache_kept h))
            (λ x l t j. subst IsSmall (sym j) (k.cache_kept h)))
