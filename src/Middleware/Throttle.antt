-- ===== src/Middleware/Throttle.antt =====
-- middleware/ratelimit.go.
use elite_gate.Prelude.{ℕ, ◌/◌, ◌^◌, ◌++◌, Option, none, some, not, if◌then◌else◌, ℤ, pos, int_le}
use elite_gate.Text.{Text, codes, is_empty}
use elite_gate.RateLimit.{RateResult}
use elite_gate.Router.{Route}
use elite_gate.Middleware.{GatewayConfig, World, Handler, Request, Reply, rate_reply, set_header}

module _ {S Ip Subnet : Type 0} (e : GatewayConfig S Ip Subnet) where
  abbrev pub limit_for : S → Option Route → ℤ
  limit_for s none = e.limiter.limit s
  limit_for s (some rt) = rt.rate_limit_rpm

  abbrev or_address : Text → Option Text → Text
  or_address addr none = addr
  or_address addr (some ip) = ip

  unfoldable pub limit_key : Request → Text
  limit_key r =
      (if is_empty r.context.client_id
        then or_address r.remote_addr (e.net.split_host_port r.remote_addr)
        else r.context.client_id)
      ++ codes ":"
      ++ r.path

  -- time.Time.Unix
  abbrev unix : ℕ → ℕ
  unix t = t / 10 ^ 9

  unfoldable pub rate_headers : ℤ → RateResult → World S Subnet → World S Subnet
  rate_headers limit result w =
      set_header (codes "X-RateLimit-Reset") (e.decimal (pos (unix result.reset_at))) (
        set_header (codes "X-RateLimit-Remaining") (e.decimal (pos result.remaining))
          (set_header (codes "X-RateLimit-Limit") (e.decimal limit) w))

  unfoldable pub too_many_requests : ℤ → RateResult → World S Subnet → World S Subnet × Reply
  too_many_requests limit result w = (
    set_header (codes "Content-Type") (codes "application/json")
        (set_header (codes "Retry-After") (codes "60") w),
    rate_reply limit (unix result.reset_at),
  )

  module _ (next : Handler S Subnet) where
    abbrev pub limited : ℤ → World S Subnet → Request → S × RateResult → World S Subnet × Reply
    limited limit w r (s, result) =
        let after = rate_headers limit result (record w { limiter_state = s }) in
        if not result.allowed then too_many_requests limit result after else next after r

    unfoldable pub rate_limit : Handler S Subnet
    rate_limit w r =
        let limit = limit_for w.limiter_state r.context.route in
        if int_le limit (pos 0)
        then next w r
        else limited limit w r
            (e.limiter.check_and_consume w.limiter_state e.now (limit_key r) limit)
