-- ===== src/DomainRepo/Ingress.antt =====
-- custom_domain_repo.go, GetActiveProjectGatewayIngress.
use elite_gate.Prelude.{
  ℕ, Bool, true, false, ◌&&◌, ◌||◌, not, List, [], ◌∷◌, Option, none, some, if◌then◌else◌, ltb,
  ◌==◌, all,
}
use elite_gate.Text.{Text}
use elite_gate.DomainRepo.{Store, GatewayRow, RepoError, gateway_ingress_not_ready, database_error}
use elite_gate.Table.{is_null}

pub record ProjectGatewayIngress : Type 0 where
  pub external_id : Text
  pub target_group_arn : Text

pub data IngressReply : Type 0 where
  ingress : ProjectGatewayIngress → IngressReply
  no_ingress : RepoError → IngressReply

-- target_group_arn IS NOT NULL AND BTRIM(target_group_arn) <> ''
abbrev pub is_set : Option Text → Bool
is_set none = false
is_set (some arn) = not (all (λ c. c == b' ') arn)

abbrev pub or_blank : Option Text → Text
or_blank none = []
or_blank (some arn) = arn

unfoldable pub serves : ℕ → GatewayRow → Bool
serves project g =
    g.project_id == project
    && is_null g.deleted_at
    && g.is_dedicated
    && g.is_active
    && g.is_completed
    && is_set g.target_group_arn

-- ORDER BY provisioned_at DESC NULLS LAST, created_at DESC
abbrev newer_by : Option ℕ → Option ℕ → ℕ → ℕ → Bool
newer_by none none c d = ltb d c
newer_by none (some _) c d = false
newer_by (some _) none c d = true
newer_by (some t) (some u) c d = ltb u t || (t == u && ltb d c)

abbrev newest : Option GatewayRow → GatewayRow → GatewayRow
newest none g = g
newest (some h) g =
    if newer_by h.provisioned_at g.provisioned_at h.created_at g.created_at then h else g

first_gateway : (GatewayRow → Bool) → List GatewayRow → Option GatewayRow
first_gateway test [] = none
first_gateway test (g ∷ gs) =
    let rest = first_gateway test gs in if test g then some (newest rest g) else rest

abbrev ingress_of : Option GatewayRow → IngressReply
ingress_of none = no_ingress gateway_ingress_not_ready
ingress_of (some g) =
    ingress (record { external_id = g.external_id; target_group_arn = or_blank g.target_group_arn })

unfoldable pub get_active_project_gateway_ingress : Store → ℕ → IngressReply
unfolding serves first_gateway
get_active_project_gateway_ingress db project =
    if db.up
    then ingress_of (first_gateway (serves project) db.gateways)
    else no_ingress database_error
