-- ===== src/Gateways.antt =====
-- internal/storage: the rows of gateways and the statements of GatewayRepo.
-- A statement is one atomic step on the table. `up` is false while the database answers every
-- statement with an error, and then no row changes. The clock of the database is an argument.
pub mod Ingress
pub mod Priority
pub mod Queue
pub mod Requests
pub mod Draining
pub mod Effects
pub mod Apart
pub mod Invariant
pub mod Repeats
pub mod Examples
pub mod Claims
pub mod Reserving
use elite_gate.Prelude.{
  ℕ, Bool, true, false, ◌&&◌, List, [], ◌∷◌, Option, none, some, if◌then◌else◌, any,
}
use elite_gate.Text.{Text, text_eq}
use elite_gate.Table.{exec, is_null, holds}

-- The enumeration gateway_status.
pub data GatewayStatus : Type 0 where
  provisioning active failed draining decommissioned : GatewayStatus

-- The values of provisioning_status that the code names.
pub data IngressStatus : Type 0 where
  not_started container_ready creating_target_group registering_target : IngressStatus
  creating_listener_rule waiting_for_target_health completed : IngressStatus
  failed deprovisioning deprovisioned : IngressStatus

pub record Gateway : Type 0 where
  pub external_id : Text
  pub project_id : ℕ
  pub plan : Text
  pub endpoint_ip : Text
  pub gateway_port : Text
  pub public_host : Option Text
  pub public_port : Option Text
  pub public_endpoint : Option Text
  pub host_port : Option ℕ
  pub status : GatewayStatus
  pub provisioning_status : IngressStatus
  pub provisioning_error : Option Text
  pub retry_count : ℕ
  pub target_group_arn : Option Text
  pub listener_rule_arn : Option Text
  pub listener_rule_priority : Option ℕ
  pub next_retry_at : Option ℕ
  pub locked_at : Option ℕ
  pub locked_by : Option Text
  pub lease_token : Option ℕ
  pub drain_started_at : Option ℕ
  pub provisioned_at : Option ℕ
  pub created_at : ℕ
  pub updated_at : ℕ
  pub deleted_at : Option ℕ

-- `accepts` is what PostgreSQL says of the rows that an UPDATE would leave: constraints, widths and
-- the encoding of texts.
pub record GatewayTable : Type 0 where
  pub up : Bool
  pub accepts : List Gateway → Bool
  pub rows : List Gateway

pub data GatewayRepoError : Type 0 where
  gateway_not_found stale_gateway_ingress_lease database_failure : GatewayRepoError
  invalid_priority_range no_priority_available invalid_host_port : GatewayRepoError

-- The new table, and nil or an error.
abbrev pub Saved : Type 0
Saved = GatewayTable × Option GatewayRepoError

-- WHERE external_id = $1 AND deleted_at IS NULL
abbrev pub is_live_at : Text → Gateway → Bool
is_live_at id r = text_eq r.external_id id && is_null r.deleted_at

-- WHERE external_id = $1 AND lease_token = $2 AND deleted_at IS NULL
abbrev pub is_held : Text → ℕ → Gateway → Bool
is_held id lease r = text_eq r.external_id id && holds r.lease_token lease && is_null r.deleted_at

-- ExecContext, RowsAffected, and the error for no row.
unfoldable pub saves :
    GatewayTable → (Gateway → Bool) → (Gateway → Gateway) → GatewayRepoError → Saved
unfolding exec
saves db test change missed =
    if db.up
    then (if any test db.rows
        then (if db.accepts (exec test change db.rows)
            then (record db { rows = exec test change db.rows }, none)
            else (db, some database_failure))
        else (db, some missed))
    else (db, some database_failure)

-- locked_at = NULL, locked_by = NULL, lease_token = NULL, updated_at = NOW()
abbrev pub unlocked : ℕ → Gateway → Gateway
unlocked now r = record r {
  locked_at = none;
  locked_by = none;
  lease_token = none;
  updated_at = now;
}
