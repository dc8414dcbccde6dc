-- ===== src/Gateways/Requests.antt =====
-- gateway_ingress_repo.go, gateway_deprovision_repo.go and gateway_repo.go: the statements behind
-- the requests of the control plane. `now` is NOW().
use elite_gate.Prelude.{
  ℕ, ◌+◌, ◌*◌, ◌-◌, Bool, ◌&&◌, ◌||◌, not, [], ◌∷◌, Option, none, some, if◌then◌else◌, leb, ltb,
  ◌==◌, any, all,
}
use elite_gate.Text.{Text, text_eq, codes, is_empty}
use elite_gate.Gateways.{
  Gateway, GatewayTable, GatewayStatus, provisioning, active, decommissioned, not_started,
  container_ready, gateway_not_found, database_failure, invalid_host_port, Saved, is_live_at, saves,
}

-- strconv.Atoi of a text of digits.
abbrev pub is_digit : ℕ → Bool
is_digit c = leb b'0' c && leb c b'9'

unfoldable pub value_of : ℕ → Text → ℕ
value_of n [] = n
value_of n (c ∷ cs) = value_of (n * 10 + (c - b'0')) cs

unfoldable pub digits_value : Text → Option ℕ
unfolding value_of
digits_value s = if not (is_empty s) && all is_digit s then some (value_of 0 s) else none

-- strconv.Atoi, where no number below one is asked for: a text with a minus has none.
unfoldable pub atoi : Text → Option ℕ
unfolding digits_value
atoi [] = none
atoi (c ∷ cs) = if c == b'+' then digits_value cs else digits_value (c ∷ cs)

abbrev pub set_container_ready : ℕ → Text → Text → Text → Text → ℕ → Gateway → Gateway
set_container_ready now endpoint_ip gateway_port public_host public_port host_port r = record r {
  endpoint_ip = endpoint_ip;
  gateway_port = gateway_port;
  public_host = some public_host;
  public_port = some public_port;
  host_port = some host_port;
  status = provisioning;
  provisioning_status = container_ready;
  provisioning_error = none;
  retry_count = 0;
  next_retry_at = some now;
  updated_at = now;
}

unfoldable pub save_container :
    GatewayTable → ℕ → Text → Text → Text → Text → Text → Option ℕ → Saved
unfolding saves
save_container db now id ip port public_host public_port none = (db, some invalid_host_port)
save_container db now id ip port public_host public_port (some n) =
    if ltb n 1 || ltb 65535 n
    then (db, some invalid_host_port)
    else saves db (is_live_at id) (set_container_ready now ip port public_host public_port n)
        gateway_not_found

unfoldable pub mark_container_ready : GatewayTable → ℕ → Text → Text → Text → Text → Text → Saved
unfolding save_container atoi
mark_container_ready db now id endpoint_ip gateway_port public_host public_port =
    save_container db now id endpoint_ip gateway_port public_host public_port (atoi public_port)

-- INSERT INTO gateways, with the defaults of the columns; external_id is unique.
abbrev pub new_gateway : ℕ → Text → ℕ → Text → Gateway
new_gateway now id project plan = record {
  external_id = id;
  project_id = project;
  plan = plan;
  endpoint_ip = codes "0.0.0.0";
  gateway_port = codes "0";
  public_host = none;
  public_port = none;
  public_endpoint = none;
  host_port = none;
  status = provisioning;
  provisioning_status = not_started;
  provisioning_error = none;
  retry_count = 0;
  target_group_arn = none;
  listener_rule_arn = none;
  listener_rule_priority = none;
  next_retry_at = none;
  locked_at = none;
  locked_by = none;
  lease_token = none;
  drain_started_at = none;
  provisioned_at = none;
  created_at = now;
  updated_at = now;
  deleted_at = none;
}

unfoldable pub provision : GatewayTable → ℕ → Text → ℕ → Text → Saved
unfolding text_eq
provision db now id project plan =
    if db.up && not (any (λ r. text_eq r.external_id id) db.rows)
    then (record db { rows = new_gateway now id project plan ∷ db.rows }, none)
    else (db, some database_failure)

abbrev pub set_registered : ℕ → Text → Text → Text → Text → Gateway → Gateway
set_registered now ip port public_host public_port r = record r {
  endpoint_ip = ip;
  gateway_port = port;
  public_host = some public_host;
  public_port = some public_port;
  status = active;
  updated_at = now;
}

unfoldable pub register_gateway : GatewayTable → ℕ → Text → Text → Text → Text → Text → Saved
unfolding saves
register_gateway db now id ip port public_host public_port =
    saves db (is_live_at id) (set_registered now ip port public_host public_port) gateway_not_found

unfoldable pub update_status : GatewayTable → ℕ → Text → GatewayStatus → Saved
unfolding saves
update_status db now id status =
    saves db (is_live_at id) (λ r. record r { status = status; updated_at = now }) gateway_not_found

unfoldable pub decommission : GatewayTable → ℕ → Text → Saved
unfolding saves
decommission db now id =
    saves db (is_live_at id)
      (λ r. record r { status = decommissioned; deleted_at = some now; updated_at = now })
      gateway_not_found
