-- ===== src/Gateways/Examples.antt =====
-- The theorems on the statements of GatewayRepo at a table of two rows.
use elite_gate.Prelude.{◌≡◌, refl, true, [], ◌∷◌, some, pos, arith, sym, true_not_false}
use elite_gate.Text.{codes, text_eq}
use elite_gate.Text.Laws.{text_eq_iff}
use elite_gate.Gateways.{Gateway, GatewayTable, IngressStatus, creating_listener_rule, completed}
use elite_gate.Gateways.Invariant.{IsSound}
use elite_gate.Gateways.Priority.{reserve_gateway_listener_rule_priority}
use elite_gate.Gateways.Reserving.{Reserves, reserve_gateway_listener_rule_priority_lem}
use elite_gate.Gateways.Draining.{queued, queue_gateway_deprovisioning}
use elite_gate.Gateways.Repeats.{queue_gateway_deprovisioning_again}
use elite_gate.Gateways.Requests.{new_gateway}

abbrev pub one_at : IngressStatus → Gateway
one_at at = record (new_gateway 1 (codes "gw_a1") 7 (codes "dedicated")) {
  host_port = some 8080;
  provisioning_status = at;
  target_group_arn = some (codes "arn:tg");
  listener_rule_arn = some (codes "arn:rule");
  lease_token = some 9;
}

abbrev pub other : Gateway
other = record (new_gateway 2 (codes "gw_b2") 8 (codes "dedicated")) {
  provisioning_status = completed;
  listener_rule_priority = some 1000;
}

abbrev pub fleet_at : IngressStatus → GatewayTable
fleet_at at = record { up = true; accepts = λ rows. true; rows = one_at at ∷ other ∷ [] }

pub fleet_at-IsSound : (at : IngressStatus) → IsSound (fleet_at at).rows
unfolding text_eq
fleet_at-IsSound at = record {
  ids = (
    ((λ h. true_not_false (sym ((text_eq_iff (codes "gw_b2") (codes "gw_a1")).1 h))), tt),
    (tt, tt),
  );
  apart = (((λ n h. ground arith), tt), (tt, tt));
  unspent = (omega arith, (omega arith, tt));
}

reserve_gateway_listener_rule_priority_lem_example :
    Reserves (fleet_at creating_listener_rule) 5 (codes "gw_a1") 9 (pos 1000) (pos 1009) (
      reserve_gateway_listener_rule_priority
        (fleet_at creating_listener_rule)
        5
        (codes "gw_a1")
        9
        (pos 1000)
        (pos 1009))
reserve_gateway_listener_rule_priority_lem_example =
    reserve_gateway_listener_rule_priority_lem (fleet_at creating_listener_rule) 5 (codes "gw_a1") 9
      (pos 1000) (pos 1009)

first_delete :
    (queue_gateway_deprovisioning (fleet_at completed) 5 (codes "gw_a1") (pos 30)).1 ≡ queued 5 35
unfolding queue_gateway_deprovisioning text_eq
first_delete = refl

queue_gateway_deprovisioning_again_example :
    (queue_gateway_deprovisioning
      (queue_gateway_deprovisioning (fleet_at completed) 5 (codes "gw_a1") (pos 30)).0
      20
      (codes "gw_a1")
      (pos 60)).1
    ≡ queued 5 35
queue_gateway_deprovisioning_again_example =
    queue_gateway_deprovisioning_again (fleet_at completed) (codes "gw_a1") 5 20 (pos 30) (pos 60) 5
      35 first_delete
