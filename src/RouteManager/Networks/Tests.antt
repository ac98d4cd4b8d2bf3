-- ===== src/RouteManager/Networks/Tests.antt =====
-- The watchers of the sample networks.
use netbird_minimal.Common.{◌≡◌, refl, true, false, List, [], ◌∷◌}
use netbird_minimal.Common.Dict.{lookup}
use netbird_minimal.Common.Outcome.{ok}
use netbird_minimal.RouteManager.Networks.{UpdateError, Manager, update_routes, trigger_selection}
use netbird_minimal.RouteManager.Networks.InStep.{
  InStep, Follows, RouteLaws, selected, update_routes-Follows, update, select, here, next,
  Reach-InStep,
}
use netbird_minimal.RouteManager.Sample.{sample_env, sample_networks, route_a}

abbrev start : Manager sample_env
start = record {
  client_networks = ("old", "h") ∷ [];
  active_routes = ("10.0.0.0/8", "a") ∷ [];
  client_routes = [];
  use_new_dns_route = false;
  disable_client_routes = false;
  has_server_router = false;
  selector = tt;
  world = 0;
}

-- A manager with nothing yet, and after an update and a selection that drops a network.
abbrev idle : Manager sample_env
idle = record {
  client_networks = [];
  active_routes = [];
  client_routes = [];
  use_new_dns_route = false;
  disable_client_routes = false;
  has_server_router = true;
  selector = tt;
  world = 0;
}

idle-InStep : InStep sample_env idle
idle-InStep = record { map = tt; same = λ k. unfold lookup in refl }

sample_filter : RouteLaws sample_env
sample_filter = record { filter_lem = λ sel m h. h }

update_routes-Follows_example :
    (es : List UpdateError) × ((update_routes sample_env false 3 [] sample_networks true idle).0
      ≡ ok es)
    × Follows sample_env
        (selected sample_env sample_networks idle)
        idle
        (update_routes sample_env false 3 [] sample_networks true idle).1
        es
update_routes-Follows_example =
    update_routes-Follows sample_env sample_filter 3 [] sample_networks true idle refl
      (refl, (refl, tt)) idle-InStep

abbrev updated : Manager sample_env
updated = (update_routes sample_env false 3 [] sample_networks true idle).1

abbrev chosen : Manager sample_env
chosen = (trigger_selection sample_env (("10.0.0.0/8", route_a ∷ []) ∷ []) updated).1

Reach-InStep_example : InStep sample_env chosen
Reach-InStep_example = Reach-InStep sample_env sample_filter idle-InStep (
    next (next here (update false 3 [] sample_networks true idle updated (refl, (refl, tt)) refl))
      (select (("10.0.0.0/8", route_a ∷ []) ∷ []) updated chosen (refl, tt) refl))
