-- ===== src/Controller/Apply/Stable.antt =====
-- Updates of a service keep its address, and all updates settle.
use kubernetes_redis_operato.Prelude.{◌≡◌, refl, Bool, true, false}
use kubernetes_redis_operato.Go.Text.{Str}
use kubernetes_redis_operato.Resources.Object.{Service, ConfigMap, Budget, ServiceMonitor, Workload}
use kubernetes_redis_operato.Controller.Apply.{
  Stored, mutate_service, mutate_client_service, mutate_config_map, mutate_budget,
  mutate_service_monitor, mutate_workload,
}

-- An update keeps the address that Kubernetes has given to the service, and takes the selector and
-- the ports that are wanted. After a creation or an update a further update changes nothing, so a
-- controller that reconciles again does not write the service again.
pub mutate_service-settles :
    (fresh : Bool) (desired existing : Service)
    → ((mutate_service false desired existing).spec.cluster_ip ≡ existing.spec.cluster_ip)
      × ((mutate_client_service false desired existing).spec.cluster_ip ≡ existing.spec.cluster_ip)
      × ((mutate_service fresh desired existing).spec.selector ≡ desired.spec.selector)
      × ((mutate_service fresh desired existing).spec.ports ≡ desired.spec.ports)
      × ((mutate_client_service fresh desired existing).spec.selector ≡ desired.spec.selector)
      × ((mutate_client_service fresh desired existing).spec.ports ≡ desired.spec.ports)
      × (mutate_service false desired (mutate_service fresh desired existing)
          ≡ mutate_service fresh desired existing)
      × (mutate_client_service false desired (mutate_client_service fresh desired existing)
          ≡ mutate_client_service fresh desired existing)
unfolding mutate_service mutate_client_service
mutate_service-settles true desired existing = (refl, refl, refl, refl, refl, refl, refl, refl)
mutate_service-settles false desired existing = (refl, refl, refl, refl, refl, refl, refl, refl)

-- Writing an object again, after a creation or an update, changes nothing: for the six functions that
-- write an object, so a controller that reconciles again with the same wishes writes nothing.
pub mutations_settle :
    (fresh : Bool) (service service' : Service) (config config' : ConfigMap)
    (budget budget' : Budget) (monitor monitor' : ServiceMonitor) (w : Workload) (hash : Str)
    (w' : Stored)
    → (mutate_service false service (mutate_service fresh service service')
        ≡ mutate_service fresh service service')
      × (mutate_client_service false service (mutate_client_service fresh service service')
          ≡ mutate_client_service fresh service service')
      × (mutate_config_map config (mutate_config_map config config')
          ≡ mutate_config_map config config')
      × (mutate_budget budget (mutate_budget budget budget') ≡ mutate_budget budget budget')
      × (mutate_service_monitor monitor (mutate_service_monitor monitor monitor')
          ≡ mutate_service_monitor monitor monitor')
      × (mutate_workload false w hash (mutate_workload fresh w hash w')
          ≡ mutate_workload fresh w hash w')
unfolding mutate_service mutate_client_service mutate_config_map mutate_budget
    mutate_service_monitor mutate_workload
mutations_settle true service service' config config' budget budget' monitor monitor' w hash w' =
    (refl, refl, refl, refl, refl, refl)
mutations_settle false service service' config config' budget budget' monitor monitor' w hash w' =
    (refl, refl, refl, refl, refl, refl)
