-- ===== src/Controller/Events.antt =====
-- internal/controller/microservice_controller.go: `ignoreStatusUpdatePredicate`.
use kom_operator.Prelude.{Bool, not, ◌||◌, ◌==◌, int_eq, option_eq, list_eq, string_eq}
use kom_operator.Kube.{ObjectMeta}

-- `UpdateFunc`: whether an update event is passed on to the reconciler. The slices of finalizers are
-- compared by `reflect.DeepEqual`.
pub passes_update : ObjectMeta → ObjectMeta → Bool
passes_update old new =
    not (int_eq old.generation new.generation) || not (old.finalizers == new.finalizers)
