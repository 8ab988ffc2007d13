-- ===== src/Tasks/Gauges/Lists.antt =====
-- The series of `features` and `queue`.
use hertz_reconciler.Prelude.{ℕ, refl, Bool, true, false, Str, str, [], ◌∷◌, if◌then◌else◌}
use hertz_reconciler.Chain.Geth.{Hash}
use hertz_reconciler.Chain.Client.{get_address_count, get_bytes32_count}
use hertz_reconciler.Chain.Client.Snapshot.{Snapshot, IsStable}
use hertz_reconciler.Chain.Client.Silent.{
  Reads, bool-Reads, bytes32_count-Reads, address_count-Reads,
}
use hertz_reconciler.Config.{VersionConfig, Config}
use hertz_reconciler.Metrics.{set_to, feature_disabled}
use hertz_reconciler.Runtime.{Env}
use hertz_reconciler.Runtime.Total.{Anything}
use hertz_reconciler.Runtime.Exports.{
  Exports, Exports-pure, Exports-bind, Exports-read, Exports-emit_then, Exports-reply,
  Exports-foreach,
}
use hertz_reconciler.Reconciler.{Report, NoError, empty_report}
use hertz_reconciler.Tasks.Features.{
  default_feature_names, record_flag, handler_round, feature_round, features_run,
}
use hertz_reconciler.Tasks.Queue.{ListSpec, lists, queue_round, queue_run}
use hertz_reconciler.Tasks.Clean.Loop.{VisitsAll}
use hertz_reconciler.Tasks.Clean.Order.{features_task, queue_task}
use hertz_reconciler.Tasks.Gauges.Entries.{
  flag, handler_gauges, feature_gauges, queue_count_at, queue_gauges,
}
use hertz_reconciler.Tasks.Gauges.Expected.{gauges_of}
use hertz_reconciler.Tasks.Gauges.Rules.{Exports-shown, Exports-map, Exports-end}

module _ {F W : Type 0} (env : Env F W) (snap : Snapshot) (stable : IsStable env snap)
    (vc : VersionConfig) where
  record_flag-Exports :
      (name handler : Str) (v : Bool) (acc : Report × ℕ)
      → Exports
          (set_to feature_disabled (vc.name ∷ name ∷ handler ∷ []) (flag env snap vc v) ∷ [])
          Anything
          (record_flag env vc name handler v acc)
  unfolding record_flag
  record_flag-Exports name handler v (rep, n) = Exports-emit_then _ _ (Exports-pure _ tt)

  handler_round-Exports :
      (name : Str) (handler : Str × Str) (acc : Report × ℕ)
      → Exports
          (handler_gauges env snap vc name handler)
          Anything
          (handler_round env vc (env.geth.hex_to_address vc.data_store) name handler acc)
  unfolding handler_round
  handler_round-Exports name (handler, hex) (rep, n) =
      Exports-read _ _ (bool-Reads env snap stable _ _) λ x same.
        Exports-reply _ x same (λ v. record_flag-Exports name handler v (rep, n))
          (λ e. Exports-pure _ tt)

  feature_round-Exports :
      VisitsAll env
      → (name : Str) (acc : Report × ℕ)
      → Exports
          (feature_gauges env snap vc name)
          Anything
          (feature_round env vc (env.geth.hex_to_address vc.data_store) name acc)
  unfolding feature_round
  feature_round-Exports visits name (rep, n) =
      Exports-read _ _ (bool-Reads env snap stable _ _) λ x same.
        Exports-bind _ _
          (Exports-reply _ x same (λ v. record_flag-Exports name (str "root") v (rep, n))
            (λ e. Exports-pure _ tt))
          λ acc _. Exports-map env visits vc.handlers _ _ acc (handler_round-Exports name)

  pub features_run-Exports :
      VisitsAll env
      → (cfg : Config) (now : ℕ)
      → Exports (gauges_of env snap vc cfg now features_task) NoError (features_run env vc)
  unfolding features_run
  features_run-Exports visits cfg now =
      Exports-end _ _ _ (λ r. refl)
        (Exports-foreach _ _ default_feature_names (feature_round-Exports visits) (empty_report, 0))

  queue_count-Reads :
      (key : Hash) (is_addr : Bool)
      → Reads
          (if is_addr
            then get_address_count env (env.geth.hex_to_address vc.data_store) key
            else get_bytes32_count env (env.geth.hex_to_address vc.data_store) key)
          (queue_count_at env snap vc key is_addr)
  queue_count-Reads key true = address_count-Reads env snap stable _ key
  queue_count-Reads key false = bytes32_count-Reads env snap stable _ key

  queue_round-Exports :
      (l : ListSpec) (rep : Report)
      → Exports
          (queue_gauges env snap vc l)
          Anything
          (queue_round env vc (env.geth.hex_to_address vc.data_store) l rep)
  unfolding queue_round
  queue_round-Exports l rep =
      Exports-read _ _ (queue_count-Reads l.key l.is_addr) λ x same. Exports-shown x _ _ _ same

  pub queue_run-Exports :
      (cfg : Config) (now : ℕ)
      → Exports (gauges_of env snap vc cfg now queue_task) NoError (queue_run env vc)
  unfolding queue_run
  queue_run-Exports cfg now =
      Exports-end _ _ _ (λ r. refl)
        (Exports-foreach _ _ (lists env.geth) queue_round-Exports empty_report)
