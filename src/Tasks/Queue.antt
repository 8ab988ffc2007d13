-- ===== src/Tasks/Queue.antt =====
-- internal/reconciler/queue.go: the lengths of the DataStore's lists.
use hertz_reconciler.Prelude.{
  Bool, true, false, Option, none, List, [], ◌∷◌, ◌++◌, Str, str, cat, decimal, length,
  if◌then◌else◌,
}
use hertz_reconciler.Chain.Geth.{Address, Hash}
use hertz_reconciler.Chain.Geth.{Geth}
use hertz_reconciler.Chain.Keys.{
  order_list_root, deposit_list_root, withdrawal_list_root, position_list_root, market_list_root,
}
use hertz_reconciler.Chain.Client.{get_address_count, get_bytes32_count}
use hertz_reconciler.Config.{VersionConfig}
use hertz_reconciler.Metrics
use hertz_reconciler.Metrics.{set_to, set_now, reconciler_last_run_timestamp}
use hertz_reconciler.Runtime.{Env, M, emit, pure, foreach, on_reply, ◌>>=◌, ◌>>◌}
use hertz_reconciler.Reconciler.{Report, Task, empty_report, add_line, add_finding}

pub record ListSpec : Type 0 where
  pub label : Str
  pub key : Hash
  pub is_addr : Bool

unfoldable pub lists : Geth → List ListSpec
lists g =
    record { label = str "order"; key = order_list_root g; is_addr = false }
    ∷ record { label = str "deposit"; key = deposit_list_root g; is_addr = false }
    ∷ record { label = str "withdrawal"; key = withdrawal_list_root g; is_addr = false }
    ∷ record { label = str "position"; key = position_list_root g; is_addr = false }
    ∷ record { label = str "market"; key = market_list_root g; is_addr = true }
    ∷ []

module _ {F W : Type 0} (env : Env F W) where
  unfoldable pub queue_round : VersionConfig → Address → ListSpec → Report → M F W Report
  queue_round vc ds l rep = do
    count_reply ←
        (if l.is_addr then get_address_count env ds l.key else get_bytes32_count env ds l.key)
    on_reply count_reply
        (λ count. do
          emit (set_to Metrics.queue_count (vc.name ∷ l.label ∷ []) (env.floats.of_uint count))
          pure rep)
        (λ e. pure (add_finding (cat (str "queue " ∷ l.label ∷ str " count: " ∷ e ∷ [])) rep))

  unfoldable pub queue_run : VersionConfig → M F W (Report × Option Str)
  unfolding lists queue_round
  queue_run vc = do
    let ds = env.geth.hex_to_address vc.data_store
    rep ← foreach (lists env.geth) (queue_round vc ds) empty_report
    emit (set_now reconciler_last_run_timestamp ((str "queue_" ++ vc.name) ∷ []))
    pure (
      add_line
          (cat (
            str "queue counts snapshotted ("
            ∷ decimal (length (lists env.geth))
            ∷ str " lists)"
            ∷ []))
          rep,
      none,
    )

  unfoldable pub queue : Task F W
  unfolding queue_run
  queue = record { name = str "queue"; run = queue_run }
