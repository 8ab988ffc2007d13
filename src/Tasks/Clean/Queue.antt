-- ===== src/Tasks/Clean/Queue.antt =====
-- The findings of `queue`.
use hertz_reconciler.Prelude.{ℕ, ◌↔◌, refl, Bool, true, false, str, All, if◌then◌else◌}
use hertz_reconciler.Chain.Geth.{Address, Hash}
use hertz_reconciler.Chain.Client.{get_address_count, get_bytes32_count}
use hertz_reconciler.Chain.Client.Snapshot.{
  Snapshot, IsStable, count_at, bytes32_count-Always, address_count-Always,
}
use hertz_reconciler.Chain.Reply.{Reply}
use hertz_reconciler.Config.{VersionConfig}
use hertz_reconciler.Runtime.{Env}
use hertz_reconciler.Runtime.Total.{Total, Always, Total-pure}
use hertz_reconciler.Reconciler.{Report, empty_report}
use hertz_reconciler.Tasks.Queue.{ListSpec, lists, queue_round, queue_run}
use hertz_reconciler.Tasks.Clean.Probe.{
  IsRead, IsClean, IsClean-add_finding, Checks, Checks-read, Checks-export, Checks-foreach,
  Checks-run, unchanged,
}

module _ {F W : Type 0} (env : Env F W) (snap : Snapshot) where
  -- The number of entries of a list.
  abbrev list_count : Address → Hash → Bool → Reply ℕ
  list_count ds key true = count_at env snap (str "getAddressCount(bytes32)") ds key
  list_count ds key false = count_at env snap (str "getBytes32Count(bytes32)") ds key

  -- The number of entries of each list was read.
  abbrev pub CleanQueue : VersionConfig → Type 0
  CleanQueue vc =
      All (λ l. IsRead (list_count (env.geth.hex_to_address vc.data_store) l.key l.is_addr))
        (lists env.geth)

module _ {F W : Type 0} (env : Env F W) (snap : Snapshot) (stable : IsStable env snap)
    (vc : VersionConfig) where
  list_count-Always :
      (ds : Address) (key : Hash) (is_addr : Bool)
      → Always
          (if is_addr then get_address_count env ds key else get_bytes32_count env ds key)
          (list_count env snap ds key is_addr)
  list_count-Always ds key true = address_count-Always env snap stable ds key
  list_count-Always ds key false = bytes32_count-Always env snap stable ds key

  queue_round-Checks :
      (ds : Address) (l : ListSpec) (rep : Report)
      → Checks IsClean
          (IsClean rep)
          (IsRead (list_count env snap ds l.key l.is_addr))
          (queue_round env vc ds l rep)
  unfolding queue_round
  queue_round-Checks ds l rep = Checks-read _ _ (list_count-Always ds l.key l.is_addr) λ x e.
      Checks-export x _ _ _ e (λ v. unchanged) (λ t. Total-pure _ (IsClean-add_finding _ rep))

  pub queue_run-Clean :
      Total (λ result. IsClean (result.0) ↔ CleanQueue env snap vc) (queue_run env vc)
  unfolding queue_run
  queue_run-Clean =
      Checks-run _ _ _ refl (λ rep. refl)
        (Checks-foreach (queue_round env vc _) _ (lists env.geth)
          (queue_round-Checks (env.geth.hex_to_address vc.data_store)) empty_report)
