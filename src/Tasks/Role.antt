-- ===== src/Tasks/Role.antt =====
-- internal/reconciler/role.go: the number of members of each role. The members are read and sorted,
-- and then not used: neither the report nor a series depends on them.
use hertz_reconciler.Prelude.{
  ℕ, Bool, ◌&&◌, ◌||◌, Option, none, List, [], ◌∷◌, ◌++◌, Str, str, str_eq, cat, decimal, ltb, ◌==◌,
  if◌then◌else◌,
}
use hertz_reconciler.Chain.Geth.{Address}
use hertz_reconciler.Chain.Keys.{role_hash}
use hertz_reconciler.Chain.Client.{get_role_member_count, get_role_members}
use hertz_reconciler.Config.{VersionConfig}
use hertz_reconciler.Metrics
use hertz_reconciler.Metrics.{set_to, set_now, reconciler_last_run_timestamp}
use hertz_reconciler.Runtime.{Env, M, emit, pure, foreach, on_reply, ◌>>=◌, ◌>>◌}
use hertz_reconciler.Reconciler.{Report, Task, empty_report, add_line, add_finding}

unfoldable pub is_privileged_role : Str → Bool
is_privileged_role name =
    str_eq name (str "CONFIG_KEEPER")
    || (str_eq name (str "TIMELOCK_ADMIN")
        || (str_eq name (str "TIMELOCK_MULTISIG") || str_eq name (str "GOV_TOKEN_CONTROLLER")))

module _ {F W : Type 0} (env : Env F W) where
  -- What a round reports of a role whose members were read.
  unfoldable pub report_role : Str → ℕ → Report → Report
  unfolding is_privileged_role
  report_role name count rep =
      let rep' = add_line (cat (name ∷ str ": " ∷ decimal count ∷ str " members" ∷ [])) rep in
      if is_privileged_role name && ltb 5 count
      then add_finding
          (cat (
            name
            ∷ str " has "
            ∷ decimal count
            ∷ str " members — privileged role, expected ≤5"
            ∷ []))
          rep'
      else rep'

  unfoldable pub role_round : VersionConfig → Address → Str → Report → M F W Report
  unfolding report_role
  role_round vc rs name rep = do
    let role = role_hash env.geth name
    count_reply ← get_role_member_count env rs role
    on_reply count_reply
        (λ count. do
          emit (set_to Metrics.role_members_count (vc.name ∷ name ∷ []) (env.floats.of_uint count))
          if count == 0 then pure (add_line (cat (name ∷ str ": 0 members" ∷ [])) rep) else do
            members_reply ← get_role_members env rs role 0 (if ltb 50 count then 50 else count)
            on_reply members_reply (λ members. pure (report_role name count rep))
                (λ e. pure (
                  add_finding (cat (str "role " ∷ name ∷ str ": getRoleMembers err: " ∷ e ∷ []))
                    rep)))
        (λ e. pure (add_finding (cat (str "role " ∷ name ∷ str ": count err: " ∷ e ∷ [])) rep))

  unfoldable pub role_run : List Str → VersionConfig → M F W (Report × Option Str)
  unfolding role_round
  role_run role_names vc = do
    let rs = env.geth.hex_to_address vc.role_store
    rep ← foreach role_names (role_round vc rs) empty_report
    emit (set_now reconciler_last_run_timestamp ((str "roles_" ++ vc.name) ∷ []))
    pure (rep, none)

  unfoldable pub roles : List Str → Task F W
  unfolding role_run
  roles role_names = record { name = str "roles"; run = role_run role_names }
