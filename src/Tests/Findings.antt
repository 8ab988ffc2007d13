-- ===== src/Tests/Findings.antt =====
-- Runs of the tasks against a node that always gives one answer.
use hertz_reconciler.Prelude.{ℕ, ◌≡◌, ◌↔◌, refl, [], ◌∷◌, Bytes, str, str_eq, All, set_bytes}
use hertz_reconciler.Prelude.Counts.{sum_of}
use hertz_reconciler.Chain.Geth.{Address, Hash}
use hertz_reconciler.Chain.Reply.{ok}
use hertz_reconciler.Chain.Hex.{hex_to_bytes, hex_loop, hex_nibble}
use hertz_reconciler.Chain.Abi.{decode_address_array, decode_uint64}
use hertz_reconciler.Chain.Client.{
  call, balance_of_native, balance_of_erc20, get_uint, get_role_member_count, get_role_members,
  or_crash,
}
use hertz_reconciler.Config.{lookup}
use hertz_reconciler.Runtime.{Env, ask, ◌>>=◌}
use hertz_reconciler.Runtime.Total.{Always, ReturnsWith}
use hertz_reconciler.Tasks.Vault.{vault_run}
use hertz_reconciler.Tasks.Fee.{fee_run}
use hertz_reconciler.Tasks.Role.{role_run}
use hertz_reconciler.Tasks.Clean.Vault.{CleanVault, vault_run-findings}
use hertz_reconciler.Tasks.Clean.Fee.{CleanClaim, CleanGap, claimed, fee_run-findings}
use hertz_reconciler.Tasks.Clean.Role.{CleanRole, role_run-findings}
use hertz_reconciler.Tests.Demo.{constant_node, constant_node-VisitsAll, demo_state, demo_version}

-- The answer of the node: one byte, 60.
abbrev sixty : Env ℕ (Unit {0})
sixty = constant_node (ok (str "0x3c"))

call-sixty : (to : Address) (d : Bytes) → Always (call sixty to d) (ok (60 ∷ []))
unfolding call ◌>>=◌ ask hex_to_bytes hex_loop hex_nibble set_bytes str str_eq
call-sixty to d = record { at = λ s. (ok (60 ∷ []), s, refl, refl) }

native-sixty : (a : Address) → Always (balance_of_native sixty a) (ok 7)
unfolding balance_of_native ask
native-sixty a = record { at = λ s. (ok 7, s, refl, refl) }

erc20-sixty : (t a : Address) → Always (balance_of_erc20 sixty t a) (ok 60)
unfolding balance_of_erc20 call ◌>>=◌ ask hex_to_bytes hex_loop hex_nibble set_bytes str str_eq
erc20-sixty t a = record { at = λ s. (ok 60, s, refl, refl) }

uint-sixty : (ds : Address) (key : Hash) → Always (get_uint sixty ds key) (ok 60)
unfolding get_uint call ◌>>=◌ ask hex_to_bytes hex_loop hex_nibble set_bytes str str_eq
uint-sixty ds key = record { at = λ s. (ok 60, s, refl, refl) }

vault_run-findings_example :
    ReturnsWith
      (λ result.
        (result.0.findings ≡ [])
        ↔ All (λ entry. CleanVault sixty entry.0 (ok 7) (ok 60)) demo_version.vaults)
      (vault_run sixty demo_version demo_state)
vault_run-findings_example =
    vault_run-findings sixty demo_version (λ hex. ok 7) (λ hex. ok 60) demo_state
      (constant_node-VisitsAll (ok (str "0x3c"))) (λ hex. native-sixty _) (λ hex. erc20-sixty _ _)

fee_run-findings_example :
    ReturnsWith
      (λ result. (result.0.findings ≡ []) ↔ (
        All (λ market. CleanClaim (ok 60)) demo_version.markets
        × CleanGap
            (sum_of (λ market. claimed (ok 60)) demo_version.markets)
            (lookup (str "FeeDistributorVault") demo_version.vaults)
            (λ hex. ok 60)))
      (fee_run sixty demo_version demo_state)
fee_run-findings_example =
    fee_run-findings sixty demo_version (λ hex. ok 60) (λ hex. ok 60) demo_state refl
      (constant_node-VisitsAll (ok (str "0x3c"))) (λ hex. uint-sixty _ _) (λ hex. erc20-sixty _ _)

count-sixty : (rs : Address) (role : Hash) → Always (get_role_member_count sixty rs role) (ok 60)
unfolding get_role_member_count call ◌>>=◌ ask hex_to_bytes hex_loop hex_nibble set_bytes str str_eq
    decode_uint64
count-sixty rs role = record { at = λ s. (ok 60, s, refl, refl) }

members-sixty :
    (rs : Address) (role : Hash) (m n : ℕ) → Always (get_role_members sixty rs role m n) (ok [])
unfolding get_role_members or_crash call ◌>>=◌ ask hex_to_bytes hex_loop hex_nibble set_bytes str
    str_eq decode_address_array
members-sixty rs role m n = record { at = λ s. (ok [], s, refl, refl) }

role_run-findings_example :
    ReturnsWith
      (λ result.
        (result.0.findings ≡ [])
        ↔ All (λ name. CleanRole name (ok 60) (λ c. ok [])) (str "CONTROLLER" ∷ []))
      (role_run sixty (str "CONTROLLER" ∷ []) demo_version demo_state)
role_run-findings_example =
    role_run-findings sixty demo_version (str "CONTROLLER" ∷ []) (λ name. ok 60) (λ name c. ok [])
      demo_state (λ name. count-sixty _ _) (λ name c. members-sixty _ _ _ _)
