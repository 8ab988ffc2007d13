-- ===== src/Tests/Garbled.antt =====
-- A node that answers with half a byte.
use hertz_reconciler.Prelude.{ℕ, ◌≡◌, refl, inl, false, [], Str, str, str_eq}
use hertz_reconciler.Prelude.Int.{pos}
use hertz_reconciler.Chain.Reply.{ok, err}
use hertz_reconciler.Chain.Hex.{strip_0x}
use hertz_reconciler.Chain.Client.{
  balance_of_erc20, get_uint, get_int, get_bool, get_bytes32_count, get_address_count,
  get_role_member_count, get_role_members, get_min_delay, chainlink_latest_updated_at,
}
use hertz_reconciler.Chain.Client.Garbled.{AnswersGarbled, garbled_reads}
use hertz_reconciler.Runtime.{Env}
use hertz_reconciler.Runtime.Total.{Total, Always}
use hertz_reconciler.Tests.Demo.{constant_node}

abbrev half_byte : Env ℕ (Unit {0})
half_byte = constant_node (ok (str "0x6"))

half_byte-AnswersGarbled : AnswersGarbled half_byte
unfolding strip_0x str str_eq
half_byte-AnswersGarbled to d w = (str "0x6", refl, inl refl)

garbled_reads_example :
    Always (get_uint half_byte [] []) (ok 0)
    × Always (get_int half_byte [] []) (ok (pos 0))
    × Always (balance_of_erc20 half_byte [] []) (ok 0)
    × Always (get_min_delay half_byte []) (ok 0)
    × Always (get_role_member_count half_byte [] []) (ok 0)
    × Always (get_bytes32_count half_byte [] []) (ok 0)
    × Always (get_address_count half_byte [] []) (ok 0)
    × Always (get_bool half_byte [] []) (ok false)
    × Always (get_role_members half_byte [] [] 0 1) (ok [])
    × Total (λ r. (e : Str) × (r ≡ err e)) (chainlink_latest_updated_at half_byte [])
garbled_reads_example = garbled_reads half_byte half_byte-AnswersGarbled [] [] [] 0 1
