-- ===== src/Chain/Client/Garbled.antt =====
-- What the client's methods make of answers that are not hexadecimal.
use hertz_reconciler.Prelude.{ℕ, ◌≡◌, refl, ap, ◌∙◌, false, [], Bytes, Str, set_bytes}
use hertz_reconciler.Prelude.Int.{pos}
use hertz_reconciler.Chain.Geth.{Hash, Address}
use hertz_reconciler.Chain.Reply.{ok, err}
use hertz_reconciler.Chain.Hex.Malformed.{IsMalformed, hex_to_bytes-IsMalformed}
use hertz_reconciler.Chain.Abi.{
  decode_int, decode_bool, decode_uint64, decode_updated_at, decode_address_array,
}
use hertz_reconciler.Chain.Client.{
  hex_data, answer, or_crash, call, balance_of_erc20, get_uint, get_int, get_bool,
  get_bytes32_count, get_address_count, get_role_member_count, get_role_members, get_min_delay,
  chainlink_latest_updated_at,
}
use hertz_reconciler.Runtime.{Env, pure, ask, map_reply, ◌>>=◌}
use hertz_reconciler.Runtime.Total.{Total, Always, Total-bind_post, Total-pure}

-- The node answers every call with a text that is not hexadecimal.
abbrev pub AnswersGarbled : {F W : Type 0} → Env F W → Type 0
AnswersGarbled {W} env =
    (to data_of : Str) (w : W)
    → (text : Str) × ((env.eth_call to data_of w).0 ≡ ok text) × IsMalformed text

module _ {F W : Type 0} (env : Env F W) (garbled : AnswersGarbled env) where
  call-garbled : (to : Address) (d : Bytes) → Always (call env to d) (ok [])
  unfolding call ◌>>=◌ ask
  call-garbled to d = record {
    at = λ s.
        let hex = env.geth.address_hex to in
        let r = env.eth_call hex (hex_data d) s.world in
        let (text, e, bad) = garbled hex (hex_data d) s.world in
        (
          answer hex r.0,
          record s { world = r.1 },
          refl,
          ap (answer hex) e ∙ ap ok (hex_to_bytes-IsMalformed text bad),
        );
  }

  mapped_garbled :
      {A : Type 0} (f : Bytes → A) (a : A) (to : Address) (d : Bytes)
      → f [] ≡ a
      → Always (call env to d >>= λ out. pure (map_reply f out)) (ok a)
  mapped_garbled f a to d same =
      Total-bind_post _ _ (call-garbled to d)
        λ out e. Total-pure _ (ap (map_reply f) e ∙ ap ok same)

  get_uint-garbled : (ds : Address) (key : Hash) → Always (get_uint env ds key) (ok 0)
  unfolding get_uint set_bytes
  get_uint-garbled ds key = mapped_garbled set_bytes 0 ds _ refl

  get_int-garbled : (ds : Address) (key : Hash) → Always (get_int env ds key) (ok (pos 0))
  unfolding get_int decode_int set_bytes
  get_int-garbled ds key = mapped_garbled decode_int (pos 0) ds _ refl

  get_bool-garbled : (ds : Address) (key : Hash) → Always (get_bool env ds key) (ok false)
  unfolding get_bool decode_bool
  get_bool-garbled ds key = mapped_garbled decode_bool false ds _ refl

  balance_of_erc20-garbled : (t h : Address) → Always (balance_of_erc20 env t h) (ok 0)
  unfolding balance_of_erc20 set_bytes
  balance_of_erc20-garbled t h = mapped_garbled set_bytes 0 t _ refl

  get_min_delay-garbled : (a : Address) → Always (get_min_delay env a) (ok 0)
  unfolding get_min_delay decode_uint64 set_bytes
  get_min_delay-garbled a = mapped_garbled decode_uint64 0 a _ refl

  get_role_member_count-garbled :
      (rs : Address) (role : Hash) → Always (get_role_member_count env rs role) (ok 0)
  unfolding get_role_member_count decode_uint64 set_bytes
  get_role_member_count-garbled rs role = mapped_garbled decode_uint64 0 rs _ refl

  get_bytes32_count-garbled :
      (ds : Address) (key : Hash) → Always (get_bytes32_count env ds key) (ok 0)
  unfolding get_bytes32_count decode_uint64 set_bytes
  get_bytes32_count-garbled ds key = mapped_garbled decode_uint64 0 ds _ refl

  get_address_count-garbled :
      (ds : Address) (key : Hash) → Always (get_address_count env ds key) (ok 0)
  unfolding get_address_count decode_uint64 set_bytes
  get_address_count-garbled ds key = mapped_garbled decode_uint64 0 ds _ refl

  get_role_members-garbled :
      (rs : Address) (role : Hash) (start end : ℕ)
      → Always (get_role_members env rs role start end) (ok [])
  unfolding get_role_members or_crash decode_address_array
  get_role_members-garbled rs role start end =
      Total-bind_post _ _ (call-garbled rs _) λ out e. rw e (Total-pure _ refl)

  latest_updated_at-garbled :
      (feed : Address) → Total (λ r. (e : Str) × (r ≡ err e)) (chainlink_latest_updated_at env feed)
  unfolding chainlink_latest_updated_at decode_updated_at
  latest_updated_at-garbled feed =
      Total-bind_post _ _ (call-garbled feed _) λ out e. rw e (Total-pure _ (_, refl))

-- When the node answers every call with a text that is not hexadecimal, the methods of the client
-- that call it report no error: those that return a number return 0, GetBool returns false and
-- GetRoleMembers no member. Only ChainlinkLatestUpdatedAt returns an error.
pub garbled_reads :
    {F W : Type 0} (env : Env F W)
    → AnswersGarbled env
    → (a b : Address) (key : Hash) (start end : ℕ)
    → Always (get_uint env a key) (ok 0)
      × Always (get_int env a key) (ok (pos 0))
      × Always (balance_of_erc20 env a b) (ok 0)
      × Always (get_min_delay env a) (ok 0)
      × Always (get_role_member_count env a key) (ok 0)
      × Always (get_bytes32_count env a key) (ok 0)
      × Always (get_address_count env a key) (ok 0)
      × Always (get_bool env a key) (ok false)
      × Always (get_role_members env a key start end) (ok [])
      × Total (λ r. (e : Str) × (r ≡ err e)) (chainlink_latest_updated_at env a)
garbled_reads env garbled a b key start end = (
  get_uint-garbled env garbled a key,
  get_int-garbled env garbled a key,
  balance_of_erc20-garbled env garbled a b,
  get_min_delay-garbled env garbled a,
  get_role_member_count-garbled env garbled a key,
  get_bytes32_count-garbled env garbled a key,
  get_address_count-garbled env garbled a key,
  get_bool-garbled env garbled a key,
  get_role_members-garbled env garbled a key start end,
  latest_updated_at-garbled env garbled a,
)
