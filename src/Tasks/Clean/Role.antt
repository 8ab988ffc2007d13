-- ===== src/Tasks/Clean/Role.antt =====
-- The findings of `roles`, and the payload that makes it panic.
use hertz_reconciler.Prelude.{
  ℕ, ◌+◌, ◌^◌, ◌≤◌, ◌≡◌, ◌≢◌, ◌↔◌, ◌⊎◌, inl, inr, refl, sym, ◌∙◌, true, false, ◌&&◌, none, List, [],
  ◌∷◌, ◌++◌, Bytes, Str, str, length, All, arith, ltb, ◌==◌, ==_iff, if◌then◌else◌, Bool-cases,
}
use hertz_reconciler.Prelude.Counts.{append-eq-nil}
use hertz_reconciler.Chain.Geth.{Address}
use hertz_reconciler.Chain.Keys.{role_hash}
use hertz_reconciler.Chain.Abi.{pad_uint, decode_address_array}
use hertz_reconciler.Chain.Abi.Array.{offset_of, decode_address_array_panics}
use hertz_reconciler.Chain.Client.{must_selector, get_role_member_count, get_role_members, or_crash}
use hertz_reconciler.Chain.Client.Reads.{Answers, call_answered}
use hertz_reconciler.Metrics
use hertz_reconciler.Metrics.{set_to}
use hertz_reconciler.Chain.Reply.{Reply, ok}
use hertz_reconciler.Config.{VersionConfig}
use hertz_reconciler.Runtime.{Env, State, ret, panic, emit, ◌>>=◌}
use hertz_reconciler.Runtime.Total.{
  Total, ReturnsWith, Always, Total-bind, Total-bind_post, Total-pure, Total-emit, Total-reply_post,
  Total-if_post, Total-foreach_iff,
}
use hertz_reconciler.Reconciler.{Report, empty_report}
use hertz_reconciler.Tasks.Clean.Privileged.{IsPrivileged, is_privileged_role_iff}
use hertz_reconciler.Tasks.Role.{is_privileged_role, report_role, role_round, role_run}

-- The call asks for at most fifty members.
abbrev pub enumerated : ℕ → ℕ
enumerated count = if ltb 50 count then 50 else count

-- The number of members was read, and either there is none, or the members were read and are not
-- more than five of a privileged role.
abbrev pub CleanRole : Str → Reply ℕ → (ℕ → Reply (List Address)) → Type 0
CleanRole name count members =
    (c : ℕ) × (count ≡ ok c)
    × ((c ≡ 0)
        ⊎ ((as_read : List Address) × (members c ≡ ok as_read)) × ((¬ IsPrivileged name) ⊎ (c ≤ 5)))

over_limit :
    (name : Str) (c : ℕ)
    → (is_privileged_role name && ltb 5 c) ≡ true
    → ¬ ((¬ IsPrivileged name) ⊎ (c ≤ 5))
over_limit name c h (inl k) = k ((is_privileged_role_iff name).0 (ground (arith, h)))
over_limit name c h (inr k) = ground (arith, h)

within_limit :
    (name : Str) (c : ℕ)
    → (is_privileged_role name && ltb 5 c) ≡ false
    → (¬ IsPrivileged name) ⊎ (c ≤ 5)
within_limit name c h = elim (Bool-cases (is_privileged_role name)) [
  | inl e ↦ inr (ground (arith, h, e))
  | inr e ↦ inl λ p. cc (e, (is_privileged_role_iff name).1 p)
]

module _ {F W : Type 0} (env : Env F W) where
  report_role-findings :
      (name : Str) (count : ℕ) (rep : Report)
      → ((report_role env name count rep).findings ≡ [])
        ↔ ((rep.findings ≡ []) × ((¬ IsPrivileged name) ⊎ (count ≤ 5)))
  unfolding report_role
  report_role-findings name count rep = elim (Bool-cases (is_privileged_role name && ltb 5 count)) [
    | inl e ↦ (
      (λ z. cc ((append-eq-nil rep.findings _ (rw e at z)).1)),
      (λ (x, y). absurd (over_limit name count e y)),
    )
    | inr e ↦ rw e ((λ z. (z, within_limit name count e)), (λ (x, y). x))
  ]

zero_of : (c c' : ℕ) → c' ≡ c → (c == 0) ≡ false → c' ≡ 0 → ⊥
zero_of c c' same nz z = ground arith

-- What `CleanRole` says of a role that has members.
abbrev WithMembers : Str → ℕ → (ℕ → Reply (List Address)) → Type 0
WithMembers name c members =
    ((as_read : List Address) × (members c ≡ ok as_read)) × ((¬ IsPrivileged name) ⊎ (c ≤ 5))

with_members :
    (name : Str) (members : ℕ → Reply (List Address)) (c c' : ℕ)
    → c' ≡ c
    → (c == 0) ≡ false
    → (c' ≡ 0) ⊎ WithMembers name c' members
    → WithMembers name c members
with_members name members c c' same nz (inl z) = absurd (zero_of c c' same nz z)
with_members name members c c' same nz (inr y) = rw (← same) y

module _ {F W : Type 0} (env : Env F W) (vc : VersionConfig) (rs : Address) where
  role_round-Clean :
      (name : Str) (count : Reply ℕ) (members : ℕ → Reply (List Address)) (rep : Report)
      → Always (get_role_member_count env rs (role_hash env.geth name)) count
      → ((c : ℕ)
          → Always (get_role_members env rs (role_hash env.geth name) 0 (enumerated c)) (members c))
      → Total
          (λ r. (r.findings ≡ []) ↔ ((rep.findings ≡ []) × CleanRole name count members))
          (role_round env vc rs name rep)
  unfolding role_round
  role_round-Clean name count members rep hc hm = Total-bind_post _ _ hc λ r e.
      Total-reply_post r
        (λ c p. Total-bind (emit _) _ (Total-emit _) λ _.
          Total-if_post (c == 0)
            (λ z. Total-pure _ ((λ y. (y, (c, sym e ∙ p, inl ((==_iff c 0).0 z)))), (λ y. y.0)))
            (λ nz. Total-bind_post _ _ (hm c) λ r' e'.
              Total-reply_post r'
                (λ read p'. Total-pure _ (
                  let both = report_role-findings env name c rep in
                  (
                    (λ z.
                        let (x, y) = both.0 z in (x, (c, sym e ∙ p, inr ((read, sym e' ∙ p'), y)))),
                    (λ (x, (c', q, y)). both.1 (x, (with_members name members c c' (cc) nz y).1)),
                  )))
                (λ x p'. Total-pure _ (
                  (λ z. cc ((append-eq-nil rep.findings _ z).1)),
                  (λ (y, (c', q, z)).
                      let ((read, f), _) = with_members name members c c' (cc) nz z in cc),
                ))))
        (λ x p.
          Total-pure _ ((λ z. cc ((append-eq-nil rep.findings _ z).1)), (λ (y, (c', q, z)). cc)))

-- If the node answers `getRoleMembers` with a payload whose array offset is within 32 of 2^64, the
-- round of `roles` for that role panics, which ends the process. The role has a member, so that
-- its members are asked for, and the payload has at least 64 bytes and fits the address space.
pub role_round_panics :
    {F W : Type 0} (env : Env F W) (vc : VersionConfig) (rs : Address) (name : Str) (rep : Report)
    (s s' : State F W) (c : ℕ) (out : Bytes) (w : W)
    → get_role_member_count env rs (role_hash env.geth name) s ≡ ret (ok c) s'
    → c ≢ 0
    → Answers env rs
        (must_selector env.geth (str "getRoleMembers(bytes32,uint256,uint256)")
          ++ (role_hash env.geth name ++ (pad_uint 0 ++ pad_uint (enumerated c))))
        s'
        out
        w
    → 64 ≤ length out
    → length out ≤ 2 ^ 48
    → 2 ^ 64 ≤ offset_of out + 32
    → (t : State F W) × (role_round env vc rs name rep s ≡ panic t)
unfolding role_round ◌>>=◌ get_role_members or_crash
role_round_panics {F} {W} env vc rs name rep s s' c out w counted some_member answers long fits
      far =
    let busy : (c == 0) ≡ false = ground arith in
    let event = set_to Metrics.role_members_count (vc.name ∷ name ∷ []) (env.floats.of_uint c) in
    let after : State F W = record s' { trace = s'.trace ++ event ∷ [] } in
    let broken : decode_address_array env.geth out ≡ none =
      (decode_address_array_panics env.geth out long fits).1 (inl far) in
    (
      record after { world = w },
      rw (counted, busy, call_answered env rs _ out after w answers, broken),
    )

-- When the answers do not change during the run, `roles` reports no finding exactly when for every
-- role name the number of members was read and, unless it is 0, the members were read and are at
-- most five if the role is CONFIG_KEEPER, TIMELOCK_ADMIN, TIMELOCK_MULTISIG or GOV_TOKEN_CONTROLLER.
pub role_run-findings :
    {F W : Type 0} (env : Env F W) (vc : VersionConfig) (role_names : List Str)
    (count : Str → Reply ℕ) (members : Str → ℕ → Reply (List Address)) (s : State F W)
    → ((name : Str)
        → Always
            (get_role_member_count env
              (env.geth.hex_to_address vc.role_store)
              (role_hash env.geth name))
            (count name))
    → ((name : Str) (c : ℕ)
        → Always
            (get_role_members env
              (env.geth.hex_to_address vc.role_store)
              (role_hash env.geth name)
              0
              (enumerated c))
            (members name c))
    → ReturnsWith
        (λ result.
          (result.0.findings ≡ [])
          ↔ All (λ name. CleanRole name (count name) (members name)) role_names)
        (role_run env role_names vc s)
unfolding role_run
role_run-findings env vc role_names count members s hc hm =
    let rs = env.geth.hex_to_address vc.role_store in
    (Total-bind_post _ _
        (Total-foreach_iff (role_round env vc rs) (λ r. r.findings ≡ [])
          (λ name. CleanRole name (count name) (members name)) role_names
          (λ name rep.
            role_round-Clean env vc rs name (count name) (members name) rep (hc name) (hm name))
          empty_report)
        λ rep both.
          Total-bind (emit _) _ (Total-emit _)
            λ _. Total-pure _ ((λ z. (both.0 z).1), (λ y. both.1 (refl, y)))).at
      s
