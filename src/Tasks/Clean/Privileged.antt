-- ===== src/Tasks/Clean/Privileged.antt =====
-- The roles that internal/reconciler/role.go calls privileged, by their names.
use hertz_reconciler.Prelude.{
  ◌≡◌, ◌↔◌, ◌⊎◌, inl, inr, refl, Bool, true, false, ◌||◌, Str, str, str_eq, str_eq_sound,
  str_eq_refl,
}
use hertz_reconciler.Tasks.Role.{is_privileged_role}

-- A role of which few members are expected.
abbrev pub IsPrivileged : Str → Type 0
IsPrivileged name =
    (name ≡ str "CONFIG_KEEPER")
    ⊎ (name ≡ str "TIMELOCK_ADMIN")
    ⊎ (name ≡ str "TIMELOCK_MULTISIG")
    ⊎ (name ≡ str "GOV_TOKEN_CONTROLLER")

str_eq_iff : (s t : Str) → (str_eq s t ≡ true) ↔ (s ≡ t)
str_eq_iff s t = (str_eq_sound s t, λ p. rw p (str_eq_refl t))

or_iff :
    {P Q : Type 0} {b c : Bool} → ((b ≡ true) ↔ P) → ((c ≡ true) ↔ Q) → ((b || c) ≡ true) ↔ (P ⊎ Q)
or_iff {b = true} (f, g) (h, k) = ((λ e. inl (f refl)), (λ z. refl))
or_iff {b = false} {c} (f, g) (h, k) =
    ((λ e. inr (h e)), (λ z. elim z [ inl p ↦ cc (g p) | inr q ↦ k q ]))

pub is_privileged_role_iff : (name : Str) → (is_privileged_role name ≡ true) ↔ IsPrivileged name
unfolding is_privileged_role
is_privileged_role_iff name =
    or_iff (str_eq_iff name _)
      (or_iff (str_eq_iff name _) (or_iff (str_eq_iff name _) (str_eq_iff name _)))
