-- ===== src/Reconciler/Render/Quiet.antt =====
-- When the digest has no section of findings.
use mathlib.Core.Path.{subst}
use hertz_reconciler.Prelude.{
  ◌≡◌, ◌↔◌, refl, sym, ap, ◌∙◌, true, false, inl, inr, List, [], ◌∷◌, ◌++◌, map, append-nil, length,
  length-append, arith, Str, str, str_eq, str_eq_refl, str_eq_sound, newline, gather, All,
  Bool-cases,
}
use hertz_reconciler.Prelude.Counts.{gather-eq-nil, All-iff, All-weaken, All-rounds}
use hertz_reconciler.Reconciler.{Report}
use hertz_reconciler.Reconciler.Clean.{HasNoFinding}
use hertz_reconciler.Reconciler.Render.{render}
use hertz_reconciler.Reconciler.Render.Groups.{of_version, is_in, versions}
use hertz_reconciler.Reconciler.Render.Digest.{
  labelled, section_text, findings_of, findings_text, render-digest,
}

-- The digest up to the findings: the title and the sections.
abbrev pub sections_text : List Report → Str
sections_text rs =
    (str "*Chain Reconciler — Daily Report*" ++ newline)
    ++ gather (λ ver. section_text ver (of_version ver rs)) (versions [] rs)

abbrev all_findings : List Report → List Str
all_findings rs = gather (λ ver. findings_of ver (of_version ver rs)) (versions [] rs)

map-eq-nil : {A B : Type 0} (f : A → B) (xs : List A) → (map f xs ≡ []) ↔ (xs ≡ [])
map-eq-nil f [] = ((λ z. refl), (λ z. refl))
map-eq-nil f (x ∷ xs) = ((λ z. cc), (λ z. cc))

findings_of-eq-nil : (ver : Str) (rs : List Report) → (findings_of ver rs ≡ []) ↔ HasNoFinding rs
findings_of-eq-nil ver rs =
    let nothing = gather-eq-nil (λ (r : Report). map (labelled ver r.task) r.findings) rs in
    let each = All-iff (λ (r : Report). map-eq-nil (labelled ver r.task) r.findings) rs in
    ((λ z. each.0 (nothing.0 z)), (λ c. nothing.1 (each.1 c)))

of_version-HasNoFinding :
    (ver : Str) (rs : List Report) → HasNoFinding rs → HasNoFinding (of_version ver rs)
unfolding of_version
of_version-HasNoFinding ver [] h = tt
of_version-HasNoFinding ver (r ∷ rs) (hr, h) = elim (Bool-cases (str_eq r.version ver)) [
  | inl e ↦ rw e (hr, of_version-HasNoFinding ver rs h)
  | inr e ↦ rw e (of_version-HasNoFinding ver rs h)
]

-- The reports of a version have no finding.
in_version :
    (ver : Str) (rs : List Report)
    → HasNoFinding (of_version ver rs)
    → All (λ r. str_eq r.version ver ≡ true → r.findings ≡ []) rs
unfolding of_version
in_version ver [] h = tt
in_version ver (r ∷ rs) h = elim (Bool-cases (str_eq r.version ver)) [
  | inl e ↦ let both = rw e at h in ((λ _. both.0), in_version ver rs both.1)
  | inr e ↦ ((λ same. cc), in_version ver rs (rw e at h))
]

diagonal :
    {A : Type 0} (R : A → A → Type 0) (xs : List A)
    → All (λ x. All (R x) xs) xs
    → All (λ x. R x x) xs
diagonal R [] h = tt
diagonal R (x ∷ xs) (hx, h) = (hx.0, diagonal R xs (All-weaken (λ y both. both.1) xs h))

-- What holds of each version that occurs holds of the version of each report.
of_each :
    (P : Str → Type 0) (seen : List Str) (rs : List Report)
    → ((v : Str) → is_in v seen ≡ true → P v)
    → All P (versions seen rs)
    → All (λ r. P (r.version)) rs
unfolding versions is_in
of_each P seen [] known h = tt
of_each P seen (r ∷ rs) known h = elim (Bool-cases (is_in r.version seen)) [
  | inl e ↦ (known r.version e, of_each P seen rs known (subst (All P) (known_version e) h))
  | inr e ↦
      let both = subst (All P) (new_version e) h in
      (
        both.0,
        of_each P (r.version ∷ seen) rs
            (λ v k. elim (Bool-cases (str_eq r.version v)) [
              | inl same ↦ subst P (str_eq_sound r.version v same) both.0
              | inr other ↦ known v (rw other at k)
            ])
            both.1,
      )
]
  where
    known_version : is_in r.version seen ≡ true → versions seen (r ∷ rs) ≡ versions seen rs
    known_version e = rw (e, versions) refl

    new_version :
        is_in r.version seen ≡ false
        → versions seen (r ∷ rs) ≡ r.version ∷ versions (r.version ∷ seen) rs
    new_version e = rw (e, versions) refl

pub none_found : (rs : List Report) → (all_findings rs ≡ []) ↔ HasNoFinding rs
unfolding is_in
none_found rs =
    let P = λ (ver : Str). HasNoFinding (of_version ver rs) in
    let nothing = gather-eq-nil (λ ver. findings_of ver (of_version ver rs)) (versions [] rs) in
    let each = All-iff (λ ver. findings_of-eq-nil ver (of_version ver rs)) (versions [] rs) in
    (
      (λ z.
          let everywhere = of_each P [] rs (λ v k. cc) (each.0 (nothing.0 z)) in
          All-weaken (λ r c. c (str_eq_refl r.version)) rs
            (diagonal (λ r x. str_eq x.version r.version ≡ true → x.findings ≡ []) rs
              (All-weaken (λ r c. in_version r.version rs c) rs everywhere))),
      (λ c.
          nothing.1
            (each.1 (All-rounds (λ ver. of_version-HasNoFinding ver rs c) (versions [] rs)))),
    )

append_self : {A : Type 0} (xs ys : List A) → xs ++ ys ≡ xs → ys ≡ []
append_self xs [] e = refl
append_self xs (y ∷ ys) e = absurd (omega (arith, length-append xs (y ∷ ys), ap length e))

findings_text-eq-nil : (fs : List Str) → findings_text fs ≡ [] → fs ≡ []
findings_text-eq-nil [] e = refl
findings_text-eq-nil (f ∷ fs) e = cc

-- The digest ends behind the sections, without a section of findings, exactly when no report has a
-- finding.
pub render_quiet_iff : (rs : List Report) → (render rs ≡ sections_text rs) ↔ HasNoFinding rs
render_quiet_iff rs =
    let nothing = none_found rs in
    let whole : render rs ≡ sections_text rs ++ findings_text (all_findings rs) =
      render-digest rs in
    (
      (λ e. nothing.0 (findings_text-eq-nil _ (append_self (sections_text rs) _ (sym whole ∙ e)))),
      (λ c. whole ∙ ap (λ fs. sections_text rs ++ findings_text fs) (nothing.1 c) ∙ append-nil _),
    )
