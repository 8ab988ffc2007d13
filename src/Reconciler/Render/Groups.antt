-- ===== src/Reconciler/Render/Groups.antt =====
-- The grouping of the reports in `Render`: the map against a list that is only filtered, and the
-- order of the versions.
use hertz_reconciler.Prelude.{
  ◌≡◌, sym, ap, ◌∙◌, Bool, true, false, ◌||◌, inl, inr, List, [], ◌∷◌, ◌++◌, append_assoc,
  append-nil, Str, str_eq, str_eq_sound, arith, Bool-cases, if◌then◌else◌,
}
use hertz_reconciler.Reconciler.{Report}
use hertz_reconciler.Reconciler.Render.{has_version, reports_of, append_report, group}

-- The reports of a version, in order.
unfoldable pub of_version : Str → List Report → List Report
of_version ver [] = []
of_version ver (r ∷ rs) =
    let rest = of_version ver rs in if str_eq r.version ver then r ∷ rest else rest

-- Equal strings compare alike.
str_eq_left : (u v w : Str) → str_eq u v ≡ true → str_eq u w ≡ str_eq v w
str_eq_left u v w h = ap (λ z. str_eq z w) (str_eq_sound u v h)

str_eq_right : (u v w : Str) → str_eq v w ≡ true → str_eq u w ≡ str_eq u v
str_eq_right u v w h = ap (str_eq u) (sym (str_eq_sound v w h))

reports_of-append_report :
    (r : Report) (ver : Str) (m : List (Str × List Report))
    → reports_of ver (append_report r m)
      ≡ (if str_eq r.version ver then reports_of ver m ++ r ∷ [] else reports_of ver m)
unfolding reports_of append_report
reports_of-append_report r ver [] = ground arith
reports_of-append_report r ver ((v, rs) ∷ m) = elim (Bool-cases (str_eq v r.version)) [
  | inl e ↦ rw (e, ← str_eq_left v r.version ver e) (ground arith)
  | inr e ↦ elim (Bool-cases (str_eq r.version ver)) [
    | inl f ↦
        let other : str_eq v ver ≡ false = str_eq_right v r.version ver f ∙ e in
        rw (e, f, other) (reports_of-append_report r ver m ∙ (rw f))
    | inr f ↦
        rw (e, f)
          (ap (λ l. if str_eq v ver then rs else l) (reports_of-append_report r ver m ∙ (rw f)))
  ]
]

group_lem :
    (ver : Str) (reports : List Report) (order : List Str) (m : List (Str × List Report))
    → reports_of ver (group reports order m).1 ≡ reports_of ver m ++ of_version ver reports
unfolding group of_version
group_lem ver [] order m = sym (append-nil (reports_of ver m))
group_lem ver (r ∷ rs) order m =
    group_lem ver rs _ (append_report r m)
    ∙ ap (λ l. l ++ of_version ver rs) (reports_of-append_report r ver m)
    ∙ elim (Bool-cases (str_eq r.version ver)) [
      | inl e ↦ rw e (append_assoc (reports_of ver m) (r ∷ []) (of_version ver rs))
      | inr e ↦ rw e
    ]

-- After the first loop of `Render` the map holds, under every version, the reports of that version,
-- in their order and each once.
pub reports_of-group :
    (ver : Str) (reports : List Report)
    → reports_of ver (group reports [] []).1 ≡ of_version ver reports
unfolding reports_of
reports_of-group ver reports = group_lem ver reports [] []

-- The string is one of the list.
unfoldable pub is_in : Str → List Str → Bool
is_in ver [] = false
is_in ver (v ∷ vs) = str_eq v ver || is_in ver vs

-- The versions of the reports that are not among `seen`, each once, in order of first occurrence.
unfoldable pub versions : List Str → List Report → List Str
unfolding is_in
versions seen [] = []
versions seen (r ∷ rs) = elim (is_in r.version seen) [
  | true ↦ versions seen rs
  | false ↦ r.version ∷ versions (r.version ∷ seen) rs
]

has_version-append_report :
    (r : Report) (ver : Str) (m : List (Str × List Report))
    → has_version ver (append_report r m) ≡ (str_eq r.version ver || has_version ver m)
unfolding has_version append_report
has_version-append_report r ver [] = ground arith
has_version-append_report r ver ((v, rs) ∷ m) = elim (Bool-cases (str_eq v r.version)) [
  | inl e ↦ rw (e, has_version, ← str_eq_left v r.version ver e) (ground arith)
  | inr e ↦ rw (e, has_version, has_version-append_report r ver m) (ground arith)
]

-- The keys of the map are the versions that were seen.
unfoldable pub Agrees : List Str → List (Str × List Report) → Type 0
Agrees seen m = (ver : Str) → has_version ver m ≡ is_in ver seen

Agrees-seen :
    (r : Report) (seen : List Str) (m : List (Str × List Report))
    → Agrees seen m
    → is_in r.version seen ≡ true
    → Agrees seen (append_report r m)
unfolding Agrees
Agrees-seen r seen m h old ver =
    has_version-append_report r ver m ∙ elim (Bool-cases (str_eq r.version ver)) [
      | inl e ↦
          let same : is_in ver seen ≡ true =
            ap (λ v. is_in v seen) (sym (str_eq_sound r.version ver e)) ∙ old in
          rw (e, same)
      | inr e ↦ rw e (h ver)
    ]

Agrees-new :
    (r : Report) (seen : List Str) (m : List (Str × List Report))
    → Agrees seen m
    → Agrees (r.version ∷ seen) (append_report r m)
unfolding Agrees is_in
Agrees-new r seen m h ver =
    has_version-append_report r ver m ∙ ap (λ b. str_eq r.version ver || b) (h ver)

versions_seen :
    (r : Report) (rs : List Report) (seen : List Str)
    → is_in r.version seen ≡ true
    → versions seen (r ∷ rs) ≡ versions seen rs
unfolding versions
versions_seen r rs seen e = rw (e, versions)

versions_new :
    (r : Report) (rs : List Report) (seen : List Str)
    → is_in r.version seen ≡ false
    → versions seen (r ∷ rs) ≡ r.version ∷ versions (r.version ∷ seen) rs
unfolding versions
versions_new r rs seen e = rw (e, versions)

pub order_lem :
    (reports : List Report) (order seen : List Str) (m : List (Str × List Report))
    → Agrees seen m
    → (group reports order m).0 ≡ order ++ versions seen reports
unfolding group versions Agrees
order_lem [] order seen m h = sym (append-nil order)
order_lem (r ∷ rs) order seen m h =
    let m' = append_report r m in
    let next = λ (b : Bool). if b then order else order ++ r.version ∷ [] in
    elim (Bool-cases (is_in r.version seen)) [
      | inl e ↦
          ap (λ b. (group rs (next b) m').0) (h r.version ∙ e)
          ∙ order_lem rs order seen m' (Agrees-seen r seen m h e)
          ∙ ap (λ l. order ++ l) (sym (versions_seen r rs seen e))
      | inr e ↦
          ap (λ b. (group rs (next b) m').0) (h r.version ∙ e)
          ∙ order_lem rs (order ++ r.version ∷ []) (r.version ∷ seen) m' (Agrees-new r seen m h)
          ∙ append_assoc order (r.version ∷ []) (versions (r.version ∷ seen) rs)
          ∙ ap (λ l. order ++ l) (sym (versions_new r rs seen e))
    ]
