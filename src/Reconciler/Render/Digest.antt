-- ===== src/Reconciler/Render/Digest.antt =====
-- `Render` against a text that is written without a map: a section for each version, with the
-- reports of that version, and then the findings in the order of the sections.
use hertz_reconciler.Prelude.{
  ◌≡◌, refl, sym, ap, ◌∙◌, List, [], ◌∷◌, ◌++◌, map, append_assoc, append-nil, Str, str, newline,
  gather,
}
use hertz_reconciler.Reconciler.{Report}
use hertz_reconciler.Reconciler.Render.{
  has_version, reports_of, group, write_lines, tagged, write_reports, write_versions,
  write_findings, finish, render,
}
use hertz_reconciler.Reconciler.Render.Groups.{
  of_version, reports_of-group, is_in, versions, Agrees, order_lem,
}

abbrev pub line_text : Str → Str
line_text l = str "  • " ++ (l ++ newline)

abbrev pub report_text : Report → Str
report_text r = (str "_" ++ (r.task ++ (str "_:" ++ newline))) ++ gather line_text r.lines

abbrev pub section_text : Str → List Report → Str
section_text ver rs =
    (newline ++ (str "*=== " ++ (ver ++ (str " ===*" ++ newline)))) ++ gather report_text rs

-- A finding, behind its version and its task in brackets.
abbrev pub labelled : Str → Str → Str → Str
labelled ver task f = str "[" ++ (ver ++ (str "/" ++ (task ++ (str "] " ++ f))))

abbrev pub findings_of : Str → List Report → List Str
findings_of ver rs = gather (λ r. map (labelled ver r.task) r.findings) rs

abbrev pub finding_text : Str → Str
finding_text f = str "  - " ++ (f ++ newline)

abbrev pub findings_text : List Str → Str
findings_text [] = []
findings_text (f ∷ fs) =
    (newline ++ (str "*⚠" ++ ((0xef ∷ 0xb8 ∷ 0x8f ∷ []) ++ (str " Findings*" ++ newline))))
    ++ gather finding_text (f ∷ fs)

abbrev pub digest : List Report → Str
digest rs =
    ((str "*Chain Reconciler — Daily Report*" ++ newline)
      ++ gather (λ ver. section_text ver (of_version ver rs)) (versions [] rs))
    ++ findings_text (gather (λ ver. findings_of ver (of_version ver rs)) (versions [] rs))

write_lines-gather : (ls : List Str) (b : Str) → write_lines ls b ≡ b ++ gather line_text ls
unfolding write_lines
write_lines-gather [] b = sym (append-nil b)
write_lines-gather (l ∷ ls) b =
    write_lines-gather ls (b ++ line_text l) ∙ append_assoc b (line_text l) (gather line_text ls)

write_findings-gather :
    (fs : List Str) (b : Str) → write_findings fs b ≡ b ++ gather finding_text fs
unfolding write_findings
write_findings-gather [] b = sym (append-nil b)
write_findings-gather (f ∷ fs) b =
    write_findings-gather fs (b ++ finding_text f)
    ∙ append_assoc b (finding_text f) (gather finding_text fs)

write_reports-gather :
    (ver : Str) (rs : List Report) (b : Str) (all : List Str)
    → write_reports ver rs (b, all) ≡ (b ++ gather report_text rs, all ++ findings_of ver rs)
unfolding write_reports tagged
write_reports-gather ver [] b all = cc (append-nil b, append-nil all)
write_reports-gather ver (r ∷ rs) b all =
    let head = str "_" ++ (r.task ++ (str "_:" ++ newline)) in
    let fs = map (labelled ver r.task) r.findings in
    let here =
      write_lines-gather r.lines (b ++ head) ∙ append_assoc b head (gather line_text r.lines) in
    ap (λ t. write_reports ver rs (t, all ++ fs)) here
    ∙ write_reports-gather ver rs (b ++ report_text r) (all ++ fs)
    ∙ cc (
      append_assoc b (report_text r) (gather report_text rs),
      append_assoc all fs (findings_of ver rs),
    )

write_versions-gather :
    (order : List Str) (m : List (Str × List Report)) (b : Str) (all : List Str)
    → write_versions order m (b, all) ≡ (
      b ++ gather (λ ver. section_text ver (reports_of ver m)) order,
      all ++ gather (λ ver. findings_of ver (reports_of ver m)) order,
    )
unfolding write_versions
write_versions-gather [] m b all = cc (append-nil b, append-nil all)
write_versions-gather (ver ∷ order) m b all =
    let rs = reports_of ver m in
    let head = newline ++ (str "*=== " ++ (ver ++ (str " ===*" ++ newline))) in
    let text = gather (λ v. section_text v (reports_of v m)) order in
    let fs = gather (λ v. findings_of v (reports_of v m)) order in
    ap (write_versions order m) (write_reports-gather ver rs (b ++ head) all)
    ∙ ap (λ t. write_versions order m (t, all ++ findings_of ver rs))
        (append_assoc b head (gather report_text rs))
    ∙ write_versions-gather order m (b ++ section_text ver rs) (all ++ findings_of ver rs)
    ∙ cc (append_assoc b (section_text ver rs) text, append_assoc all (findings_of ver rs) fs)

finish-findings_text : (b : Str) (fs : List Str) → finish (b, fs) ≡ b ++ findings_text fs
unfolding finish
finish-findings_text b [] = sym (append-nil b)
finish-findings_text b (f ∷ fs) =
    let head =
      newline ++ (str "*⚠" ++ ((0xef ∷ 0xb8 ∷ 0x8f ∷ []) ++ (str " Findings*" ++ newline))) in
    write_findings-gather (f ∷ fs) (b ++ head) ∙ append_assoc b head (gather finding_text (f ∷ fs))

gather-ext :
    {A B : Type 0} (f g : A → List B)
    → ((x : A) → f x ≡ g x)
    → (xs : List A) → gather f xs ≡ gather g xs
gather-ext f g h [] = refl
gather-ext f g h (x ∷ xs) = cc (h x, gather-ext f g h xs)

-- `Render` writes the digest: a section for each version, in the order in which the versions first
-- occur, with the reports of that version in their order, and then all findings, in the order of
-- the sections.
pub render-digest : (reports : List Report) → render reports ≡ digest reports
unfolding render has_version is_in Agrees
render-digest reports =
    let m = (group reports [] []).1 in
    let title = str "*Chain Reconciler — Daily Report*" ++ newline in
    let order = order_lem reports [] [] [] (λ ver. refl) in
    let sections =
      gather-ext (λ ver. section_text ver (reports_of ver m))
        (λ ver. section_text ver (of_version ver reports))
        (λ ver. ap (section_text ver) (reports_of-group ver reports)) in
    let findings =
      gather-ext (λ ver. findings_of ver (reports_of ver m))
        (λ ver. findings_of ver (of_version ver reports))
        (λ ver. ap (findings_of ver) (reports_of-group ver reports)) in
    ap (λ o. finish (write_versions o m (title, []))) order
    ∙ ap finish (write_versions-gather (versions [] reports) m title [])
    ∙ finish-findings_text _ _
    ∙ ap
        (λ t.
          (title ++ t)
          ++ findings_text
              (gather (λ ver. findings_of ver (reports_of ver m)) (versions [] reports)))
        (sections (versions [] reports))
    ∙ ap
        (λ t.
          (title ++ gather (λ ver. section_text ver (of_version ver reports)) (versions [] reports))
          ++ findings_text t)
        (findings (versions [] reports))
