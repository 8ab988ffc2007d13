-- ===== src/Reconciler/Render.antt =====
-- `Render`: the reports grouped by version, in the order in which the versions first occur, then
-- all findings. The map `byVersion` is an association list; it is never ranged over.
pub mod Quiet
pub mod Groups
pub mod Digest
use hertz_reconciler.Prelude.{
  Bool, true, false, List, [], ◌∷◌, ◌++◌, map, Str, str, str_eq, newline, if◌then◌else◌,
}
use hertz_reconciler.Reconciler.{Report}

-- `_, ok := byVersion[version]`
unfoldable pub has_version : Str → List (Str × List Report) → Bool
has_version ver [] = false
has_version ver ((v, rs) ∷ m) = if str_eq v ver then true else has_version ver m

-- `byVersion[version]`, no reports for a missing key
unfoldable pub reports_of : Str → List (Str × List Report) → List Report
reports_of ver [] = []
reports_of ver ((v, rs) ∷ m) = if str_eq v ver then rs else reports_of ver m

-- `byVersion[r.Version] = append(byVersion[r.Version], r)`
unfoldable pub append_report : Report → List (Str × List Report) → List (Str × List Report)
append_report r [] = (r.version, r ∷ []) ∷ []
append_report r ((v, rs) ∷ m) =
    if str_eq v r.version then (v, rs ++ r ∷ []) ∷ m else (v, rs) ∷ append_report r m

-- The first loop: the order of the versions, and the reports of each.
unfoldable pub group :
    List Report → List Str → List (Str × List Report) → List Str × List (Str × List Report)
group [] order by_version = (order, by_version)
group (r ∷ rs) order by_version =
    group rs (if has_version r.version by_version then order else order ++ r.version ∷ [])
      (append_report r by_version)

-- `for _, l := range r.Lines { b.WriteString("  • " + l + "\n") }`
unfoldable pub write_lines : List Str → Str → Str
write_lines [] b = b
write_lines (l ∷ ls) b = write_lines ls (b ++ (str "  • " ++ (l ++ newline)))

-- `fmt.Sprintf("[%s/%s] %s", ver, r.Task, f)`
unfoldable pub tagged : Str → Str → Str → Str
tagged ver task f = str "[" ++ (ver ++ (str "/" ++ (task ++ (str "] " ++ f))))

-- The loops over the reports of one version; the state is the text and all findings so far.
unfoldable pub write_reports : Str → List Report → Str × List Str → Str × List Str
unfolding write_lines tagged
write_reports ver [] (b, all) = (b, all)
write_reports ver (r ∷ rs) (b, all) = write_reports ver rs (
  write_lines r.lines (b ++ (str "_" ++ (r.task ++ (str "_:" ++ newline)))),
  all ++ map (tagged ver r.task) r.findings,
)

unfoldable pub write_versions :
    List Str → List (Str × List Report) → Str × List Str → Str × List Str
unfolding reports_of write_reports
write_versions [] by_version acc = acc
write_versions (ver ∷ order) by_version (b, all) = write_versions order by_version (
    write_reports ver (reports_of ver by_version)
      (b ++ (newline ++ (str "*=== " ++ (ver ++ (str " ===*" ++ newline)))), all))

-- `for _, f := range allFindings { b.WriteString("  - " + f + "\n") }`
unfoldable pub write_findings : List Str → Str → Str
write_findings [] b = b
write_findings (f ∷ fs) b = write_findings fs (b ++ (str "  - " ++ (f ++ newline)))

-- `if len(allFindings) > 0 { ... }`. The sign is followed by U+FE0F, which is written as its bytes.
unfoldable pub finish : Str × List Str → Str
unfolding write_findings
finish (b, []) = b
finish (b, f ∷ fs) =
    write_findings (f ∷ fs)
      (b ++ (newline ++ (str "*⚠" ++ ((0xef ∷ 0xb8 ∷ 0x8f ∷ []) ++ (str " Findings*" ++ newline)))))

unfoldable pub render : List Report → Str
unfolding group has_version append_report write_versions finish
render reports =
    let (order, by_version) = group reports [] [] in
    finish
      (write_versions order by_version (str "*Chain Reconciler — Daily Report*" ++ newline, []))
