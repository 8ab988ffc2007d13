-- ===== src/Schedule/Once.antt =====
-- A run of `runOnce` over the tasks of main.go returns its digest.
use hertz_reconciler.Prelude.{
  ◌≡◌, refl, Bool, ◌&&◌, Option, none, some, List, map, Str, if◌then◌else◌,
}
use hertz_reconciler.Config.{Config}
use hertz_reconciler.Runtime.{Env, State, ◌>>=◌, pure}
use hertz_reconciler.Runtime.Total.{Total, ReturnsWith, Anything, Total-if, Total-pure, total_rules}
use hertz_reconciler.Reconciler.{Report}
use hertz_reconciler.Reconciler.RunAll.{origin, all_pairs}
use hertz_reconciler.Reconciler.Render.{render}
use hertz_reconciler.Notify.{Http, Slack, post_text, send, enabled}
use hertz_reconciler.Schedule.{run_once}
use hertz_reconciler.Tasks.{tasks}
use hertz_reconciler.Tasks.Whole.{IsDecodable, run_all-tasks-origin}

module _ {F W : Type 0} (http : Http W) where
  post_text-Total :
      (s : Slack) (text : Str) (e : Option Str) → Total {F = F} Anything (post_text http s text e)
  unfolding post_text
  post_text-Total s text none = search (total_rules, tt)
  post_text-Total s text (some e) = search (total_rules, tt)

  send-Total : (s : Slack) (text : Str) → Total {F = F} Anything (send http s text)
  unfolding send
  send-Total s text = search (total_rules, tt, post_text-Total)

  pub sent-Total :
      (b : Bool) (s : Slack) (text : Str)
      → Total {F = F} Anything (if b && enabled s then send http s text else pure none)
  sent-Total b s text = Total-if (b && enabled s) (send-Total s text) (Total-pure none tt)

-- Unless the node sends a payload on which `decodeAddressArray` panics, `runOnce` over the tasks of
-- main.go returns the digest of one report for every version and every task, however many calls of
-- the node fail and whatever the webhook answers.
pub run_once-render :
    {F W : Type 0} (http : Http W) (env : Env F W) (cfg : Config) (slack : Slack)
    (send_slack : Bool) (s : State F W)
    → IsDecodable env
    → (rs : List Report) × (map origin rs ≡ all_pairs cfg.versions (tasks env cfg))
      × ReturnsWith
          (λ result. result.0 ≡ render rs)
          (run_once http cfg (tasks env cfg) slack send_slack s)
unfolding run_once ◌>>=◌ pure
run_once-render http env cfg slack send_slack s h =
    let (rs, s', e, pairs) = run_all-tasks-origin env cfg s h in
    let (r, s'', q, _) = (sent-Total http send_slack slack (render rs)).at s' in
    (rs, pairs, ((render rs, r), s'', rw (e, q), refl))
