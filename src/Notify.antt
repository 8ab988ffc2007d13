-- ===== src/Notify.antt =====
-- internal/notify/slack.go: the webhook of the daily digest. JSON and HTTP are parameters.
pub mod Send
use hertz_reconciler.Prelude.{
  ℕ, Bool, true, false, not, Option, none, some, Str, str, ◌++◌, decimal, leb, if◌then◌else◌,
}
use hertz_reconciler.Chain.Reply.{Reply, ok, err}
use hertz_reconciler.Config.{is_empty}
use hertz_reconciler.Runtime.{M, ask, pure, on_reply, ◌>>=◌}

-- What `Send` uses of Go's standard library.
pub record Http (W : Type 0) : Type 0 where
  -- `json.Marshal(slackPayload{Text: text})`
  pub marshal : Str → Str
  -- the error of `http.NewRequestWithContext` for a URL, if it has one
  pub request_error : Str → Option Str
  -- `client.Do(req)` for a POST of a body: the status code of the response
  pub post : Str → Str → W → Reply ℕ × W

pub record Slack : Type 0 where
  pub webhook_url : Str

-- `NewSlack`
abbrev pub new_slack : Str → Slack
new_slack url = record { webhook_url = url }

unfoldable pub enabled : Slack → Bool
enabled s = not (is_empty s.webhook_url)

-- The error for a status code.
unfoldable pub status_error : ℕ → Option Str
status_error code =
    if leb 300 code then some (str "slack webhook returned " ++ decimal code) else none

module _ {F W : Type 0} (http : Http W) where
  -- `Send` behind the making of the request
  unfoldable pub post_text : Slack → Str → Option Str → M F W (Option Str)
  unfolding status_error
  post_text s text (some e) = pure (some e)
  post_text s text none = do
    r ← ask (http.post s.webhook_url (http.marshal text))
    on_reply r (λ code. pure (status_error code)) (λ e. pure (some e))

  unfoldable pub send : Slack → Str → M F W (Option Str)
  unfolding enabled post_text
  send s text = if enabled s then post_text s text (http.request_error s.webhook_url) else pure none
