-- ===== src/Notify/Send.antt =====
-- When `Send` reports success.
use hertz_reconciler.Prelude.{
  ℕ, ◌<◌, ◌≡◌, ◌↔◌, ◌⊎◌, inl, inr, refl, Option, none, some, [], ◌∷◌, Str, arith,
}
use hertz_reconciler.Chain.Reply.{Reply, ok, err}
use hertz_reconciler.Runtime.{State, pure, ◌>>=◌}
use hertz_reconciler.Runtime.Total.{ReturnsWith}
use hertz_reconciler.Notify.{Http, Slack, send, enabled, post_text, status_error}

-- The webhook took the text: a request could be made, and it was answered with a status under 300.
abbrev pub Accepted : Option Str → Reply ℕ → Type 0
Accepted request answer = (request ≡ none) × ((code : ℕ) × (answer ≡ ok code) × (code < 300))

status_error_iff :
    (code : ℕ) (answer : Reply ℕ)
    → answer ≡ ok code
    → (status_error code ≡ none) ↔ Accepted none answer
unfolding status_error
status_error_iff code answer e = (
  (λ h. (refl, (code, e, ground arith))),
  (λ (p, (code', q, small)). let same : code ≡ code' = cc in ground arith),
)

module _ {F W : Type 0} (http : Http W) where
  post_text_iff :
      (s : Slack) (text : Str) (request : Option Str) (answer : Reply ℕ) (w : W) (st : State F W)
      → http.post s.webhook_url (http.marshal text) st.world ≡ (answer, w)
      → ReturnsWith (λ e. (e ≡ none) ↔ Accepted request answer) (post_text http s text request st)
  unfolding post_text ◌>>=◌
  post_text_iff s text (some x) answer w st h = (some x, st, refl, ((λ p. cc), (λ (p, q). cc)))
  post_text_iff s text none (ok code) w st h =
      (status_error code, record st { world = w }, rw h, status_error_iff code (ok code) refl)
  post_text_iff s text none (err x) w st h =
      (some x, record st { world = w }, rw h, ((λ p. cc), (λ (p, (c, q, l)). cc)))

-- `Send` returns, and it returns no error exactly when there is no webhook, or a request could be
-- made for its URL and the webhook answered it with a status under 300.
pub send_iff :
    {F W : Type 0} (http : Http W) (url text : Str) (answer : Reply ℕ) (w : W) (st : State F W)
    → http.post url (http.marshal text) st.world ≡ (answer, w)
    → ReturnsWith
        (λ e. (e ≡ none) ↔ ((url ≡ []) ⊎ Accepted (http.request_error url) answer))
        (send http (record { webhook_url = url }) text st)
unfolding send enabled pure
send_iff http [] text answer w st h = (none, st, refl, ((λ p. inl refl), (λ p. refl)))
send_iff http (c ∷ url) text answer w st h =
    let (e, st', r, both) =
      post_text_iff http (record { webhook_url = c ∷ url }) text (http.request_error (c ∷ url))
        answer w st h in
    (e, st', r, ((λ p. inr (both.0 p)), (λ p. elim p [ inl q ↦ cc | inr q ↦ both.1 q ])))
