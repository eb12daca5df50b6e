-- ===== src/Server/Webhooks/Turns.antt =====
-- The requests on webhooks, the events, the passes of the dispatcher and the clock, in any order.
use iaas_platform.Base.{ℕ, ◌+◌, Bool, Option}
use iaas_platform.Base.Text.{Text}
use iaas_platform.Server.{Lookup}
use iaas_platform.Server.Webhooks.{Queue, WebhookDelivery, emit}
use iaas_platform.Server.Webhooks.Events.{Url}
use iaas_platform.Server.Webhooks.Service.{
  Faults, CreateWebhookRequest, UpdateWebhookRequest, create, update, delete, ping,
}
use iaas_platform.Server.Webhooks.Dispatcher.{Answer, dispatch_once}

pub data Turn : Type 0 where
  creates : Option Text → CreateWebhookRequest → Turn
  updates : ℕ → UpdateWebhookRequest → Turn
  deletes pings : ℕ → Turn

-- A request to an organization, by a caller of whom `FindMember` finds this.
unfoldable pub serve : Faults → (Text → Option Url) → Lookup Text → ℕ → Turn → Queue → Queue
unfolding create update delete ping
serve f parse m org (creates generated r) q = (create f parse generated m org r q).0
serve f parse m org (updates id r) q = (update f parse m org id r q).0
serve f parse m org (deletes id) q = (delete f m org id q).0
serve f parse m org (pings id) q = (ping f m org id q).0

pub data Reach (parse : Text → Option Url) (q : Queue) : Queue → Type 0 where
  here : Reach parse q q
  asks :
      {p : Queue}
      → Reach parse q p
      → (f : Faults) (m : Lookup Text) (org : ℕ) (t : Turn)
      → Reach parse q (serve f parse m org t p)
  emits :
      {p : Queue}
      → Reach parse q p
      → (fails : Bool) (org : ℕ) (event : Text) → Reach parse q (emit fails org event p)
  dispatches :
      {p : Queue}
      → Reach parse q p
      → (endpoint : WebhookDelivery → Answer) (saves : ℕ → Bool)
      → Reach parse q (dispatch_once endpoint saves p).0
  waits : {p : Queue} → Reach parse q p → (ns : ℕ) → Reach parse q (record p { now = p.now + ns })
