-- ===== src/Payments/Event.antt =====
-- `extractMercadoPagoWebhookEvent` of src/modules/payments/mercadopago-webhook.util.ts: the event that
-- a notification names, in its query (IPN) or in its body (webhooks).
use Prim.Native.Char.{code}
use mathlib.Core.Option
use deptoflex_back.Prelude.{
  Bool, Option, String, false, if◌then◌else◌, none, not, refl, same_text, some, to_lower_case, trim,
  true, ◌&&◌, ◌==◌, ◌otherwise◌, ◌≡◌,
}

-- The fields of the query that are read
pub record WebhookQuery : Type 0 where
  pub type_name : Option String
  pub topic : Option String
  pub data_id : Option String
  pub id : Option String

-- The fields of the body that are read, the names where they are texts and the ids as texts; none
-- where the body is not an object
pub record WebhookBody : Type 0 where
  pub type_name : Option String
  pub topic : Option String
  pub action : Option String
  pub data_id : Option String
  pub id : Option String

-- `MercadoPagoWebhookEvent`
pub record NamedEvent : Type 0 where
  pub type_name : String
  pub resource_id : String

unfoldable pub is_empty_text : String → Bool
is_empty_text String.[] = true
is_empty_text (String.◌∷◌ c s) = false

-- `a ?? b`
unfoldable pub first_given : Option String → Option String → Option String
first_given (some a) b = some a
first_given none b = b

-- `text.split('.')[0]`
unfoldable pub before_dot : String → String
before_dot String.[] = String.[]
before_dot (String.◌∷◌ c s) =
    let rest = before_dot s in if code c == 46 then String.[] else String.◌∷◌ c rest

-- `rawType`
unfoldable pub raw_type : WebhookQuery → WebhookBody → Option String
unfolding first_given before_dot
raw_type query body = first_given query.type_name (
    first_given query.topic
      (first_given body.type_name (first_given body.topic (Option.map before_dot body.action))))

-- `resourceId`, before it is trimmed, for an event of the type
unfoldable pub raw_resource_id : WebhookQuery → WebhookBody → String → String
unfolding is_empty_text first_given
raw_resource_id query body type_name =
    let asked = first_given query.data_id query.id otherwise "" in
    let of_data = if is_empty_text asked then body.data_id otherwise asked else asked in
    if is_empty_text of_data && not (same_text type_name "payment")
    then body.id otherwise of_data
    else of_data

unfoldable pub event_of : String → String → Option NamedEvent
unfolding is_empty_text
event_of type_name resource_id =
    if is_empty_text resource_id
    then none
    else some (record { type_name = type_name; resource_id = resource_id })

-- `extractMercadoPagoWebhookEvent`
unfoldable pub extract_webhook_event : WebhookQuery → WebhookBody → Option NamedEvent
unfolding raw_type raw_resource_id event_of
extract_webhook_event query body =
    let type_name = to_lower_case (trim (raw_type query body otherwise "")) in
    if is_empty_text type_name
    then none
    else event_of type_name (trim (raw_resource_id query body type_name))

-- A notification in the form of IPN: `?topic=..&id=..`
abbrev pub ipn : NamedEvent → WebhookQuery
ipn e = record {
  type_name = none;
  topic = some e.type_name;
  data_id = none;
  id = some e.resource_id;
}

abbrev pub no_query : WebhookQuery
no_query = record { type_name = none; topic = none; data_id = none; id = none }

abbrev pub no_body : WebhookBody
no_body = record { type_name = none; topic = none; action = none; data_id = none; id = none }

-- A notification in the form of webhooks: `{ id, type, data: { id } }`
abbrev pub webhook_body : String → NamedEvent → WebhookBody
webhook_body notification e = record no_body {
  type_name = some e.type_name;
  data_id = some e.resource_id;
  id = some notification;
}

payment_alone :
    (notification : String)
    → extract_webhook_event no_query
        (record no_body { type_name = some "payment"; id = some notification })
      ≡ none
unfolding extract_webhook_event raw_type raw_resource_id event_of first_given is_empty_text trim
    to_lower_case same_text
payment_alone notification = refl

-- An event whose type is in lower case, and whose type and id are trimmed and not empty, is read back
-- from a notification of either form, whatever the id of the notification; a payment's notification
-- that names no payment has no event, whatever its own id.
pub extract_webhook_event-reads :
    (e : NamedEvent) (notification : String)
    → to_lower_case (trim e.type_name) ≡ e.type_name
    → trim e.resource_id ≡ e.resource_id
    → is_empty_text e.type_name ≡ false
    → is_empty_text e.resource_id ≡ false
    → (extract_webhook_event (ipn e) no_body ≡ some e)
      × (extract_webhook_event no_query (webhook_body notification e) ≡ some e)
      × (extract_webhook_event no_query
            (record no_body { type_name = some "payment"; id = some notification })
          ≡ none)
unfolding extract_webhook_event raw_type raw_resource_id event_of first_given
extract_webhook_event-reads e notification t i n m =
    (rw (t, n, m, m, i, m) refl, rw (t, n, m, i, m) refl, payment_alone notification)
