-- ===== src/Web/Analytics/Events.antt =====
-- web/src/lib/analytics-events.ts: the names of the events.
use micro_ai_paygate.Prelude.{String}

pub data AnalyticsEvent : Type 0 where
  sample_prompt_loaded summary_requested payment_challenge_received : AnalyticsEvent
  wallet_connect_requested wallet_connect_succeeded wallet_connect_failed : AnalyticsEvent
  chain_switch_requested chain_switch_succeeded chain_switch_failed : AnalyticsEvent
  payment_signature_started payment_signature_succeeded payment_signature_failed : AnalyticsEvent
  signed_retry_sent summary_completed summary_failed : AnalyticsEvent
  receipt_history_viewed summary_copied receipt_id_copied : AnalyticsEvent

unfoldable pub event_name : AnalyticsEvent → String
event_name sample_prompt_loaded = "sample prompt loaded"
event_name summary_requested = "summary requested"
event_name payment_challenge_received = "payment challenge received"
event_name wallet_connect_requested = "wallet connect requested"
event_name wallet_connect_succeeded = "wallet connect succeeded"
event_name wallet_connect_failed = "wallet connect failed"
event_name chain_switch_requested = "chain switch requested"
event_name chain_switch_succeeded = "chain switch succeeded"
event_name chain_switch_failed = "chain switch failed"
event_name payment_signature_started = "payment signature started"
event_name payment_signature_succeeded = "payment signature succeeded"
event_name payment_signature_failed = "payment signature failed"
event_name signed_retry_sent = "signed retry sent"
event_name summary_completed = "summary completed"
event_name summary_failed = "summary failed"
event_name receipt_history_viewed = "receipt history viewed"
event_name summary_copied = "summary copied"
event_name receipt_id_copied = "receipt id copied"
