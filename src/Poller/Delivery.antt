-- ===== src/Poller/Delivery.antt =====
-- internal/poller: a result that waits at the sender, through the sender's polls and executions.
use relayra.Prelude.{ℕ, String, ◌≡◌, refl, Bool, false, Option, none, some, List, ◌==ₛ◌, All}
use relayra.Models.{RelayRequest, RelayResult, PollPayloadUp, PollPayloadDown, completed}
use relayra.Codec.{Codec}
use relayra.Settings.{Settings}
use relayra.Redis.{Redis}
use relayra.Redis.Keys.{Space, key_eq-apart}
use relayra.Redis.Keys
use relayra.Redis.Objects.{target}
use relayra.Redis.Frame.{Spares}
use relayra.Redis.Actions.{calm}
use relayra.Redis.Actions.Calm.{Ends-holds}
use relayra.Redis.Actions.Always.{
  Always, Always-pure, Always-attempt, Always-try, Always-bind, Always-after,
}
use relayra.Proxy.{Manager}
use relayra.Proxy.Frame.{
  is_proxy_kind, mark_success-Always, mark_failed-Always, get_transport-Always,
}
use relayra.Store.Chunks.Frame.{is_chunk_kind, list_chunk_receipts-Always}
use relayra.Store.Outbox.Frame.{is_outbox_kind}
use relayra.Store.Sender.{pending_set, pending_key}
use relayra.Store.Sender.Frame.{is_sender_kind, list_sender_request_states-Always}
use relayra.Store.Sender.Pending.{
  IsPending, IsPending-elsewhere, push_result-IsPending, repush_results-IsPending,
  ack_results-IsPending, lease_results-IsPending,
}
use relayra.Poller.Incoming.{after_push, execute}
use relayra.Poller.Cycle.{
  Reply, unsent, unreachable, refused, unreadable, replied, build_payload_up, process_poll_response,
  after_response, after_reply, after_transport, send_payload,
}
use relayra.Poller.Frame.{
  queue_sender_result_ws-Always, report-Always, take_chunks-Always, take_requests-Always,
}

-- the reply does not acknowledge the result
abbrev pub DoesNotAck : String → Reply → Type 0
DoesNotAck id (replied down) = All (λ j. (j ==ₛ id) ≡ false) down.ack_result_ids
DoesNotAck id _ = Unit

module _ ⦃R : Redis⦄ ⦃C : Codec⦄ (id : String) where
  open R use {Db}

  -- what is written under keys of other kinds keeps the result
  IsPending-spared :
      (sort : Space → Bool)
      → sort Keys.pending_results ≡ false
      → sort Keys.pending_result ≡ false
      → Spares sort (IsPending id)
  IsPending-spared sort not_set not_hash c of d h =
      IsPending-elsewhere id d c (key_eq-apart sort (target c) pending_set of not_set)
        (key_eq-apart sort (target c) (pending_key id) of not_hash) h

  outbox : Spares is_outbox_kind (IsPending id)
  outbox = IsPending-spared is_outbox_kind refl refl

  sender : Spares is_sender_kind (IsPending id)
  sender = IsPending-spared is_sender_kind refl refl

  chunks : Spares is_chunk_kind (IsPending id)
  chunks = IsPending-spared is_chunk_kind refl refl

  proxies : Spares is_proxy_kind (IsPending id)
  proxies = IsPending-spared is_proxy_kind refl refl

  module _ (cfg : Settings) (listener_id : String) where
    -- the execution of a request, this one's or another's
    pub execute-IsPending :
        (j : String) (result : RelayResult) (now now_milli done_at done_milli : ℕ)
        → Always (IsPending id) (execute cfg listener_id j result now now_milli done_at done_milli)
    unfolding execute
    execute-IsPending j result now now_milli done_at done_milli =
        Always-bind _ _
          (report-Always (IsPending id) outbox listener_id sender cfg j _ now now_milli)
          (λ _.
            Always-bind _ _ (Always-try _ (push_result-IsPending id result done_milli done_at))
              pushed)
      where
        pushed :
            (stored : Option (Unit {0}))
            → Always (IsPending id) (after_push cfg listener_id result j stored done_at done_milli)
        pushed none = Always-pure tt
        pushed (some _) =
            Always-bind _ _
              (Always-attempt _ (
                queue_sender_result_ws-Always (IsPending id) outbox listener_id done_at done_milli
                  (some result) _))
              (λ _.
                report-Always (IsPending id) outbox listener_id sender cfg j completed done_at
                  done_milli)

    module _ (now now_milli : ℕ) where
      -- The payload is built where the exchanges of `LeaseResults` succeed.
      pub build_payload_up-IsPending :
          (d : Db)
          → IsPending id d
          → IsPending id (build_payload_up cfg listener_id now now_milli (calm d)).1.db
      unfolding build_payload_up
      build_payload_up-IsPending d h =
          Always-after _ _ (calm d) (Ends-holds ((lease_results-IsPending id _ _ now).at d h))
            (λ results. Always-bind _ _ list_sender_request_states-Always (λ states.
              Always-bind _ _ (list_chunk_receipts-Always chunks) (λ receipts. Always-pure _)))

      process_poll_response-IsPending :
          (down : PollPayloadDown)
          → All (λ j. (j ==ₛ id) ≡ false) down.ack_result_ids
          → Always (IsPending id) (process_poll_response cfg listener_id now now_milli down)
      unfolding process_poll_response
      process_poll_response-IsPending down others =
          Always-bind _ _ (ack_results-IsPending id down.ack_result_ids others) (λ _.
            Always-bind _ _
              (take_chunks-Always (IsPending id) outbox listener_id sender cfg chunks now now_milli
                _)
              (λ from_chunks.
                Always-bind _ _
                  (take_requests-Always (IsPending id) outbox listener_id sender cfg chunks now
                    now_milli _)
                  (λ whole. Always-pure _)))

      after_reply-IsPending :
          (proxy_url : String) (results : List RelayResult) (reply : Reply)
          → DoesNotAck id reply
          → Always
              (IsPending id)
              (after_reply cfg listener_id now now_milli proxy_url results reply)
      unfolding after_reply after_response
      after_reply-IsPending proxy_url results unsent other = Always-pure _
      after_reply-IsPending proxy_url results unreachable other =
          Always-bind _ _ (mark_failed-Always proxies proxy_url now) (λ _.
            Always-bind _ _ (Always-attempt _ (repush_results-IsPending id results))
              (λ _. Always-pure _))
      after_reply-IsPending proxy_url results refused other =
          Always-bind _ _ (Always-attempt _ (repush_results-IsPending id results))
            (λ _. Always-pure _)
      after_reply-IsPending proxy_url results unreadable other = Always-pure _
      after_reply-IsPending proxy_url results (replied down) others =
          Always-bind _ _ (Always-try _ (process_poll_response-IsPending down others)) marked
        where
          marked :
              (done : Option (List RelayRequest))
              → Always (IsPending id) (after_response cfg listener_id now now_milli proxy_url done)
          marked none = Always-pure _
          marked (some dispatched) =
              Always-bind _ _ (mark_success-Always proxies proxy_url now) (λ _. Always-pure _)

      pub send_payload-IsPending :
          (creates : String → Bool) (m : Manager) (up : PollPayloadUp) (reply : Reply)
          → DoesNotAck id reply
          → Always (IsPending id) (send_payload cfg listener_id now now_milli creates m up reply)
      unfolding send_payload after_transport
      send_payload-IsPending creates m up reply other =
          Always-bind _ _ (Always-try _ (get_transport-Always proxies creates m now)) sent
        where
          sent :
              (proxy_url : Option String)
              → Always (IsPending id) (
                  after_transport cfg listener_id now now_milli creates m up.results proxy_url
                    reply)
          sent none = Always-pure _
          sent (some proxy_url) = after_reply-IsPending proxy_url up.results reply other
