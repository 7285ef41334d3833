-- ===== src/Sync/Reply.antt =====
-- The answers of Master and what the delivery makes of them (app/services/master_sync.py).
-- Hashing and JSON decoding are parameters. The clock and the answers come from the environment,
-- one `Round` for each turn of the loop.
use setuora_lite.Base.{
  ℕ, Text, min, ◌*◌, Option, ◌^◌, take, none, Bool, true, max, squeeze, [], if◌then◌else◌, false,
  is_empty, some, one_of, ltb, ◌||◌, upper, ◌∷◌, length, codes, ◌==◌, not, ◌&&◌, leb, nat_eq,
  text_eq,
}
use setuora_lite.Sync.Rows.{Event, SyncMessage}
use setuora_lite.Sync.Json.{
  Json, Items, Fields, text_of, get, is_at_least, is_number, as_int, equals_int,
}

-- What the request came to: an answer, an `HTTPError`, a failure of the network, another exception.
pub data Reply : Type 0 where
  answer : ℕ → Text → Reply
  http_error : ℕ → Text → Reply
  network_error : Reply
  other_error : Reply

-- The readings of `utc_now()` in one turn, and the answer to its request.
pub record Round : Type 0 where
  pub now : ℕ
  pub failed_at : ℕ
  pub sent_at : ℕ
  pub reply : Reply

-- What the code uses of `hashlib`, `json` and `str`, and the settings of the connection.
pub record Env : Type 0 where
  pub sha256 : Text → Text
  pub loads : Text → Option Json
  pub show : Json → Text
  pub request_timeout : ℕ
  pub round : ℕ → Round

-- `min(3600, 2 ** min(max(attempts, 1), 11))` seconds
unfoldable pub retry_delay : ℕ → ℕ
retry_delay attempts = min 3600 (2 ^ min (max attempts 1) 11)

abbrev pub max_error_body : ℕ
max_error_body = 64 * 1024

-- `_bounded_master_error_envelope`
unfoldable pub error_envelope : Env → Text → Option Fields
error_envelope env body =
    if is_empty body || ltb max_error_body (length body) then none else elim (env.loads body) [
      | none ↦ none
      | some (Json.obj payload) ↦ elim (get (codes "error") payload) [
        | Json.obj error ↦ some error
        | _ ↦ none
      ]
      | some _ ↦ none
    ]

-- `_bounded_remote_text`, with nothing to redact
unfoldable pub bounded_text : ℕ → Json → Text
bounded_text limit (Json.str value) = take limit (squeeze value)
bounded_text limit _ = []

-- `_master_http_error_code`
unfoldable pub http_error_code : Env → Text → Text
unfolding error_envelope bounded_text
http_error_code env body = elim (error_envelope env body) [
  | none ↦ []
  | some error ↦ upper (bounded_text 80 (get (codes "code") error))
]

-- `_http_status_is_retryable`: 408, 425, 429, 401, 403 and 500 up, and a 409 with the code
-- CONCURRENT_EVENT_CONFLICT.
unfoldable pub http_status_is_retryable : ℕ → Text → Bool
http_status_is_retryable status error_code =
    if one_of status (409 ∷ 412 ∷ [])
    then status == 409 && upper error_code == codes "CONCURRENT_EVENT_CONFLICT"
    else one_of status (408 ∷ 425 ∷ 429 ∷ []) || one_of status (401 ∷ 403 ∷ []) || leb 500 status

-- `any(isinstance(ack, dict) and … for ack in acknowledgements)`
unfoldable pub matches_event : Env → Event → Items → Bool
matches_event env event Items.nil = false
matches_event env event (Items.cons (Json.obj ack) rest) =
    (text_of env.show (get (codes "event_id") ack) == event.event_id
      && is_number event.id (equals_int (get (codes "sequence") ack)))
    || matches_event env event rest
matches_event env event (Items.cons _ rest) = matches_event env event rest

-- `_validate_event_acknowledgement`: `false` is a MasterSyncError.
unfoldable pub acknowledges : Env → Text → Event → Bool
unfolding matches_event
acknowledges env body event = if is_empty body then false else elim (env.loads body) [
  | some (Json.obj decoded) ↦ elim (get (codes "data") decoded) [
    | Json.obj details ↦ elim (get (codes "acknowledgements") details) [
      | Json.arr acks ↦
          is_at_least event.id (as_int (get (codes "last_sequence") details))
          && matches_event env event acks
      | _ ↦ false
    ]
    | _ ↦ false
  ]
  | _ ↦ false
]

abbrev pub max_response_body : ℕ
max_response_body = 5 * 1024 * 1024

-- What the loop makes of an answer: success, or the arguments of `_fail_outbox_event`.
pub data Verdict : Type 0 where
  accepted : Verdict
  refused : SyncMessage → Bool → Verdict

unfoldable pub verdict : Env → Event → Reply → Verdict
unfolding http_error_code http_status_is_retryable
verdict env event (Reply.http_error status body) =
    Verdict.refused (SyncMessage.http_summary status body)
      (http_status_is_retryable status (http_error_code env body))
verdict env event Reply.network_error = Verdict.refused SyncMessage.connection_failed true
verdict env event Reply.other_error = Verdict.refused SyncMessage.unexpected false
verdict env event (Reply.answer status body) =
    if ltb max_response_body (length body)
    then Verdict.refused SyncMessage.unexpected false
    else if not (leb 200 status && ltb status 300)
    then Verdict.refused (SyncMessage.http_summary status body)
        (http_status_is_retryable status (http_error_code env body))
    else if acknowledges env body event
    then Verdict.accepted
    else Verdict.refused SyncMessage.bad_acknowledgement true
