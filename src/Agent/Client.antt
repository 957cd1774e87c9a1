-- ===== src/Agent/Client.antt =====
-- agent/internal/client/client.go: the requests to the broker and their retries. What a `Do` of
-- net/http comes to is the network's part; JSON is taken to be written without error.
pub mod Retry
pub mod Broker
use rdp_warp_portal.Prelude.{
  ℕ, zero, suc, ◌+◌, Bool, true, false, ◌&&◌, ◌||◌, Option, none, some, List, [], ◌∷◌, ◌++◌, ltb,
  leb, nat_eq, text_eq, Text, codes, Result, ok, err, if◌then◌else◌, ◌==◌, ◌>>=◌, get_or,
}
use rdp_warp_portal.Access.Router.{HttpRequest}

pub record Client : Type 0 where
  pub base_url : Text
  pub api_key : Text

-- What `httpClient.Do` returns: an error, or a response with its status and its body.
pub data Reply : Type 0 where
  lost : Reply
  answered : ℕ → Text → Reply

-- The body of a request. A buffer, or no body, can be read again; a file is closed by the transport,
-- also on an error, and a closed file cannot be read.
pub data Body : Type 0 where
  buffer : Body
  file : Bool → Body

pub data ClientError : Type 0 where
  invalid_request cancelled exhausted recording_gone bad_response : ClientError
  bad_status : ℕ → ClientError

-- The network, by the attempt: its reply, and whether the context is done in the wait before.
pub record Network : Type 0 where
  pub reply : ℕ → Reply
  pub done : ℕ → Bool

-- What a call comes to, with the attempts that are made and the seconds that are waited for.
pub record Outcome (A : Type 0) : Type 0 where
  pub result : Result ClientError A
  pub attempts : ℕ
  pub waited : ℕ

unfoldable pub send : Network → ℕ → Body → Reply
send net attempt buffer = net.reply attempt
send net attempt (file true) = net.reply attempt
send net attempt (file false) = lost

unfoldable pub after_send : Body → Body
after_send buffer = buffer
after_send (file readable) = file false

abbrev pub delays : List ℕ
delays = 1 ∷ 2 ∷ 4 ∷ []

-- The seconds that are waited for, with those before the attempt.
unfoldable pub waited_before : ℕ → ℕ → ℕ
waited_before zero waited = waited
waited_before (suc before) waited = waited + get_or delays before 0

-- The rounds that are left, the attempt, and what is spent before it.
unfoldable pub retry_from : ℕ → ℕ → ℕ → Network → Body → Outcome (ℕ × Text)
unfolding send after_send waited_before
retry_from zero attempt waited net body = record {
  result = err exhausted;
  attempts = attempt;
  waited = waited;
}
retry_from (suc left) attempt waited net body =
    let spent = waited_before attempt waited in
    let rest = retry_from left (suc attempt) spent net (after_send body) in
    if ltb 0 attempt && net.done attempt
    then record { result = err cancelled; attempts = attempt; waited = waited }
    else elim (send net attempt body) [
      | lost ↦ rest
      | answered status content ↦
          if leb 500 status
          then rest
          else record { result = ok (status, content); attempts = suc attempt; waited = spent }
    ]

unfoldable pub do_with_retry : Network → Body → Outcome (ℕ × Text)
unfolding retry_from
do_with_retry net body = retry_from 3 0 0 net body

-- The request: the header is set if there is a key.
unfoldable pub new_request : Client → Text → Text → HttpRequest
new_request c method path = record {
  method = method;
  path = path;
  authorization = if c.api_key == [] then [] else codes "Bearer " ++ c.api_key;
}

unfoldable pub status_error : ℕ → ℕ → ℕ → Result ClientError (Unit {0})
status_error good also_good status =
    if status == 404
    then err recording_gone
    else if status == good || status == also_good
    then ok tt
    else err (bad_status status)

-- The status that a call reads: not found means that the recording is gone.
unfoldable pub read_status : ℕ → ℕ → Result ClientError (ℕ × Text) → Result ClientError (Unit {0})
unfolding status_error
read_status good also_good (err e) = err e
read_status good also_good (ok (status, content)) = status_error good also_good status

unfoldable pub upload_chunk_request : Client → Text → HttpRequest
unfolding new_request
upload_chunk_request c id =
    new_request c (codes "POST") (codes "/api/recordings/" ++ id ++ codes "/chunks")

unfoldable pub send_events_request : Client → Text → HttpRequest
unfolding new_request
send_events_request c id =
    new_request c (codes "POST") (codes "/api/recordings/" ++ id ++ codes "/events")

unfoldable pub end_recording_request : Client → Text → HttpRequest
unfolding new_request
end_recording_request c id =
    new_request c (codes "PUT") (codes "/api/recordings/" ++ id ++ codes "/end")

unfoldable pub create_recording_request : Client → HttpRequest
unfolding new_request
create_recording_request c = new_request c (codes "POST") (codes "/api/recordings")

-- `valid` says whether net/http makes the request.
unfoldable pub upload_chunk : Bool → Network → Result ClientError (Unit {0})
unfolding do_with_retry read_status
upload_chunk false net = err invalid_request
upload_chunk true net = read_status 200 201 (do_with_retry net (file true)).result

unfoldable pub send_events : Bool → Network → Result ClientError (Unit {0})
unfolding do_with_retry read_status
send_events false net = err invalid_request
send_events true net = read_status 200 204 (do_with_retry net buffer).result

unfoldable pub end_recording : Bool → Network → Result ClientError (Unit {0})
unfolding do_with_retry read_status
end_recording false net = err invalid_request
end_recording true net = read_status 200 200 (do_with_retry net buffer).result

-- The id of the recording that `decode` reads in the answer. A recording that is not found is only
-- a bad status here.
unfoldable pub create_recording : Bool → (Text → Option Text) → Network → Result ClientError Text
unfolding do_with_retry
create_recording false decode net = err invalid_request
create_recording true decode net = elim (do_with_retry net buffer).result [
  | err e ↦ err e
  | ok (status, content) ↦
      if status == 200 || status == 201
      then elim (decode content) [ none ↦ err bad_response | some id ↦ ok id ]
      else err (bad_status status)
]

-- One attempt, without the key.
unfoldable pub health_check : Bool → Reply → Result ClientError (Unit {0})
health_check false reply = err invalid_request
health_check true lost = err exhausted
health_check true (answered status content) =
    if status == 200 then ok tt else err (bad_status status)
