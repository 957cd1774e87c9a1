-- ===== src/Agent/Client/Retry.antt =====
-- What the retries of agent/internal/client/client.go come to.
use rdp_warp_portal.Prelude.{
  ℕ, zero, suc, ◌≤◌, ◌≡◌, refl, ◌↔◌, ◌⊎◌, true, false, List, [], ◌∷◌, ltb, leb, ◌&&◌, Text, Result,
  ok, err, if◌then◌else◌, arith, Bool-cases, inl, inr,
}
use rdp_warp_portal.Agent.Client.{
  Reply, lost, answered, Body, buffer, file, ClientError, cancelled, exhausted, Network, send,
  after_send, retry_from, do_with_retry, upload_chunk, waited_before, status_error, read_status,
}

-- The first reply of a list that is an answer below 500.
unfoldable pub first_answer : List Reply → Result ClientError (ℕ × Text)
first_answer [] = err exhausted
first_answer (lost ∷ rest) = first_answer rest
first_answer (answered status content ∷ rest) =
    let later = first_answer rest in if leb 500 status then later else ok (status, content)

-- If the context is not done, a call whose body can be read again returns the first answer below 500
-- among three replies, or fails if there is none.
pub do_with_retry-first_answer :
    (net : Network)
    → net.done 1 ≡ false
    → net.done 2 ≡ false
    → (do_with_retry net buffer).result
      ≡ first_answer (net.reply 0 ∷ net.reply 1 ∷ net.reply 2 ∷ [])
unfolding do_with_retry retry_from send after_send waited_before first_answer
do_with_retry-first_answer net one two = ground arith

-- Every call makes at most three attempts and waits for at most three seconds.
pub do_with_retry_bounds :
    (net : Network) (body : Body)
    → ((do_with_retry net body).attempts ≤ 3) × ((do_with_retry net body).waited ≤ 3)
unfolding do_with_retry retry_from send after_send waited_before
do_with_retry_bounds net body = ground arith

-- A closed file is never sent.
retry_from-closed :
    (left attempt waited : ℕ) (net : Network)
    → (e : ClientError) × ((retry_from left attempt waited net (file false)).result ≡ err e)
unfolding retry_from send after_send
retry_from-closed zero attempt waited net = (exhausted, refl)
retry_from-closed (suc left) attempt waited net =
    let (e, later) = retry_from-closed left (suc attempt) (waited_before attempt waited) net in
    elim (Bool-cases (ltb 0 attempt && net.done attempt)) [
      | inl stop ↦ (cancelled, rw stop refl)
      | inr go ↦ (e, rw go later)
    ]

-- An upload after its first reply.
upload_result :
    (net : Network) (status : ℕ) (content : Text)
    → net.reply 0 ≡ answered status content
    → (upload_chunk true net ≡ ok tt) ↔ (status_error 200 201 status ≡ ok tt)
unfolding upload_chunk do_with_retry retry_from send after_send read_status status_error
upload_result net status content h =
    let (e, later) = retry_from-closed 2 1 0 net in ground (arith, later)

-- An upload sends its file in the first attempt only: it succeeds exactly when the first reply has
-- the status 200 or 201, whatever the network does later.
pub upload_chunk-ok :
    (net : Network)
    → (upload_chunk true net ≡ ok tt) ↔ (
        (status : ℕ) × (content : Text) × (net.reply 0 ≡ answered status content)
        × ((status ≡ 200) ⊎ (status ≡ 201)))
unfolding upload_chunk do_with_retry retry_from send after_send read_status status_error
upload_chunk-ok net = (λ h. ground arith, λ h. ground arith)
