-- ===== src/Proxy/Server.antt =====
-- proxyserver.c: what a listener thread does with one connection, what a worker thread does with
-- one work, and the steps of the server. Each critical section of `mutex` is one step; between the
-- two of a request the listener touches nothing shared, so a request is one step.
pub mod Invariant
pub mod Jobs
use hanlin.Base.{
  ℕ, zero, suc, ◌+◌, ◌≤◌, ◌<◌, ◌≡◌, ◌≢◌, Bool, true, false, List, [], ◌∷◌, ◌++◌, Option, none, some,
  ◌==◌, if◌then◌else◌, ltb, ltb_ℤ, ℤ, pos, length, Run, ok, fault, null_dereference, use_after_free,
  buffer_overflow, ◌>>=◌,
}
use hanlin.CString.{c_str, str_eq}
use hanlin.Proxy.Queue.{
  RequestInfo, PqItem, PriorityQueue, Str, null, text, dangling, create_queue, add_work, get_work,
  get_work_nonblocking,
}
use hanlin.Proxy.Request.{codes, parse_request, get_priority_from_path}
use hanlin.Proxy.Http.{
  Response, queue_full, queue_empty, bad_gateway, http_get_response_message, send_error_response,
  send_get_job_response, http_send_data, taken,
}

-- The replies of the `GetJob` branch: an error if no work was there, and else the work's path.
unfoldable pub send_path : Str → PriorityQueue → Run (Option Response × PriorityQueue)
send_path null pq = fault null_dereference
send_path dangling pq = fault use_after_free
send_path (text path) pq = do response ← send_get_job_response path; ok (some response, pq)

unfoldable pub answer_job :
    Option RequestInfo → PriorityQueue → Run (Option Response × PriorityQueue)
unfolding send_path
answer_job none pq =
    ok (some (send_error_response queue_empty (http_get_response_message queue_empty)), pq)
answer_job (some job) pq = send_path job.path pq

-- The `GetJob` branch of `serve_forever`.
unfoldable pub handle_get_job : PriorityQueue → Run (Option Response × PriorityQueue)
unfolding answer_job
handle_get_job pq = do r ← get_work_nonblocking pq; answer_job r.0 r.1

-- The rest of the branch for a file: refuse on a full queue, and else add the work.
unfoldable pub handle_file :
    ℕ → PriorityQueue → RequestInfo → List ℕ → Run (Option Response × PriorityQueue)
handle_file max_queue_size pq info path =
    if pq.size == max_queue_size
    then ok (some (send_error_response queue_full (http_get_response_message queue_full)), pq)
    else (do q ← add_work pq info (get_priority_from_path path); ok (none, q))

-- One round of the loop of `serve_forever`, once the request is parsed: `strcmp` on a NULL path is
-- undefined.
unfoldable pub dispatch :
    ℕ → PriorityQueue → RequestInfo → Str → Run (Option Response × PriorityQueue)
unfolding handle_get_job handle_file
dispatch max_queue_size pq info null = fault null_dereference
dispatch max_queue_size pq info dangling = fault use_after_free
dispatch max_queue_size pq info (text path) =
    if str_eq path (codes "/GetJob")
    then handle_get_job pq
    else handle_file max_queue_size pq info path

-- The round on an accepted connection `fd` from which `recv` got `received`, fewer bytes than the
-- buffer has.
unfoldable pub handle_request :
    ℕ → PriorityQueue → ℤ → List ℕ → Run (Option Response × PriorityQueue)
unfolding dispatch
handle_request max_queue_size pq fd received =
    let buffer = c_str received in
    let req_info = parse_request buffer in
    dispatch max_queue_size pq (record req_info { client_fd = fd; buffer = text buffer })
      req_info.path

-- The loop of `serve_request` that forwards the answer of the file server, one round for each call of
-- `recv`: what it gets, at most 9999 bytes, or `none` if it fails, and what the calls of `write` to the
-- client answer. The block behind `buffer` has `capacity` bytes. The result is what the client has got
-- when the loop ends, or waits for another answer.
unfoldable pub forward : ℕ → List (Option (List ℕ) × List ℤ) → Run (List ℕ)
unfolding taken http_send_data
forward capacity [] = ok []
forward capacity ((none, writes) ∷ rounds) = ok []
forward capacity ((some [], writes) ∷ rounds) = ok []
forward capacity ((some (b ∷ bs), writes) ∷ rounds) =
    let chunk = b ∷ bs in
    let rest = forward capacity rounds in
    if ltb capacity (length chunk) then fault buffer_overflow else (do
      bytes ← taken writes chunk (length chunk) 0
      elim (http_send_data writes (length chunk) 0) [
        | none ↦ ok bytes
        | some (ret, sent) ↦
            if ltb_ℤ ret (pos 0) then ok bytes else (do more ← rest; ok (bytes ++ more))
      ])

-- What a call does: an error response to the client, or bytes to the file server and bytes to the client.
pub data Reply : Type 0 where
  error_reply : Response → Reply
  forwarded : List ℕ → List ℕ → Reply

-- `serve_request`, on whether `connect` succeeds, what the calls of `write` to the file server answer,
-- and the rounds of the loop.
unfoldable pub serve_request : List ℕ → Bool → List ℤ → List (Option (List ℕ) × List ℤ) → Run Reply
unfolding forward taken http_send_data
serve_request buffer connected writes rounds =
    let refused = error_reply (send_error_response bad_gateway (codes "Bad Gateway")) in
    if connected
    then (do
      request ← taken writes buffer (length buffer) 0
      elim (http_send_data writes (length buffer) 0) [
        | none ↦ ok (forwarded request [])
        | some (ret, sent) ↦
            if ltb_ℤ ret (pos 0)
            then ok refused
            else (do bytes ← forward (suc (length buffer)) rounds; ok (forwarded request bytes))
      ])
    else ok refused

-- The server takes steps: a listener handles a request, or a worker that finds the queue not empty
-- takes a work.
pub data Step (max : ℕ) : PriorityQueue → PriorityQueue → Type 0 where
  listen :
      {p q : PriorityQueue} (fd : ℤ) (received : List ℕ) (response : Option Response)
      → handle_request max p fd received ≡ ok (response, q)
      → Step max p q
  work :
      {p q : PriorityQueue} (job : Option RequestInfo)
      → p.size ≢ 0
      → get_work p ≡ ok (job, q)
      → Step max p q

-- The states that the server reaches; `main` allocates the queue with capacity `max`.
pub data Reach (max : ℕ) : PriorityQueue → Type 0 where
  start : (block : List PqItem) → length block ≡ max → Reach max (create_queue block max)
  later : {p q : PriorityQueue} → Reach max p → Step max p q → Reach max q
