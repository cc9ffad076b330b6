-- ===== src/Proxy/Server/Jobs.antt =====
-- What a client gets: the answers to `GetJob`, the refusal on a full queue, and the file server's
-- bytes; and the requests on which the server runs into undefined behaviour.
use hanlin.Base.{
  ℕ, suc, ◌≤◌, ◌<◌, ◌≡◌, refl, Bool, true, false, List, [], ◌∷◌, Option, none, some, ◌^◌, arith,
  length, ltb, ℤ, ◌≤ℤ◌, ok, fault, use_after_free, null_dereference, buffer_overflow, Returns,
  Returns->>=, returns, Perm, ◌==◌, if◌then◌else◌, Bool-cases, inl, inr, ◌&&◌,
}
use mathlib.Core.List.{flatten}
use mathlib.Core.Bool.{not}
use hanlin.CString.{c_str, str_eq}
use hanlin.Proxy.Queue.{PriorityQueue, null, text, works, get_work, get_work_nonblocking}
use hanlin.Proxy.Queue.Order.{IsValid, entry, key}
use hanlin.Proxy.Queue.Remove.{dequeue_correct, dequeue_few}
use hanlin.Proxy.Request.{codes, parse_request}
use hanlin.Proxy.Http.{
  Response, queue_full, send_error_response, send_get_job_response, http_get_response_message,
  two_digits, Accepts, http_send_data-sends, taken-Accepts,
}
use hanlin.Proxy.Server.{
  handle_get_job, handle_file, handle_request, dispatch, answer_job, forward, serve_request,
  forwarded, Reach,
}
use hanlin.Proxy.Server.Invariant.{Reach-IsServing, top_path}

-- The response to a `GetJob` that takes the work of path `path`.
abbrev pub job_response : List ℕ → Response
job_response path = record {
  status = 200;
  reason = codes "OK";
  headers =
      (codes "Content-type", codes "text/plain")
      ∷ (codes "Content-length", two_digits (length path))
      ∷ [];
  body = path;
}

send_get_job_response-short :
    (path : List ℕ) → length path < 100 → send_get_job_response path ≡ ok (job_response path)
unfolding send_get_job_response http_get_response_message
send_get_job_response-short path h = ground arith

send_get_job_response-long :
    (path : List ℕ) → 100 ≤ length path → send_get_job_response path ≡ fault buffer_overflow
unfolding send_get_job_response
send_get_job_response-long path h = ground arith

module _ (max : ℕ) (pq : PriorityQueue) (reached : Reach max pq) where
  -- In every reachable state with two works or more whose first path is shorter than 100 bytes,
  -- `GetJob` answers 200 with the path of a work that no other exceeds in priority, and takes
  -- exactly that work out.
  pub get_job_highest :
      (path : List ℕ)
      → 2 ≤ pq.size
      → (entry pq.items 0).value.path ≡ text path
      → length path < 100
      → Returns
          (λ r.
            (r.0 ≡ some (job_response path))
            × IsValid r.1
            × Perm (entry pq.items 0 ∷ works r.1) (works pq)
            × ((i : ℕ) → i < pq.size → key pq.items i ≤ℤ key pq.items 0))
          (handle_get_job pq)
  unfolding handle_get_job get_work_nonblocking answer_job
  get_job_highest path many p short =
      Returns->>= (dequeue_correct pq (Reach-IsServing max reached).valid many)
        λ r (taken, valid, same, top, limit, size).
          rw (taken, answer_job)
            (rw p (rw (send_get_job_response-short path short) (returns (refl, valid, same, top))))

  -- In every reachable state with exactly one work, neither a worker nor `GetJob` can take it: both
  -- read the path of the work after it is freed.
  pub last_work_faults :
      pq.size ≡ 1
      → (get_work pq ≡ fault use_after_free) × (handle_get_job pq ≡ fault use_after_free)
  unfolding handle_get_job get_work_nonblocking get_work
  last_work_faults one =
      let v = Reach-IsServing max reached in
      let (s, p) = top_path max pq v (omega arith) in
      let e = (dequeue_few pq v.valid).1 s one p in (e, rw e)

-- A request line with no second word: the server passes a NULL path to `strcmp`.
pub no_path_faults :
    (max : ℕ) (pq : PriorityQueue) (fd : ℤ) (received : List ℕ)
    → (parse_request (c_str received)).path ≡ null
    → handle_request max pq fd received ≡ fault null_dereference
unfolding handle_request dispatch
no_path_faults max pq fd received h = rw h

-- On a full queue a request for a file is refused with 599, and the queue stays as it is.
full_queue_refuses :
    (pq : PriorityQueue) (fd : ℤ) (received path : List ℕ)
    → (parse_request (c_str received)).path ≡ text path
    → str_eq path (codes "/GetJob") ≡ false
    → handle_request pq.size pq fd received
      ≡ ok (some (send_error_response queue_full (http_get_response_message queue_full)), pq)
unfolding handle_request dispatch handle_file
full_queue_refuses pq fd received path h file =
    let full : (pq.size == pq.size) ≡ true = ground arith in rw h (rw (file, full))

-- Whether every chunk fits the block of `capacity` bytes.
pub all_fit : ℕ → List (List ℕ) → Bool
all_fit capacity [] = true
all_fit capacity (chunk ∷ chunks) = not (ltb capacity (length chunk)) && all_fit capacity chunks

-- What `recv` gets before it fails or finds the end.
pub answered : List (Option (List ℕ) × List ℤ) → List (List ℕ)
answered [] = []
answered ((none, writes) ∷ rounds) = []
answered ((some [], writes) ∷ rounds) = []
answered ((some (b ∷ bs), writes) ∷ rounds) = (b ∷ bs) ∷ answered rounds

-- The calls of `write` in each round take the whole answer of `recv`.
abbrev pub AllAccept : List (Option (List ℕ) × List ℤ) → Type 0
AllAccept [] = Unit
AllAccept ((none, writes) ∷ rounds) = AllAccept rounds
AllAccept ((some chunk, writes) ∷ rounds) =
    Accepts writes (length chunk) × (length chunk < 2 ^ 64) × AllAccept rounds

forward_lem :
    (capacity : ℕ) (rounds : List (Option (List ℕ) × List ℤ))
    → AllAccept rounds
    → forward capacity rounds ≡ (
        if all_fit capacity (answered rounds)
        then ok (flatten (answered rounds))
        else fault buffer_overflow)
unfolding forward all_fit answered flatten
forward_lem capacity [] h = refl
forward_lem capacity ((none, writes) ∷ rounds) h = refl
forward_lem capacity ((some [], writes) ∷ rounds) h = refl
forward_lem capacity ((some (b ∷ bs), writes) ∷ rounds) h =
    let chunk = b ∷ bs in
    let got = taken-Accepts writes chunk (length chunk) 0 h.0 (omega arith) h.1 in
    let sent = http_send_data-sends writes (length chunk) 0 h.0 (omega (arith, h.1)) in
    let rest = forward_lem capacity rounds h.2 in
    elim (Bool-cases (ltb capacity (length chunk))) [
      | inl long ↦ rw long
      | inr fits ↦
          rw (fits, got, sent, rest)
            (elim (Bool-cases (all_fit capacity (answered rounds))) [ inl e ↦ rw e | inr e ↦ rw e ])
    ]

-- With the file server connected, and every call of `write` taking at least a byte and at most what is
-- left, the file server gets the whole request, and the client what `recv` gets before its first failure
-- or end, in order, if each answer of `recv` fits the block of the request's own text; else the block is
-- overrun. The answers may have 9999 bytes, whatever the length of the request.
pub serve_request-connected :
    (buffer : List ℕ) (writes : List ℤ) (rounds : List (Option (List ℕ) × List ℤ))
    → Accepts writes (length buffer)
    → length buffer < 2 ^ 64
    → AllAccept rounds
    → serve_request buffer true writes rounds ≡ (
        if all_fit (suc (length buffer)) (answered rounds)
        then ok (forwarded buffer (flatten (answered rounds)))
        else fault buffer_overflow)
unfolding serve_request
serve_request-connected buffer writes rounds request small accepted =
    let got = taken-Accepts writes buffer (length buffer) 0 request (omega arith) small in
    let sent = http_send_data-sends writes (length buffer) 0 request (omega (arith, small)) in
    rw (got, sent, forward_lem (suc (length buffer)) rounds accepted)
      (elim (Bool-cases (all_fit (suc (length buffer)) (answered rounds))) [
        | inl e ↦ rw e
        | inr e ↦ rw e
      ])
