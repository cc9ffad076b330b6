-- ===== src/Proxy/Tests.antt =====
-- Runs of the queue, the parser and the server, and the theorems at states that they reach.
use hanlin.Base.{
  ℕ, ◌+◌, ◌<◌, ◌≡◌, refl, true, List, [], ◌∷◌, Option, none, some, ℤ, arith, Perm, pos, negsuc,
  ◌≤ℤ◌, ok, fault, buffer_overflow, use_after_free, Returns, load, store, exchange, if◌then◌else◌,
}
use mathlib.Core.List.{flatten}
use hanlin.CString.{c_str, str_eq, strtok, atoi, is_in}
use hanlin.CString.Tokens.{tokens}
use hanlin.Proxy.Queue.{
  text, PqItem, PriorityQueue, blank, add_work, dequeue, get_work, create_queue, works, sift_up,
  copy_info,
}
use hanlin.Proxy.Queue.Order.{IsValid, key}
use hanlin.Proxy.Queue.Insert.{Added, add_work_correct}
use hanlin.Proxy.Queue.Remove.{dequeue_correct, dequeue_few}
use hanlin.Proxy.Request.{codes, parse_request, get_priority_from_path, parse_header}
use hanlin.Proxy.Http.{http_send_data, http_send_data-sends}
use hanlin.Proxy.Server.{
  Reach, start, later, listen, handle_request, handle_get_job, serve_request, forwarded,
}
use hanlin.Proxy.Server.Invariant.{IsServing, Reach-IsServing}
use hanlin.Proxy.Server.Jobs.{
  get_job_highest, last_work_faults, job_response, serve_request-connected, all_fit, answered,
}

abbrev hello : List ℕ
hello = codes "GET /3/a.html HTTP/1.1\nDelay: 12\n"

abbrev again : List ℕ
again = codes "GET /10/b.html HTTP/1.1\n"

-- The work that a request for `path` on connection `fd` is.
abbrev work_of : List ℕ → ℕ → List ℕ → ℕ → ℕ → PqItem
work_of buffer fd path delay priority = record {
  value = record { delay = pos delay; client_fd = pos fd; path = text path; buffer = text buffer };
  priority = pos priority;
}

abbrev first : PqItem
first = work_of hello 4 (codes "/3/a.html") 12 3

abbrev second : PqItem
second = work_of again 5 (codes "/10/b.html") 0 10

abbrev queue_of : List PqItem → ℕ → PriorityQueue
queue_of items size = record { items = items; capacity = 2; size = size }

abbrev one_work : PriorityQueue
one_work = queue_of (first ∷ blank ∷ []) 1

abbrev two_works : PriorityQueue
two_works = queue_of (second ∷ first ∷ []) 2

tokens_run : tokens (is_in (32 ∷ [])) (codes " ab  c") ≡ codes "ab" ∷ codes "c" ∷ []
unfolding tokens is_in
tokens_run = refl

minus : atoi (codes " -42x") ≡ negsuc 41
unfolding atoi
minus = refl

-- The server from its start: each request is one step.
after_start : Reach 2 (create_queue (blank ∷ blank ∷ []) 2)
after_start = start (blank ∷ blank ∷ []) refl

after_one : Reach 2 one_work
unfolding handle_request add_work sift_up parse_request strtok is_in atoi c_str str_eq copy_info
    create_queue load store exchange get_priority_from_path parse_header
after_one = later after_start (listen (pos 4) hello none refl)

after_two : Reach 2 two_works
unfolding handle_request add_work sift_up parse_request strtok is_in atoi c_str str_eq copy_info
    load store exchange get_priority_from_path parse_header
after_two = later after_one (listen (pos 5) again none refl)

Reach-IsServing_example : IsServing 2 two_works
Reach-IsServing_example = Reach-IsServing 2 after_two

get_job_highest_example :
    Returns
      (λ r.
        (r.0 ≡ some (job_response (codes "/10/b.html")))
        × IsValid r.1
        × Perm (second ∷ works r.1) (works two_works)
        × ((i : ℕ) → i < 2 → key (second ∷ first ∷ []) i ≤ℤ pos 10))
      (handle_get_job two_works)
get_job_highest_example =
    get_job_highest 2 two_works after_two (codes "/10/b.html") (omega arith) refl (omega arith)

last_work_faults_example :
    (get_work one_work ≡ fault use_after_free) × (handle_get_job one_work ≡ fault use_after_free)
last_work_faults_example = last_work_faults 2 one_work after_one refl

dequeue_correct_example :
    Returns
      (λ r.
        (r.0 ≡ some second.value)
        × IsValid r.1
        × Perm (second ∷ works r.1) (works two_works)
        × ((i : ℕ) → i < 2 → key (second ∷ first ∷ []) i ≤ℤ pos 10)
        × (r.1.capacity ≡ 2)
        × (r.1.size + 1 ≡ 2))
      (dequeue two_works)
dequeue_correct_example = dequeue_correct two_works Reach-IsServing_example.valid (omega arith)

dequeue_few_example :
    (one_work.size ≡ 0 → dequeue one_work ≡ ok (none, one_work))
    × ((s : List ℕ)
        → one_work.size ≡ 1
        → text (codes "/3/a.html") ≡ text s
        → dequeue one_work ≡ fault use_after_free)
dequeue_few_example = dequeue_few one_work (Reach-IsServing 2 after_one).valid

add_work_correct_example :
    Returns (Added one_work second.value (pos 10)) (add_work one_work second.value (pos 10))
add_work_correct_example =
    add_work_correct one_work second.value (pos 10) (Reach-IsServing 2 after_one).valid
      (omega arith) refl

http_send_data-sends_example : http_send_data (pos 3 ∷ pos 4 ∷ []) 7 0 ≡ some (pos 0, 7)
http_send_data-sends_example =
    http_send_data-sends (pos 3 ∷ pos 4 ∷ []) 7 0 (omega arith) (omega arith)

-- Two rounds, a failed `recv`, and a round that the loop does not reach.
abbrev rounds : List (Option (List ℕ) × List ℤ)
rounds =
    (some (codes "012"), pos 2 ∷ pos 1 ∷ [])
    ∷ (some (codes "3"), pos 1 ∷ [])
    ∷ (none, [])
    ∷ (some (codes "4"), pos 1 ∷ [])
    ∷ []

serve_request-connected_example : serve_request (codes "GET") true (pos 3 ∷ []) rounds ≡ (
    if all_fit 4 (answered rounds)
    then ok (forwarded (codes "GET") (flatten (answered rounds)))
    else fault buffer_overflow)
serve_request-connected_example =
    serve_request-connected (codes "GET") (pos 3 ∷ []) rounds (omega arith) (omega arith)
      (ground arith)
