-- ===== src/Proxy/Server/Invariant.antt =====
-- Every reachable state of the server is valid, and its queue holds at most `max_queue_size` works.
use mathlib.Core.List.Perm
use mathlib.Core.List.{forall_mem-cons, mem-cons_of_mem, not-mem-nil}
use mathlib.Core.Bool.{Bool-set}
use hanlin.Base.{
  ℕ, zero, suc, ◌<◌, ◌≡◌, ◌≢◌, inl, inr, refl, sym, ◌∙◌, Bool, true, false, List, Option, none,
  some, arith, subst, ℤ, Returns, Returns-value, Returns-weaken, Returns-if, Returns->>=, returns,
  Returns-ok, Ensures, Ensures->>=, ok-injective, Mem, ◌==◌, Bool-cases,
}
use hanlin.CString.{c_str, str_eq}
use hanlin.Proxy.Queue.{
  RequestInfo, PqItem, PriorityQueue, Str, null, text, dangling, create_queue, add_work, dequeue,
  get_work, get_work_nonblocking, works, readable,
}
use hanlin.Proxy.Queue.Order.{IsValid, entry, entry-mem}
use hanlin.Proxy.Queue.Insert.{add_work_correct, create_queue-IsValid}
use hanlin.Proxy.Queue.Remove.{dequeue_correct, dequeue_few}
use hanlin.Proxy.Request.{codes, get_priority_from_path}
use hanlin.Proxy.Http.{Response, send_get_job_response}
use hanlin.Proxy.Server.{
  handle_get_job, handle_file, handle_request, dispatch, answer_job, send_path, Step, listen, work,
  Reach, start, later,
}

abbrev is_text : Str → Bool
is_text null = false
is_text (text s) = true
is_text dangling = false

-- The invariant of the server: a valid queue of capacity `max` whose works all have a path.
pub record IsServing (max : ℕ) (pq : PriorityQueue) : Type 0 where
  pub valid : IsValid pq
  pub limit : pq.capacity ≡ max
  pub paths : (x : PqItem) → Mem x (works pq) → is_text x.value.path ≡ true

text_path : (p : Str) → is_text p ≡ true → (s : List ℕ) × (p ≡ text s)
text_path null h = cc
text_path (text s) h = (s, refl)
text_path dangling h = cc

module _ (max : ℕ) where
  pub top_path :
      (pq : PriorityQueue)
      → IsServing max pq
      → 0 < pq.size
      → (s : List ℕ) × ((entry pq.items 0).value.path ≡ text s)
  top_path pq v h = text_path _ (
      v.paths (entry pq.items 0)
        (entry-mem pq.size pq.items 0 (omega (arith, v.valid.room, v.valid.bounded)) h))

  -- What a `dequeue` that returns leaves.
  dequeue-IsServing :
      (pq : PriorityQueue)
      → IsServing max pq
      → (n : ℕ) → pq.size ≡ n
      → Ensures (λ r. IsServing max r.1) (dequeue pq)
  dequeue-IsServing pq v zero e r h =
      let same : (none, pq) ≡ r = ok-injective (sym ((dequeue_few pq v.valid).0 e) ∙ h) in
      subst (λ (r : Option RequestInfo × PriorityQueue). IsServing max r.1) same v
  dequeue-IsServing pq v (suc zero) e r h =
      let (s, p) = top_path pq v (omega arith) in cc ((dequeue_few pq v.valid).1 s e p)
  dequeue-IsServing pq v (suc (suc n)) e r h =
      let (r', p, (taken, valid, same, top, limit, size)) =
        Returns-value (dequeue_correct pq v.valid (omega arith)) in
      let q = r'.1 in
      subst (λ (r : Option RequestInfo × PriorityQueue). IsServing max r.1)
        (ok-injective (sym p ∙ h))
        (record {
          valid = valid;
          limit = limit ∙ v.limit;
          paths = λ x m. v.paths x ((Perm.mem_iff same).0 (mem-cons_of_mem (entry pq.items 0) m));
        })

  send_path-Ensures :
      (path : Str) (q : PriorityQueue)
      → IsServing max q
      → Ensures (λ r. IsServing max r.1) (send_path path q)
  unfolding send_path
  send_path-Ensures null q v = λ r h. cc
  send_path-Ensures dangling q v = λ r h. cc
  send_path-Ensures (text path) q v =
      Ensures->>= (λ _. Unit {0}) (λ r. IsServing max r.1) (send_get_job_response path) _
        (λ _ _. tt)
        (λ response _ r h.
          subst (λ (r : Option Response × PriorityQueue). IsServing max r.1) (ok-injective h) v)

  answer_job-Ensures :
      (job : Option RequestInfo) (q : PriorityQueue)
      → IsServing max q
      → Ensures (λ r. IsServing max r.1) (answer_job job q)
  unfolding answer_job
  answer_job-Ensures none q v =
      λ r h. subst (λ (r : Option Response × PriorityQueue). IsServing max r.1) (ok-injective h) v
  answer_job-Ensures (some job) q v = send_path-Ensures job.path q v

  handle_get_job-Ensures :
      (pq : PriorityQueue) → IsServing max pq → Ensures (λ r. IsServing max r.1) (handle_get_job pq)
  unfolding handle_get_job get_work_nonblocking
  handle_get_job-Ensures pq v =
      Ensures->>= (λ r. IsServing max r.1) (λ r. IsServing max r.1) (dequeue pq) _
        (dequeue-IsServing pq v pq.size refl) (λ r w. answer_job-Ensures r.0 r.1 w)

  -- Adding a request that has a path and can be read, below the limit.
  add_work-IsServing :
      (pq : PriorityQueue) (value : RequestInfo) (priority : ℤ)
      → IsServing max pq
      → pq.size ≢ max
      → readable value ≡ true
      → is_text value.path ≡ true
      → Returns (IsServing max) (add_work pq value priority)
  add_work-IsServing pq value priority v room r t =
      Returns-weaken
        (add_work_correct pq value priority v.valid (omega (arith, v.valid.bounded, v.limit)) r)
        λ q (valid, same, limit, size). record {
          valid = valid;
          limit = limit ∙ v.limit;
          paths = λ x m.
              (forall_mem-cons (λ y. Bool-set (is_text y.value.path) true)).1 (t, v.paths) x
                ((Perm.mem_iff same).0 m);
        }

  handle_file-Returns :
      (pq : PriorityQueue) (info : RequestInfo) (path : List ℕ)
      → IsServing max pq
      → readable info ≡ true
      → is_text info.path ≡ true
      → Returns (λ r. IsServing max r.1) (handle_file max pq info path)
  unfolding handle_file
  handle_file-Returns pq info path v r t =
      Returns-if (pq.size == max) (λ full. returns v)
        (λ room.
          Returns->>=
            (add_work-IsServing pq info (get_priority_from_path path) v (ground arith) r t)
            λ q w. returns w)

  dispatch-Ensures :
      (pq : PriorityQueue) (info : RequestInfo) (buffer : List ℕ) (path : Str)
      → info.path ≡ path
      → info.buffer ≡ text buffer
      → IsServing max pq
      → Ensures (λ r. IsServing max r.1) (dispatch max pq info path)
  unfolding dispatch
  dispatch-Ensures pq info buffer null e b v r h = cc
  dispatch-Ensures pq info buffer dangling e b v r h = cc
  dispatch-Ensures pq info buffer (text path) e b v r h =
      elim (Bool-cases (str_eq path (codes "/GetJob"))) [
        | inl job ↦ handle_get_job-Ensures pq v r (rw job at h)
        | inr file ↦
            Returns-ok (handle_file-Returns pq info path v (rw (e, b)) (rw e)) r (rw file at h)
      ]

  handle_request-IsServing :
      (pq : PriorityQueue) (fd : ℤ) (received : List ℕ)
      → IsServing max pq
      → Ensures (λ r. IsServing max r.1) (handle_request max pq fd received)
  unfolding handle_request
  handle_request-IsServing pq fd received v = dispatch-Ensures pq _ (c_str received) _ refl refl v

  Step-IsServing : {p q : PriorityQueue} → Step max p q → IsServing max p → IsServing max q
  unfolding get_work
  Step-IsServing {p} (listen fd received response h) v =
      handle_request-IsServing p fd received v (response, _) h
  Step-IsServing {p} (work job busy h) v = dequeue-IsServing p v p.size refl (job, _) h

  -- In every state that the server reaches the queue is valid, holds at most `max` works, and each
  -- of them has a path.
  pub Reach-IsServing : {q : PriorityQueue} → Reach max q → IsServing max q
  unfolding create_queue
  Reach-IsServing (start block e) =
      let (valid, none_yet) = create_queue-IsValid block max e in
      record { valid = valid; limit = refl; paths = λ x m. absurd (not-mem-nil m) }
  Reach-IsServing (later r s) = Step-IsServing s (Reach-IsServing r)
