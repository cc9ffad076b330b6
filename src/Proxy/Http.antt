-- ===== src/Proxy/Http.antt =====
-- proxyserver.h and proxyserver.c: the responses, and the loop that writes a block to a socket.
use hanlin.Base.{
  ℕ, suc, ◌+◌, ◌-◌, ◌%◌, ◌/◌, ◌++◌, ◌^◌, ◌≤◌, ◌<◌, ◌≡◌, true, false, List, [], ◌∷◌, Option, none,
  some, ◌==◌, if◌then◌else◌, ltb, ℤ, pos, negsuc, arith, length, take, drop, Run, ok, fault,
  buffer_overflow, out_of_bounds, ◌>>=◌, refl, ap, zero,
}
use hanlin.Proxy.Request.{codes}

-- `status_code_t`
abbrev pub bad_gateway : ℕ
bad_gateway = 502

abbrev pub queue_full : ℕ
queue_full = 599

abbrev pub queue_empty : ℕ
queue_empty = 598

unfoldable pub http_get_response_message : ℕ → List ℕ
http_get_response_message status_code =
    if status_code == 100
    then codes "Continue"
    else if status_code == 200
    then codes "OK"
    else if status_code == 301
    then codes "Moved Permanently"
    else if status_code == 302
    then codes "Found"
    else if status_code == 304
    then codes "Not Modified"
    else if status_code == 400
    then codes "Bad Request"
    else if status_code == 401
    then codes "Unauthorized"
    else if status_code == 403
    then codes "Forbidden"
    else if status_code == 404
    then codes "Not Found"
    else if status_code == 405
    then codes "Method Not Allowed"
    else codes "Internal Server Error"

-- A whole response as the functions of proxyserver.h write it: the status and its reason for the
-- status line, the headers, and the body behind the empty line.
pub record Response : Type 0 where
  pub status : ℕ
  pub reason : List ℕ
  pub headers : List (List ℕ × List ℕ)
  pub body : List ℕ

unfoldable pub http_start_response : ℕ → Response
http_start_response status_code = record {
  status = status_code;
  reason = http_get_response_message status_code;
  headers = [];
  body = [];
}

unfoldable pub http_send_header : List ℕ → List ℕ → Response → Response
http_send_header key value r = record r { headers = r.headers ++ ((key, value) ∷ []) }

unfoldable pub http_send_string : List ℕ → Response → Response
http_send_string text r = record r { body = r.body ++ text }

-- `write` answers each call with a count, or -1. The state of the loop is `size`, a `size_t`, and
-- how far `data` has moved, a pointer's difference: both wrap. `bytes_sent` is a `size_t`, so -1 is
-- 2 ^ 64 - 1 there, and the test `bytes_sent < 0` never holds.
abbrev pub as_size : ℤ → ℕ
as_size (pos n) = n
as_size (negsuc n) = 2 ^ 64 - suc n

-- The loop, on the answers of `write` that it gets; `none` if it waits for another.
unfoldable pub http_send_data : List ℤ → ℕ → ℕ → Option (ℤ × ℕ)
http_send_data [] size sent = if ltb 0 size then none else some (pos 0, sent)
http_send_data (answer ∷ answers) size sent =
    let bytes_sent = as_size answer in
    let rest =
      http_send_data answers ((size + 2 ^ 64 - bytes_sent) % 2 ^ 64)
        ((sent + bytes_sent) % 2 ^ 64) in
    if ltb 0 size
    then (if ltb bytes_sent 0 then some (negsuc 0, sent) else rest)
    else some (pos 0, sent)

-- The bytes of `block` that the calls of `write` in that loop take; a failed one takes none. A call that
-- is handed memory outside the block is a fault.
unfoldable pub taken : List ℤ → List ℕ → ℕ → ℕ → Run (List ℕ)
taken [] block size sent = ok []
taken (pos n ∷ answers) block size sent =
    let rest = taken answers block ((size + 2 ^ 64 - n) % 2 ^ 64) ((sent + n) % 2 ^ 64) in
    if ltb 0 size
    then (if ltb (length block) (sent + size)
        then fault out_of_bounds
        else (do more ← rest; ok (take n (drop sent block) ++ more)))
    else ok []
taken (negsuc n ∷ answers) block size sent =
    let count = as_size (negsuc n) in
    let rest = taken answers block ((size + 2 ^ 64 - count) % 2 ^ 64) ((sent + count) % 2 ^ 64) in
    if ltb 0 size
    then (if ltb (length block) (sent + size) then fault out_of_bounds else rest)
    else ok []

unfoldable pub send_error_response : ℕ → List ℕ → Response
unfolding http_start_response http_send_header http_send_string
send_error_response err_code err_msg =
    http_send_string (err_msg ++ (10 ∷ []))
      (http_send_header (codes "Content-Type") (codes "text/html") (http_start_response err_code))

-- `%d` of a number of at most two digits.
abbrev pub two_digits : ℕ → List ℕ
two_digits n = if ltb n 10 then (48 + n) ∷ [] else (48 + n / 10) ∷ (48 + n % 10) ∷ []

-- `char strLength[3]` holds two digits and the NUL: a length of three digits overflows it.
unfoldable pub send_get_job_response : List ℕ → Run Response
unfolding http_start_response http_send_header http_send_string
send_get_job_response path =
    if ltb (length path) 100
    then ok (
        http_send_string path (
          http_send_header (codes "Content-length") (two_digits (length path)) (
            http_send_header (codes "Content-type") (codes "text/plain")
              (http_start_response 200))))
    else fault buffer_overflow

-- The answers of `write` are counts of at least 1 and at most what is left, up to the end.
abbrev pub Accepts : List ℤ → ℕ → Type 0
Accepts [] size = size ≡ 0
Accepts (pos n ∷ answers) size = (0 < n) × (n ≤ size) × Accepts answers (size - n)
Accepts (negsuc n ∷ answers) size = ⊥

-- No answer of `write` makes `http_send_data` return its failure value: every value that it returns
-- is 0, whatever `write` reports.
http_send_data-never_fails :
    (answers : List ℤ) (size sent : ℕ) (r : ℤ) (n : ℕ)
    → http_send_data answers size sent ≡ some (r, n)
    → r ≡ pos 0
unfolding http_send_data
http_send_data-never_fails [] size sent r n h = ground arith
http_send_data-never_fails (a ∷ answers) size sent r n h = ground (
  arith,
  http_send_data-never_fails answers ((size + 2 ^ 64 - as_size a) % 2 ^ 64)
      ((sent + as_size a) % 2 ^ 64) r n,
)

-- When every answer of `write` is a count, at least 1 and at most what is left, up to the end of a
-- block that fits the address space, `http_send_data` returns 0 with the whole block sent.
pub http_send_data-sends :
    (answers : List ℤ) (size sent : ℕ)
    → Accepts answers size
    → sent + size < 2 ^ 64
    → http_send_data answers size sent ≡ some (pos 0, sent + size)
unfolding http_send_data
http_send_data-sends [] size sent h b = ground arith
http_send_data-sends (pos n ∷ answers) size sent h b =
    let left : (size + 2 ^ 64 - n) % 2 ^ 64 ≡ size - n = omega arith in
    let moved : (sent + n) % 2 ^ 64 ≡ sent + n = omega arith in
    let rest = http_send_data-sends answers (size - n) (sent + n) h.2 (omega arith) in
    let more : ltb 0 size ≡ true = ground arith in
    let count : ltb n 0 ≡ false = ground arith in
    let whole : sent + n + (size - n) ≡ sent + size = omega arith in
    rw (more, count, left, moved) (rw (← whole) rest)
http_send_data-sends (negsuc n ∷ answers) size sent h b = absurd h

drop-nil : (n : ℕ) (none_left : List ℕ) → none_left ≡ [] → drop n none_left ≡ []
drop-nil zero none_left h = h
drop-nil (suc n) none_left h = rw h refl

drop-all : (n : ℕ) (block : List ℕ) → length block ≤ n → drop n block ≡ []
drop-all n [] h = drop-nil n [] refl
drop-all zero (b ∷ block) h = absurd (omega arith)
drop-all (suc n) (b ∷ block) h = drop-all n block (omega arith)

take-rest : (n : ℕ) (block : List ℕ) → take n block ++ drop n block ≡ block
take-rest zero block = refl
take-rest (suc n) [] = refl
take-rest (suc n) (b ∷ block) = ap (◌∷◌ b) (take-rest n block)

drop-drop : (n m k : ℕ) (block : List ℕ) → m + n ≡ k → drop n (drop m block) ≡ drop k block
drop-drop n zero k block h = let e : n ≡ k = omega (arith, h) in ap (λ j. drop j block) e
drop-drop n (suc m) zero block h = absurd (omega (arith, h))
drop-drop n (suc m) (suc k) [] h = drop-nil n [] refl
drop-drop n (suc m) (suc k) (b ∷ block) h = drop-drop n m k block (omega (arith, h))

take-drop : (n m : ℕ) (block : List ℕ) → take n (drop m block) ++ drop (m + n) block ≡ drop m block
take-drop n m block = rw (← drop-drop n m (m + n) block refl) (take-rest n (drop m block))

-- Under the conditions of `http_send_data-sends` the calls of `write` take what is left of the block.
pub taken-Accepts :
    (answers : List ℤ) (block : List ℕ) (size sent : ℕ)
    → Accepts answers size
    → sent + size ≡ length block
    → length block < 2 ^ 64
    → taken answers block size sent ≡ ok (drop sent block)
unfolding taken
taken-Accepts [] block size sent h whole b = rw (drop-all sent block (omega arith)) refl
taken-Accepts (pos n ∷ answers) block size sent h whole b =
    let left : (size + 2 ^ 64 - n) % 2 ^ 64 ≡ size - n = omega arith in
    let moved : (sent + n) % 2 ^ 64 ≡ sent + n = omega arith in
    let rest = taken-Accepts answers block (size - n) (sent + n) h.2 (omega arith) b in
    let more : ltb 0 size ≡ true = ground arith in
    let inside : ltb (length block) (sent + size) ≡ false = ground arith in
    rw (more, inside, left, moved) (rw rest (ap (λ bytes. ok bytes) (take-drop n sent block)))
taken-Accepts (negsuc n ∷ answers) block size sent h whole b = absurd h
