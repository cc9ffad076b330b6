-- ===== src/Shell/Numbers.antt =====
-- Numbered lists of jobs, and what the search by numbers prints.
use hanlin.Base.{
  ℕ, zero, suc, ◌+◌, ◌-◌, ◌≤◌, ◌<◌, ◌≡◌, refl, sym, ap, ap₂, ◌∙◌, List, [], ◌∷◌, ◌++◌, append-nil,
  append_assoc, Option, none, some, ltb, if◌then◌else◌, arith,
}
use hanlin.Shell.{Job, get_job_by_id, max_id, get_max_job_id, print_from, print_jobs}

-- The newest job stands first and has the greatest number, and every number is positive.
abbrev pub IsNumbered : List Job → Type 0
IsNumbered [] = Unit
IsNumbered (j ∷ jobs) = (get_max_job_id jobs < j.job_id) × IsNumbered jobs

max_id-max :
    (jobs : List Job) (m : ℕ)
    → max_id jobs m ≡ (if ltb m (get_max_job_id jobs) then get_max_job_id jobs else m)
unfolding max_id get_max_job_id
max_id-max [] m = ground arith
max_id-max (j ∷ jobs) m =
    ground (arith, max_id-max jobs m, max_id-max jobs j.job_id, max_id-max jobs 0)

-- In a numbered list the first job has the greatest number.
pub get_max_job_id-first :
    (j : Job) (jobs : List Job) → IsNumbered (j ∷ jobs) → get_max_job_id (j ∷ jobs) ≡ j.job_id
unfolding get_max_job_id max_id
get_max_job_id-first j jobs v = ground (arith, max_id-max jobs j.job_id, v.0)

-- No job has a number above the greatest.
get_job_by_id-above :
    (jobs : List Job) (id : ℕ)
    → IsNumbered jobs
    → get_max_job_id jobs < id
    → get_job_by_id jobs id ≡ none
unfolding get_job_by_id
get_job_by_id-above [] id v h = refl
get_job_by_id-above (j ∷ jobs) id v h =
    let top = get_max_job_id-first j jobs v in ground (arith, top, get_job_by_id-above jobs id v.1)

-- The line of a number, if a job has it.
abbrev pub line_of : Option Job → List (ℕ × List (List ℕ))
line_of none = []
line_of (some j) = (j.job_id, j.argv) ∷ []

print_from-suc :
    (jobs : List Job) (n id : ℕ)
    → print_from jobs (suc n) id ≡ line_of (get_job_by_id jobs id) ++ print_from jobs n (suc id)
unfolding print_from
print_from-suc jobs n id =
    elim (get_job_by_id jobs id)
      as (λ o.
        (elim o as (λ _. List (ℕ × List (List ℕ))) [
          | none ↦ print_from jobs n (suc id)
          | some j ↦ (j.job_id, j.argv) ∷ print_from jobs n (suc id)
        ])
        ≡ line_of o ++ print_from jobs n (suc id)) [ none ↦ refl | some j ↦ refl ]

add-zero' : (n : ℕ) → n ≡ n + 0
add-zero' n = omega arith

add_suc : (m n : ℕ) → m + suc n ≡ suc (m + n)
add_suc m n = omega arith

shift : (m n : ℕ) → suc m + n ≡ m + suc n
shift m n = omega arith

-- The last number of a range comes last.
pub print_from-snoc :
    (jobs : List Job) (n id : ℕ)
    → print_from jobs (suc n) id ≡ print_from jobs n id ++ line_of (get_job_by_id jobs (id + n))
unfolding print_from
print_from-snoc jobs zero id =
    print_from-suc jobs 0 id
    ∙ append-nil (line_of (get_job_by_id jobs id))
    ∙ ap (λ k. line_of (get_job_by_id jobs k)) (add-zero' id)
print_from-snoc jobs (suc n) id =
    let first = line_of (get_job_by_id jobs id) in
    print_from-suc jobs (suc n) id
    ∙ ap (λ rest. first ++ rest) (print_from-snoc jobs n (suc id))
    ∙ sym (
        append_assoc first (print_from jobs n (suc id)) (line_of (get_job_by_id jobs (suc id + n))))
    ∙ ap₂ ◌++◌ (sym (print_from-suc jobs n id))
        (ap (λ k. line_of (get_job_by_id jobs k)) (shift id n))

-- Where two lists have the same jobs, the range prints alike.
pub print_from-agree :
    (jobs jobs' : List Job) (n id : ℕ)
    → ((k : ℕ) → k < id + n → get_job_by_id jobs k ≡ get_job_by_id jobs' k)
    → print_from jobs n id ≡ print_from jobs' n id
unfolding print_from
print_from-agree jobs jobs' zero id same = refl
print_from-agree jobs jobs' (suc n) id same =
    print_from-suc jobs n id
    ∙ ap₂ (λ o rest. line_of o ++ rest) (same id (omega arith))
        (print_from-agree jobs jobs' n (suc id) (λ k h. same k (omega (arith, h))))
    ∙ sym (print_from-suc jobs' n id)

-- Numbers above the greatest print nothing.
pub print_from-beyond :
    (jobs : List Job) (d : ℕ)
    → IsNumbered jobs
    → print_from jobs (get_max_job_id jobs + d) 1 ≡ print_jobs jobs
unfolding print_jobs
print_from-beyond jobs zero v =
    ap (λ n. print_from jobs n 1) (sym (add-zero' (get_max_job_id jobs)))
print_from-beyond jobs (suc d) v =
    let top = get_max_job_id jobs in
    ap (λ n. print_from jobs n 1) (add_suc top d)
    ∙ print_from-snoc jobs (top + d) 1
    ∙ ap (λ o. print_from jobs (top + d) 1 ++ line_of o)
        (get_job_by_id-above jobs (1 + (top + d)) v (omega arith))
    ∙ append-nil (print_from jobs (top + d) 1)
    ∙ print_from-beyond jobs d v

pub get_job_by_id-first : (j : Job) (jobs : List Job) → get_job_by_id (j ∷ jobs) j.job_id ≡ some j
unfolding get_job_by_id
get_job_by_id-first j jobs = ground arith

pub get_job_by_id-other :
    (j : Job) (jobs : List Job) (id : ℕ)
    → id < j.job_id
    → get_job_by_id (j ∷ jobs) id ≡ get_job_by_id jobs id
unfolding get_job_by_id
get_job_by_id-other j jobs id h = ground arith

pub before_split : (before top : ℕ) → top ≤ before → before ≡ top + (before - top)
before_split before top h = omega arith

pub one_plus : (n : ℕ) → 0 < n → 1 + (n - 1) ≡ n
one_plus n h = omega arith
