-- ===== src/Shell/Jobs.antt =====
-- The numbers of the jobs of wsh.c.
use mathlib.Core.List.{reverse, reverse-cons}
use hanlin.Base.{
  ℕ, suc, ◌+◌, ◌-◌, ◌<◌, ◌≡◌, ◌⊎◌, refl, sym, ap, ap₂, ◌∙◌, false, List, [], ◌∷◌, ◌++◌, map,
  map-append, Run, exit, fault, null_dereference, arith, Returns,
}
use hanlin.CString.{str_eq}
use hanlin.Proxy.Request.{codes}
use hanlin.Shell.{
  Job, Shell, Answers, Action, get_job_by_id, max_id, get_max_job_id, print_from, print_jobs,
  has_bar, execute_command,
}
use hanlin.Shell.Numbers.{
  IsNumbered, get_max_job_id-first, line_of, print_from-snoc, print_from-agree, print_from-beyond,
  get_job_by_id-first, get_job_by_id-other, before_split, one_plus,
}

-- With numbered jobs, "jobs" prints each job once, the oldest first.
pub print_jobs-reverse :
    (jobs : List Job)
    → IsNumbered jobs
    → print_jobs jobs ≡ map (λ j. (j.job_id, j.argv)) (reverse jobs)
unfolding print_jobs print_from get_max_job_id max_id
print_jobs-reverse [] v = refl
print_jobs-reverse (j ∷ jobs) v =
    let before = j.job_id - 1 in
    let top = get_max_job_id jobs in
    let more = before - top in
    let last : j.job_id ≡ suc before = omega (arith, v.0) in
    let agree : (k : ℕ) → k < 1 + before → get_job_by_id (j ∷ jobs) k ≡ get_job_by_id jobs k =
      λ k h. get_job_by_id-other j jobs k (omega (arith, h, v.0)) in
    let older =
      print_from-agree (j ∷ jobs) jobs before 1 agree
      ∙ ap (λ n. print_from jobs n 1) (before_split before top (omega (arith, v.0)))
      ∙ print_from-beyond jobs more v.1 in
    let newest =
      ap (get_job_by_id (j ∷ jobs)) (one_plus j.job_id (omega (arith, v.0)))
      ∙ get_job_by_id-first j jobs in
    ap (λ n. print_from (j ∷ jobs) n 1) (get_max_job_id-first j jobs v ∙ last)
    ∙ print_from-snoc (j ∷ jobs) before 1
    ∙ ap₂ (λ lines o. lines ++ line_of o) older newest
    ∙ ap (λ lines. lines ++ ((j.job_id, j.argv) ∷ [])) (print_jobs-reverse jobs v.1)
    ∙ sym (map-append (λ j. (j.job_id, j.argv)) (reverse jobs) (j ∷ []))
    ∙ ap (map (λ j. (j.job_id, j.argv))) (sym (reverse-cons j jobs))

-- The command is `exit`, or it returns with numbered jobs.
abbrev pub Serves : Run (Action × Shell) → Type 0
Serves m = (m ≡ exit) ⊎ Returns (λ r. IsNumbered r.1.jobs) m

-- A command that begins with "&" and has no bar reads its name from a NULL pointer.
execute_command-background :
    (sh : Shell) (answers : Answers) (args : List (List ℕ))
    → has_bar args ≡ false
    → execute_command sh answers (codes "&" ∷ args) ≡ fault null_dereference
unfolding execute_command str_eq
execute_command-background sh answers args plain = rw (execute_command, plain)
