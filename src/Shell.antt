-- ===== src/Shell.antt =====
-- private/P3/wsh.c: the job list, and what the shell does with a line. What the kernel answers to
-- `fork` and `waitpid` is an argument; the kernel's own view of the processes is not modelled.
pub mod Pipeline
pub mod Numbers
pub mod Jobs
mod Tests
use hanlin.Base.{
  ℕ, zero, suc, ◌+◌, ◌-◌, Bool, true, false, ◌&&◌, ◌||◌, not, List, [], ◌∷◌, ◌++◌, Option, none,
  some, ltb, leb, ◌==◌, if◌then◌else◌, length, take, Run, ok, fault, exit, null_dereference,
  buffer_overflow, ◌>>=◌, ℤ, pos, negsuc,
}
use hanlin.CString.{str_eq, is_in, atoi}
use hanlin.CString.Tokens.{tokens}
use hanlin.Proxy.Request.{codes}
use hanlin.Shell.Pipeline.{Spawn, pipeline, is_bar}

-- `struct job`, without the fields that nothing uses.
pub record Job : Type 0 where
  pub job_id : ℕ
  pub pgid : ℕ
  pub command : List ℕ
  pub argv : List (List ℕ)

-- `job_list`, the newest job first, and `child_pid`.
pub record Shell : Type 0 where
  pub jobs : List Job
  pub child_pid : ℕ

-- What the kernel answers: the result of `fork`, whether the child that is waited for was stopped, and
-- whether a signal handler ran during the wait.
pub record Answers : Type 0 where
  pub pid : ℤ
  pub stopped : Bool
  pub interrupted : Bool

-- What a command does besides changing the state.
pub data Action : Type 0 where
  nothing : Action
  message : List ℕ → Action
  chdir : List ℕ → Action
  listed : List (ℕ × List (List ℕ)) → Action
  foreground : List (List ℕ) → Action
  background : List (List ℕ) → Action
  piped : List Spawn → Action

-- `get_job_by_id`
unfoldable pub get_job_by_id : List Job → ℕ → Option Job
get_job_by_id [] id = none
get_job_by_id (j ∷ jobs) id = if j.job_id == id then some j else get_job_by_id jobs id

-- The loop of `get_max_job_id`.
unfoldable pub max_id : List Job → ℕ → ℕ
max_id [] m = m
max_id (j ∷ jobs) m = max_id jobs (if ltb m j.job_id then j.job_id else m)

unfoldable pub get_max_job_id : List Job → ℕ
unfolding max_id
get_max_job_id jobs = max_id jobs 0

unfoldable pub add_job : Job → List Job → List Job
add_job j jobs = j ∷ jobs

-- `remove_job`: the first job of the process group.
unfoldable pub remove_job : ℕ → List Job → List Job
remove_job pgid [] = []
remove_job pgid (j ∷ jobs) =
    let rest = j ∷ remove_job pgid jobs in if j.pgid == pgid then jobs else rest

-- The loop of `print_jobs` for `n` numbers from `id` on: a line has the number and the words.
unfoldable pub print_from : List Job → ℕ → ℕ → List (ℕ × List (List ℕ))
print_from jobs zero id = []
print_from jobs (suc n) id =
    let rest = print_from jobs n (suc id) in
    elim (get_job_by_id jobs id) [ none ↦ rest | some j ↦ (j.job_id, j.argv) ∷ rest ]

unfoldable pub print_jobs : List Job → List (ℕ × List (List ℕ))
unfolding print_from
print_jobs jobs = print_from jobs (get_max_job_id jobs) 1

-- `handle_sigint` and `handle_sigtstp`: whom they signal, and `child_pid` afterwards.
unfoldable pub handle_signal : ℕ → Option ℕ × ℕ
handle_signal child_pid = if ltb 0 child_pid then (some child_pid, 0) else (none, child_pid)

-- The arguments before the first "&", and whether there is one.
unfoldable pub cut_background : List (List ℕ) → List (List ℕ) × Bool
cut_background [] = ([], false)
cut_background (arg ∷ args) =
    let (before, found) = cut_background args in
    if str_eq arg (codes "&") then ([], true) else (arg ∷ before, found)

abbrev pub new_job : Shell → ℕ → List (List ℕ) → List ℕ → List (List ℕ) → Job
new_job sh pid args command mark = record {
  job_id = get_max_job_id sh.jobs + 1;
  pgid = pid;
  command = command;
  argv = args ++ mark;
}

-- A program, on the result of `fork`, the arguments and their first one.
unfoldable pub run_program : Shell → ℤ → Answers → Bool → List (List ℕ) → List ℕ → Action × Shell
unfolding add_job handle_signal
run_program sh (negsuc n) answers in_background args command = (message (codes "wsh"), sh)
run_program sh (pos pid) answers true args command = (
  background args,
  record sh { jobs = add_job (new_job sh pid args command (codes "&" ∷ [])) sh.jobs },
)
run_program sh (pos pid) answers false args command = (
  foreground args,
  record {
    jobs = if answers.stopped then add_job (new_job sh pid args command []) sh.jobs else sh.jobs;
    child_pid = if answers.interrupted then (handle_signal pid).1 else pid;
  },
)

unfoldable pub change_directory : List (List ℕ) → Action
change_directory [] = message (codes "wsh: expected argument to \"cd\"")
change_directory (path ∷ []) = chdir path
change_directory (path ∷ (more ∷ rest)) = message (codes "wsh: too many arguments to \"cd\"")

-- `fg` and `bg`: with a job they do nothing.
unfoldable pub resume : List Job → List (List ℕ) → Action
resume jobs [] =
    if get_max_job_id jobs == 0
    then message (codes "wsh: no current job")
    else elim (get_job_by_id jobs (get_max_job_id jobs)) [
      | none ↦ message (codes "wsh: job not found")
      | some j ↦ nothing
    ]
resume jobs (arg ∷ args) = elim (atoi arg) [
  | negsuc n ↦ message (codes "wsh: job not found")
  | pos id ↦ elim (get_job_by_id jobs id) [
    | none ↦ message (codes "wsh: job not found")
    | some j ↦ nothing
  ]
]

-- The commands, once "&" is cut off; strcmp on a NULL argument is undefined.
unfoldable pub dispatch : Shell → Answers → Bool → List (List ℕ) → Run (Action × Shell)
unfolding print_jobs run_program change_directory resume
dispatch sh answers in_background [] = fault null_dereference
dispatch sh answers in_background (name ∷ args) =
    if str_eq name (codes "exit")
    then exit
    else if str_eq name (codes "cd")
    then ok (change_directory args, sh)
    else if str_eq name (codes "jobs")
    then ok (listed (print_jobs sh.jobs), sh)
    else if str_eq name (codes "fg") || str_eq name (codes "bg")
    then ok (resume sh.jobs args, sh)
    else ok (run_program sh answers.pid answers in_background (name ∷ args) name)

abbrev pub has_bar : List (List ℕ) → Bool
has_bar [] = false
has_bar (arg ∷ args) = is_bar arg || has_bar args

-- `executeCommand`
unfoldable pub execute_command : Shell → Answers → List (List ℕ) → Run (Action × Shell)
unfolding dispatch cut_background
execute_command sh answers args =
    if has_bar args
    then (do spawned ← pipeline args; ok (piped spawned, sh))
    else dispatch sh answers (cut_background args).1 (cut_background args).0

-- A line of `main`: the array has room for 127 arguments and the NULL behind them.
unfoldable pub run_line : Shell → Answers → List ℕ → Run (Action × Shell)
unfolding execute_command
run_line sh answers line =
    let args = tokens (is_in (32 ∷ 9 ∷ 10 ∷ [])) line in
    if ltb 127 (length args)
    then fault buffer_overflow
    else if length args == 0
    then ok (nothing, sh)
    else execute_command sh answers args

-- The loop of `main` over the lines, with what each one does.
unfoldable pub run_lines : Shell → List (List ℕ × Answers) → Run (List Action × Shell)
unfolding run_line
run_lines sh [] = ok ([], sh)
run_lines sh ((line, answers) ∷ lines) = do
  (action, sh') ← run_line sh answers line
  (actions, last) ← run_lines sh' lines
  ok (action ∷ actions, last)
