-- ===== src/Shell/Tests.antt =====
-- Runs of the shell.
use mathlib.Core.List.{reverse}
use hanlin.Base.{ℕ, ◌≡◌, refl, true, false, List, [], ◌∷◌, map, ok, pos, Returns, arith}
use hanlin.CString.{str_eq}
use hanlin.Proxy.Request.{codes}
use hanlin.Shell.{
  Job, Shell, Answers, background, print_jobs, execute_command, dispatch, run_program,
  get_max_job_id, add_job, cut_background,
}
use hanlin.Shell.Pipeline.{pipeline, pipe_loop, next_command}
use hanlin.Shell.Pipeline.Split.{IsPipeline, pipeline_correct}
use hanlin.Shell.Jobs.{print_jobs-reverse}
use hanlin.Shell.Numbers.{IsNumbered}

abbrev forked : Answers
forked = record { pid = pos 7; stopped = false; interrupted = false }

abbrev job_of : ℕ → Job
job_of id = record { job_id = id; pgid = id; command = []; argv = codes "a" ∷ [] }

abbrev two_jobs : List Job
two_jobs = job_of 4 ∷ job_of 1 ∷ []

abbrev busy_shell : Shell
busy_shell = record { jobs = two_jobs; child_pid = 0 }

two_jobs-IsNumbered : IsNumbered two_jobs
unfolding get_max_job_id
two_jobs-IsNumbered = (omega arith, (omega arith, tt))

print_jobs-reverse_example : print_jobs two_jobs ≡ map (λ j. (j.job_id, j.argv)) (reverse two_jobs)
print_jobs-reverse_example = print_jobs-reverse two_jobs two_jobs-IsNumbered

-- The job of a background command has the next number.
next_number :
    execute_command busy_shell forked (codes "ls" ∷ codes "&" ∷ [])
    ≡ ok (
      background (codes "ls" ∷ []),
      record busy_shell {
        jobs =
            record {
              job_id = 5;
              pgid = 7;
              command = codes "ls";
              argv = codes "ls" ∷ codes "&" ∷ [];
            }
            ∷ two_jobs;
      },
    )
unfolding execute_command dispatch run_program str_eq get_max_job_id cut_background add_job
next_number = refl

-- "a | b" starts two children.
two_children :
    pipeline (codes "a" ∷ codes "|" ∷ codes "b" ∷ [])
    ≡ ok (
        record { argv = codes "a" ∷ []; from_pipe = false; to_pipe = true }
        ∷ record { argv = codes "b" ∷ []; from_pipe = true; to_pipe = false }
        ∷ [])
unfolding pipeline pipe_loop next_command str_eq
two_children = refl

pipeline_correct_example :
    Returns (IsPipeline false (codes "a" ∷ codes "|" ∷ [])) (pipeline (codes "a" ∷ codes "|" ∷ []))
pipeline_correct_example = pipeline_correct (codes "a" ∷ codes "|" ∷ [])
