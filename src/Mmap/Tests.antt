-- ===== src/Mmap/Tests.antt =====
-- Runs of the calls for mappings.
use hanlin.Base.{
  Option, ℕ, ◌+◌, ◌≡◌, refl, false, [], ◌∷◌, none, some, ok, fault, inl, inr, if◌then◌else◌, ◌==◌,
  out_of_bounds, Returns, Run, ◌>>=◌, arith, replicate, zero, suc,
}
use hanlin.Mmap.{Memory, entry, fresh, mmap_base, find_free_region, copyrange}
use hanlin.Mmap.Calls.{
  Files, Process, Mapping, Unmapped, unused, kmunmap, sys_mmap, user_writable, map_anywhere,
}
use hanlin.Mmap.Exit.{unmap_all}
use hanlin.Mmap.Exit.Emptied.{unmap_all-IsEmptied}
use hanlin.Mmap.Exit.Entries.{IsEmptied, IsAnonymous}
use hanlin.Mmap.Session.{Session, start, mapped, unmapped, Session-IsValid}
use hanlin.Mmap.Valid.{Each, IsValid}
use hanlin.Mmap.Growth.{page_fault}
use hanlin.Mmap.Regions.{IsFirst, find_free_region_correct}
use hanlin.Mmap.Fork.{IsCopied, copyrange_correct}
use hanlin.Mmap.Slots.{Known}
use hanlin.Mmap.RoundTrip.{IsUndone, kmunmap-sys_mmap}

-- The table for the addresses from MMAPBASE on, with its first page present.
abbrev one_page : Memory
one_page = record {
  frames = 5;
  tables = λ d. d == 384;
  pages = λ p. if p == 393216 then some (fresh user_writable) else none;
}

abbrev no_pages : Memory
no_pages = record { frames = 3; tables = λ d. false; pages = λ p. none }

abbrev no_files : Files
no_files fd = none

abbrev first_mapping : Mapping
first_mapping = record { addr = mmap_base; flag = 5; len = 4096; prot = 3; fd = 0 }

abbrev one_mapping : Process
one_mapping = record { memory = one_page; maparray = first_mapping ∷ unused ∷ unused ∷ [] }

find_free_region_correct_example :
    Returns (IsFirst one_page 8192 0) (find_free_region one_page 8192)
find_free_region_correct_example = find_free_region_correct one_page 8192 (omega arith)

find_free_region_run : find_free_region one_page 8192 ≡ ok (mmap_base + 4096)
unfolding find_free_region
find_free_region_run = refl

one_mapping-Known : Known one_page one_mapping.maparray
unfolding entry
one_mapping-Known = (
  ((λ e. absurd (omega arith)), inr (λ e. cc)),
  (((λ e. refl), inl refl), (((λ e. refl), inl refl), tt)),
)

kmunmap-sys_mmap_example :
    Returns (IsUndone no_files one_mapping 8192) (sys_mmap no_files one_mapping 0 8192 3 5 0)
kmunmap-sys_mmap_example =
    kmunmap-sys_mmap no_files one_mapping 0 8192 3 5 0 one_mapping-Known (inr (inl refl)) refl
      (omega arith) (omega arith) (λ e. absurd cc)

copyrange_correct_example :
    Returns
      (IsCopied one_page no_pages 393216 393218)
      (copyrange one_page no_pages mmap_base (mmap_base + 8192))
unfolding entry
copyrange_correct_example =
    copyrange_correct one_page no_pages mmap_base (mmap_base + 8192) refl refl (omega arith)
      (omega arith) (λ p low high. refl)

-- A length of -4096 maps no page, and succeeds.
negative_length : (map_anywhere one_page 4294963200 >>= λ done. ok done.1) ≡ ok (some mmap_base)
unfolding map_anywhere
negative_length = refl

-- A fault whose page below is not the start of a mapping.
page_fault_run : page_fault one_mapping (mmap_base + 8192) ≡ fault out_of_bounds
unfolding page_fault
page_fault_run = refl

abbrev process_of : Run (Process × Option ℕ) → Process
process_of (ok (p, result)) = p
process_of m = one_mapping

abbrev unmapped_of : Run Unmapped → Unmapped
unmapped_of (ok u) = u
unmapped_of m = record { proc = one_mapping; success = false; written = none }

abbrev new_process : Process
new_process = record { memory = no_pages; maparray = unused ∷ unused ∷ [] }

abbrev mapped_process : Process
mapped_process = process_of (sys_mmap no_files new_process 0 4096 3 5 0)

mapped_process-Session : Session no_files mapped_process
unfolding sys_mmap
mapped_process-Session =
    mapped new_process mapped_process 0 4096 3 5 0 (some mmap_base)
      (start new_process (refl, (refl, tt))) (inl refl) refl (omega arith) (omega arith)
      (λ e. absurd cc) refl

abbrev unmapped_again : Unmapped
unmapped_again = unmapped_of (kmunmap no_files mapped_process mmap_base 4096)

unmapped_again-Session : Session no_files unmapped_again.proc
unfolding sys_mmap kmunmap
unmapped_again-Session =
    unmapped mapped_process first_mapping 0 unmapped_again mapped_process-Session refl refl refl
      (omega arith) refl

Session-IsValid_example : IsValid unmapped_again.proc
Session-IsValid_example = Session-IsValid no_files unmapped_again.proc unmapped_again-Session

-- A process with 32 entries, one of which is used, that exits.
abbrev full_process : Process
full_process =
    process_of (
      sys_mmap no_files (record { memory = no_pages; maparray = replicate 32 unused }) 0 4096 3 5 0)

Each-replicate : (P : Mapping → Type 0) (n : ℕ) (x : Mapping) → P x → Each P (replicate n x)
Each-replicate P zero x h = tt
Each-replicate P (suc n) x h = (h, Each-replicate P n x h)

full_process-Session : Session no_files full_process
unfolding sys_mmap
full_process-Session =
    mapped (record { memory = no_pages; maparray = replicate 32 unused }) full_process 0 4096 3 5 0
      (some mmap_base)
      (start (record { memory = no_pages; maparray = replicate 32 unused })
        (Each-replicate (λ x. x ≡ unused) 32 unused refl))
      (inl refl) refl (omega arith) (omega arith) (λ e. absurd cc) refl

full_process-IsAnonymous : Each IsAnonymous full_process.maparray
unfolding sys_mmap
full_process-IsAnonymous =
    ((λ there. refl), Each-replicate IsAnonymous 31 unused (λ there. absurd (there refl)))

unmap_all-IsEmptied_example : Returns (IsEmptied full_process) (unmap_all no_files full_process)
unfolding sys_mmap
unmap_all-IsEmptied_example =
    unmap_all-IsEmptied no_files full_process
      (Session-IsValid no_files full_process full_process-Session) full_process-IsAnonymous refl
