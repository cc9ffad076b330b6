-- ===== src/Groff/Tests.antt =====
-- Runs of wgroff.c.
use hanlin.Base.{
  ℕ, zero, suc, ◌≡◌, refl, List, [], ◌++◌, length, ok, fault, buffer_overflow, ltb, if◌then◌else◌,
  arith,
}
use hanlin.Proxy.Request.{codes}
use hanlin.Groff.{
  replace_str, replace_loop, strstr, strip, date_check, title_line, date_line, escape, process_line,
}
use hanlin.Groff.Replace.{Replaced, replace_str_correct}
use hanlin.Groff.Layout.{lines-columns}

-- "/fBx" is printed in bold.
process_line_bold :
    process_line (codes "/fBx/fP//")
    ≡ ok (codes "       " ++ (escape 49 ++ (codes "x" ++ (escape 48 ++ codes "/"))))
unfolding process_line replace_str replace_loop strstr strip
process_line_bold = refl

-- 64 signs for bold, 192 bytes, take 256 bytes of codes and do not fit with their NUL.
abbrev bold : ℕ → List ℕ
bold zero = []
bold (suc n) = codes "/fB" ++ bold n

replace_str_overflow : replace_str (bold 64) (codes "/fB") (escape 49) ≡ fault buffer_overflow
unfolding replace_str replace_loop strstr strip
replace_str_overflow = refl

replace_str_correct_example :
    (result : List ℕ) × Replaced (codes "//") (codes "/") (codes "a//b") result
    × (replace_str (codes "a//b") (codes "//") (codes "/")
        ≡ (if ltb 255 (length result) then fault buffer_overflow else ok result))
replace_str_correct_example =
    replace_str_correct (codes "a//b") (codes "//") (codes "/") (omega arith)

lines-columns_example :
    (length (title_line (codes "wman") 1) ≡ 81) × (length (date_line (codes "2023-09-12")) ≡ 81)
unfolding date_check
lines-columns_example = lines-columns (codes "wman") (codes "2023-09-12") 1 (omega arith) refl
