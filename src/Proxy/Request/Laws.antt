-- ===== src/Proxy/Request/Laws.antt =====
-- What the parser makes of a request line and of a path.
use hanlin.Base.{ℕ, ◌≡◌, ◌≢◌, refl, true, List, [], ◌∷◌, ◌++◌}
use hanlin.CString.{is_in}
use hanlin.CString.Tokens.{NoDelimiter, strtok-append}
use hanlin.Proxy.Queue.{text}
use hanlin.Proxy.Request.{blanks, newlines, parse_path, parsed, parse_request}

blank_ends : blanks 32 ≡ true
unfolding is_in
blank_ends = refl

newline_ends : newlines 10 ≡ true
unfolding is_in
newline_ends = refl

parse_path-words :
    (method path version : List ℕ)
    → method ≢ []
    → NoDelimiter blanks method
    → path ≢ []
    → NoDelimiter blanks path
    → parse_path (method ++ (32 ∷ (path ++ (32 ∷ version)))) ≡ text path
unfolding parse_path
parse_path-words method path version m hm p hp =
    rw (strtok-append blanks method 32 (path ++ (32 ∷ version)) m hm blank_ends, parse_path)
      (rw (strtok-append blanks path 32 version p hp blank_ends, parse_path))

append-ne-nil : (s t : List ℕ) → s ≢ [] → s ++ t ≢ []
append-ne-nil [] t h e = h refl
append-ne-nil (c ∷ s) t h e = cc

-- A request whose first line is a method, a path and a version, each pair with one blank between
-- them, is parsed to that path: method and path have a byte and no blank, and no line end stands in
-- the line.
parse_request-path :
    (method path version rest : List ℕ)
    → method ≢ []
    → NoDelimiter blanks method
    → path ≢ []
    → NoDelimiter blanks path
    → NoDelimiter newlines (method ++ (32 ∷ (path ++ (32 ∷ version))))
    → (parse_request ((method ++ (32 ∷ (path ++ (32 ∷ version)))) ++ (10 ∷ rest))).path ≡ text path
unfolding parse_request parsed
parse_request-path method path version rest m hm p hp line =
    rw
      (
        strtok-append newlines (method ++ (32 ∷ (path ++ (32 ∷ version)))) 10 rest
            (append-ne-nil method _ m) line newline_ends,
        parse_request,
      )
      (parse_path-words method path version m hm p hp)
