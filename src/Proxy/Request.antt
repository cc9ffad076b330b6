-- ===== src/Proxy/Request.antt =====
-- proxyserver.c: `parse_request` and `get_priority_from_path`. The text is a C string, so a list
-- of bytes that are not NUL; the calls of strtok and of strtok_r are those of CString.
pub mod Laws
use Prim.Native.String.{String}
use Prim.Native.Char.{code}
use hanlin.Base.{
  ℕ, ◌≡◌, Bool, true, false, List, [], ◌∷◌, Option, none, some, ◌==◌, if◌then◌else◌, ℤ, pos, length,
  suc, zero, arith, ◌&&◌, not,
}
use hanlin.CString.{strtok, str_eq, is_in, atoi}
use hanlin.Proxy.Queue.{RequestInfo, Str, null, text, dangling}

-- The bytes of an ASCII text.
abbrev pub codes : String → List ℕ
codes String.[] = []
codes (String.◌∷◌ c s) = code c ∷ codes s

-- The delimiters " ", ": ", "\n" and "/".
abbrev pub blanks : ℕ → Bool
blanks = is_in (32 ∷ [])

abbrev pub key_ends : ℕ → Bool
key_ends = is_in (58 ∷ 32 ∷ [])

abbrev pub newlines : ℕ → Bool
newlines = is_in (10 ∷ [])

abbrev pub slashes : ℕ → Bool
slashes = is_in (47 ∷ [])

-- The request line: its second word.
unfoldable pub parse_path : List ℕ → Str
parse_path line = elim (strtok blanks line) [
  | none ↦ null
  | some (method, rest) ↦ elim (strtok blanks rest) [ none ↦ null | some (path, r) ↦ text path ]
]

-- One header: `strtok(NULL, "")` gives the rest of the line, or NULL if nothing is left.
unfoldable pub parse_header : List ℕ → ℤ → ℤ
parse_header line delay = elim (strtok key_ends line) [
  | none ↦ delay
  | some (key, value) ↦
      if not (length value == 0) && str_eq key (codes "Delay") then atoi value else delay
]

-- The loop over the lines; it ends before the fuel does if that exceeds the length of the text.
unfoldable pub parse_headers : ℕ → List ℕ → ℤ → ℤ
parse_headers zero s delay = delay
parse_headers (suc fuel) s delay = elim (strtok newlines s) [
  | none ↦ delay
  | some (line, rest) ↦ parse_headers fuel rest (parse_header line delay)
]

parsed : Str → List ℕ → RequestInfo
parsed path rest = record {
  delay = parse_headers (suc (length rest)) rest (pos 0);
  client_fd = pos 0;
  path = path;
  buffer = dangling;
}

-- `buffer` is left unset, and `client_fd` is a placeholder.
unfoldable pub parse_request : List ℕ → RequestInfo
unfolding parsed parse_path parse_headers
parse_request request = elim (strtok newlines request) [
  | none ↦ parsed null []
  | some (line, rest) ↦ parsed (parse_path line) rest
]

-- The number that the first directory of the path writes; 0 with no path and with no directory.
unfoldable pub get_priority_from_path : List ℕ → ℤ
get_priority_from_path path = elim (strtok slashes path) [
  | none ↦ pos 0
  | some (token, rest) ↦ atoi token
]
