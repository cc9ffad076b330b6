-- ===== src/Wfs/Disk.antt =====
-- wfs.h, and the functions of mount.wfs.c that read the log. The bytes between the superblock and
-- `head` are a sequence of log entries (Valid has the invariant), so a scan by pointers is a scan of
-- the list of entries, and a pointer to an entry is its position in that list. What lies behind
-- `head` is a function from addresses to bytes.
use hanlin.Base.{
  ℕ, zero, suc, ◌+◌, ◌*◌, ◌/◌, ◌%◌, ◌^◌, Bool, ◌&&◌, List, [], ◌∷◌, Option, none, some, ltb, ◌==◌,
  if◌then◌else◌, length, get_or, take, drop, Run, ok, fault, null_dereference,
}
use hanlin.CString.{c_str, str_eq, is_in, after_last, before_last}
use hanlin.CString.Tokens.{tokens}

-- `struct wfs_inode`, eleven `unsigned int`s.
pub record Inode : Type 0 where
  pub inode_number : ℕ
  pub deleted : ℕ
  pub mode : ℕ
  pub uid : ℕ
  pub gid : ℕ
  pub flags : ℕ
  pub size : ℕ
  pub atime : ℕ
  pub mtime : ℕ
  pub ctime : ℕ
  pub links : ℕ

-- `struct wfs_log_entry`; `contents` are the `size` bytes of `data`.
pub record Entry : Type 0 where
  pub inode : Inode
  pub contents : List ℕ

-- The mapped disk: the log, `superblock->head`, `max_head`, and the bytes from `head` on.
pub record Disk : Type 0 where
  pub log : List Entry
  pub head : ℕ
  pub max_head : ℕ
  pub free : ℕ → ℕ

-- sizeof(struct wfs_sb), sizeof(struct wfs_inode), DENTRY_SIZE, MAX_FILE_NAME_LEN
abbrev pub superblock_size : ℕ
superblock_size = 8

abbrev pub inode_size : ℕ
inode_size = 44

abbrev pub dentry_size : ℕ
dentry_size = 40

abbrev pub max_file_name_len : ℕ
max_file_name_len = 32

-- A `uint32_t`.
abbrev pub u32 : ℕ → ℕ
u32 n = n % 2 ^ 32

abbrev pub blank : Entry
blank = record {
  inode = record {
    inode_number = 0;
    deleted = 0;
    mode = 0;
    uid = 0;
    gid = 0;
    flags = 0;
    size = 0;
    atime = 0;
    mtime = 0;
    ctime = 0;
    links = 0;
  };
  contents = [];
}

-- What a pointer to an entry shows.
abbrev pub entry_at : Disk → ℕ → Entry
entry_at d i = get_or d.log i blank

abbrev pub is_live : Entry → ℕ → Bool
is_live e ino = e.inode.inode_number == ino && e.inode.deleted == 0

-- The loop of `inodenum_to_logentry`: `i` is the position of the next entry, `final` the last find.
unfoldable pub find_last : List Entry → ℕ → ℕ → Option ℕ → Option ℕ
find_last [] ino i final = final
find_last (e ∷ es) ino i final = find_last es ino (suc i) (if is_live e ino then some i else final)

unfoldable pub inodenum_to_logentry : Disk → ℕ → Option ℕ
inodenum_to_logentry d ino = find_last d.log ino 0 none

-- The loop of `find_max_inodenum`.
unfoldable pub max_from : List Entry → ℕ → ℕ
max_from [] m = m
max_from (e ∷ es) m =
    max_from es
      (if ltb m e.inode.inode_number && e.inode.deleted == 0 then e.inode.inode_number else m)

unfoldable pub find_max_inodenum : Disk → ℕ
find_max_inodenum d = max_from d.log 0

-- `n` bytes in the order of x86, the lowest first, and the number that bytes stand for.
unfoldable pub to_bytes : ℕ → ℕ → List ℕ
to_bytes zero v = []
to_bytes (suc n) v = (v % 256) ∷ to_bytes n (v / 256)

unfoldable pub of_bytes : List ℕ → ℕ
of_bytes [] = 0
of_bytes (b ∷ bs) = b + 256 * of_bytes bs

-- The directory entry at the front of `s`: strcmp reads its name up to the first NUL, and the inode
-- number is an `unsigned long` behind the 32 bytes of the name.
abbrev pub dentry_name : List ℕ → List ℕ
dentry_name s = c_str s

abbrev pub dentry_inode : List ℕ → ℕ
dentry_inode s = of_bytes (take 8 (drop max_file_name_len s))

-- How many steps of DENTRY_SIZE a loop over `size` bytes makes.
abbrev pub steps : ℕ → ℕ
steps size = (size + 39) / 40

-- The loop of `name_to_inodenum`; `none` is -1.
unfoldable pub find_name : List ℕ → ℕ → List ℕ → Option ℕ
find_name name zero s = none
find_name name (suc n) s =
    if str_eq name (dentry_name s)
    then some (dentry_inode s)
    else find_name name n (drop dentry_size s)

unfoldable pub name_to_inodenum : List ℕ → Entry → Option ℕ
unfolding find_name
name_to_inodenum name e = find_name name (steps e.inode.size) e.contents

abbrev pub slashes : ℕ → Bool
slashes = is_in (47 ∷ [])

-- The loop of `path_to_logentry` over the tokens of the path. An inode number is an `unsigned long`
-- there, and an `unsigned int` as the argument of `inodenum_to_logentry`.
unfoldable pub walk : Disk → List (List ℕ) → Option ℕ → Option ℕ
walk d [] logptr = logptr
walk d (token ∷ rest) none = none
walk d (token ∷ rest) (some i) = elim (name_to_inodenum token (entry_at d i)) [
  | none ↦ none
  | some inodenum ↦ walk d rest (inodenum_to_logentry d (u32 inodenum))
]

unfoldable pub path_to_logentry : Disk → List ℕ → Option ℕ
unfolding walk
path_to_logentry d path = walk d (tokens slashes path) (inodenum_to_logentry d 0)

-- `extract_before_last_slash` and `path_to_file_name`; `none` is NULL.
unfoldable pub extract_before_last_slash : List ℕ → Option (List ℕ)
extract_before_last_slash = before_last 47

unfoldable pub path_to_file_name : List ℕ → Option (List ℕ)
path_to_file_name = after_last 47

-- strlen of a NULL path is undefined.
unfoldable pub path_to_parent_logentry : Disk → List ℕ → Run (Option ℕ)
unfolding extract_before_last_slash path_to_logentry
path_to_parent_logentry d path = elim (extract_before_last_slash path) [
  | none ↦ fault null_dereference
  | some parent_path ↦
      if length parent_path == 0
      then ok (inodenum_to_logentry d 0)
      else ok (path_to_logentry d parent_path)
]
