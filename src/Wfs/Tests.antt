-- ===== src/Wfs/Tests.antt =====
-- Runs of mount.wfs.c on small disks.
use hanlin.Base.{
  ℕ, ◌≡◌, ◌<◌, ◌⊎◌, refl, false, List, [], ◌∷◌, none, some, ok, pos, length, Returns, arith, fault,
  out_of_bounds,
}
use hanlin.CString.{c_str, str_eq, is_in, after_last, before_last}
use hanlin.CString.Tokens.{tokens}
use hanlin.Wfs.Disk.{
  Disk, entry_at, is_live, find_last, inodenum_to_logentry, path_to_logentry,
  path_to_parent_logentry, path_to_file_name, max_from, find_max_inodenum, name_to_inodenum,
  find_name, walk, extract_before_last_slash, to_bytes, of_bytes,
}
use hanlin.Wfs.Ops.{
  success, wfs_write, make_node, grown_size, append, bytes_at, new_dentry, with_dentry, written,
  read_entry,
}
use hanlin.Wfs.Names.{initialize_fs, wfs_unlink}
use hanlin.Wfs.Valid.{make_node-IsValid, wfs_write-IsValid}
use hanlin.Wfs.Layout.{IsValid}
use hanlin.Wfs.Lookup.{Newest, inodenum_to_logentry_correct}
use hanlin.Wfs.Create.{make_node_correct, created}
use hanlin.Wfs.Directory.{no_dentries}
use hanlin.Wfs.Write.{wfs_write_correct}
use hanlin.Wfs.Unlink.{Overruns, wfs_unlink-IsValid}

-- A disk of 1000 bytes after mkfs, the path "/a", and the disk after that file is made.
abbrev new_disk : Disk
unfolding initialize_fs
new_disk = initialize_fs 7 1000 (λ x. 0)

abbrev path_a : List ℕ
path_a = 47 ∷ 97 ∷ []

abbrev name_a : List ℕ
name_a = 97 ∷ []

abbrev file_disk : Disk
file_disk = created new_disk 0 name_a 32768 5 8

-- The same disk with no room behind its log.
abbrev full_disk : Disk
full_disk = record file_disk { max_head = 190 }

new_disk-parent : path_to_parent_logentry new_disk path_a ≡ ok (some 0)
unfolding append bytes_at find_last find_max_inodenum find_name grown_size initialize_fs
    inodenum_to_logentry max_from name_to_inodenum new_dentry of_bytes path_to_file_name
    path_to_logentry path_to_parent_logentry to_bytes walk with_dentry extract_before_last_slash
    new_disk tokens str_eq c_str after_last before_last is_in
new_disk-parent = refl

new_disk-name : path_to_file_name path_a ≡ some name_a
unfolding append bytes_at find_last find_max_inodenum find_name grown_size initialize_fs
    inodenum_to_logentry max_from name_to_inodenum new_dentry of_bytes path_to_file_name
    path_to_logentry path_to_parent_logentry to_bytes walk with_dentry extract_before_last_slash
    new_disk tokens str_eq c_str after_last before_last is_in
new_disk-name = refl

new_disk-fresh : name_to_inodenum name_a (entry_at new_disk 0) ≡ none
unfolding append bytes_at find_last find_max_inodenum find_name grown_size initialize_fs
    inodenum_to_logentry max_from name_to_inodenum new_dentry of_bytes path_to_file_name
    path_to_logentry path_to_parent_logentry to_bytes walk with_dentry extract_before_last_slash
    new_disk tokens str_eq c_str after_last before_last is_in
new_disk-fresh = refl

new_disk-IsValid : IsValid new_disk
unfolding append bytes_at find_last find_max_inodenum find_name grown_size initialize_fs
    inodenum_to_logentry max_from name_to_inodenum new_dentry of_bytes path_to_file_name
    path_to_logentry path_to_parent_logentry to_bytes walk with_dentry extract_before_last_slash
    new_disk tokens str_eq c_str after_last before_last is_in
new_disk-IsValid = record {
  layout = refl;
  sized = (refl, tt);
  fits = omega arith;
  small = omega arith;
}

file_disk-path : path_to_logentry file_disk path_a ≡ some 2
unfolding append bytes_at find_last find_max_inodenum find_name grown_size initialize_fs
    inodenum_to_logentry max_from name_to_inodenum new_dentry of_bytes path_to_file_name
    path_to_logentry path_to_parent_logentry to_bytes walk with_dentry extract_before_last_slash
    new_disk tokens str_eq c_str after_last before_last is_in
file_disk-path = refl

file_disk-IsValid : IsValid file_disk
unfolding append bytes_at find_last find_max_inodenum find_name grown_size initialize_fs
    inodenum_to_logentry max_from name_to_inodenum new_dentry of_bytes path_to_file_name
    path_to_logentry path_to_parent_logentry to_bytes walk with_dentry extract_before_last_slash
    new_disk tokens str_eq c_str after_last before_last is_in
file_disk-IsValid = record {
  layout = refl;
  sized = (refl, (refl, (refl, tt)));
  fits = omega arith;
  small = omega arith;
}

full_disk-path : path_to_logentry full_disk path_a ≡ some 2
unfolding append bytes_at find_last find_max_inodenum find_name grown_size initialize_fs
    inodenum_to_logentry max_from name_to_inodenum new_dentry of_bytes path_to_file_name
    path_to_logentry path_to_parent_logentry to_bytes walk with_dentry extract_before_last_slash
    new_disk tokens str_eq c_str after_last before_last is_in
full_disk-path = refl

file_disk-parent : path_to_parent_logentry file_disk path_a ≡ ok (some 1)
unfolding append bytes_at find_last find_max_inodenum find_name grown_size initialize_fs
    inodenum_to_logentry max_from name_to_inodenum new_dentry of_bytes path_to_file_name
    path_to_logentry path_to_parent_logentry to_bytes walk with_dentry extract_before_last_slash
    new_disk tokens str_eq c_str after_last before_last is_in
file_disk-parent = refl

full_disk-parent : path_to_parent_logentry full_disk path_a ≡ ok (some 1)
unfolding append bytes_at find_last find_max_inodenum find_name grown_size initialize_fs
    inodenum_to_logentry max_from name_to_inodenum new_dentry of_bytes path_to_file_name
    path_to_logentry path_to_parent_logentry to_bytes walk with_dentry extract_before_last_slash
    new_disk tokens str_eq c_str after_last before_last is_in
full_disk-parent = refl

make_node_correct_example :
    (make_node new_disk path_a 32768 5 8 ≡ ok (success tt, file_disk))
    × (inodenum_to_logentry file_disk 1 ≡ some 2)
    × (name_to_inodenum name_a (entry_at file_disk 1) ≡ some 1)
unfolding append bytes_at find_last find_max_inodenum find_name grown_size initialize_fs
    inodenum_to_logentry max_from name_to_inodenum new_dentry of_bytes path_to_file_name
    path_to_logentry path_to_parent_logentry to_bytes walk with_dentry extract_before_last_slash
    new_disk tokens str_eq c_str after_last before_last is_in
make_node_correct_example =
    make_node_correct new_disk path_a name_a name_a 0 32768 5 8 1 new_disk-IsValid new_disk-parent
      refl no_dentries new_disk-name (omega arith, tt) (omega arith) new_disk-fresh (omega arith)

make_node-IsValid_example :
    Returns
      (λ r. IsValid r.1 × ((r.0 ≡ success tt) ⊎ (r.1 ≡ new_disk)))
      (make_node new_disk path_a 32768 5 8)
unfolding append bytes_at find_last find_max_inodenum find_name grown_size initialize_fs
    inodenum_to_logentry max_from name_to_inodenum new_dentry of_bytes path_to_file_name
    path_to_logentry path_to_parent_logentry to_bytes walk with_dentry extract_before_last_slash
    new_disk tokens str_eq c_str after_last before_last is_in
make_node-IsValid_example =
    make_node-IsValid new_disk path_a name_a 0 32768 5 8 new_disk-IsValid new_disk-parent
      new_disk-name (omega arith)

wfs_write_correct_example :
    (wfs_write file_disk path_a (1 ∷ 2 ∷ []) (pos 3) 9
      ≡ ok
          (success 2, append file_disk (written file_disk (entry_at file_disk 2) (1 ∷ 2 ∷ []) 3 9)))
    × (inodenum_to_logentry
          (append file_disk (written file_disk (entry_at file_disk 2) (1 ∷ 2 ∷ []) 3 9))
          1
        ≡ some 3)
    × (read_entry
          (entry_at
            (append file_disk (written file_disk (entry_at file_disk 2) (1 ∷ 2 ∷ []) 3 9))
            3)
          2
          3
        ≡ 1 ∷ 2 ∷ [])
unfolding append bytes_at find_last find_max_inodenum find_name grown_size initialize_fs
    inodenum_to_logentry max_from name_to_inodenum new_dentry of_bytes path_to_file_name
    path_to_logentry path_to_parent_logentry to_bytes walk with_dentry extract_before_last_slash
    new_disk tokens str_eq c_str after_last before_last is_in
wfs_write_correct_example =
    wfs_write_correct file_disk path_a (1 ∷ 2 ∷ []) 3 9 2 1 file_disk-IsValid file_disk-path refl
      (omega arith) (omega arith)

wfs_write-IsValid_example :
    Returns
      (λ r. IsValid r.1 × ((r.0 ≡ success 2) ⊎ (r.1 ≡ file_disk)))
      (wfs_write file_disk path_a (1 ∷ 2 ∷ []) (pos 3) 9)
unfolding append bytes_at find_last find_max_inodenum find_name grown_size initialize_fs
    inodenum_to_logentry max_from name_to_inodenum new_dentry of_bytes path_to_file_name
    path_to_logentry path_to_parent_logentry to_bytes walk with_dentry extract_before_last_slash
    new_disk tokens str_eq c_str after_last before_last is_in
wfs_write-IsValid_example =
    wfs_write-IsValid file_disk path_a (1 ∷ 2 ∷ []) 3 9 2 file_disk-IsValid file_disk-path
      (omega arith)

inodenum_to_logentry_correct_example :
    ((j : ℕ) × (inodenum_to_logentry file_disk 0 ≡ some j) × Newest file_disk.log 0 j)
    ⊎ ((inodenum_to_logentry file_disk 0 ≡ none)
        × ((k : ℕ) → k < length file_disk.log → is_live (entry_at file_disk k) 0 ≡ false))
inodenum_to_logentry_correct_example = inodenum_to_logentry_correct file_disk 0

wfs_unlink-IsValid_example :
    (Overruns file_disk 40 × (wfs_unlink file_disk path_a 9 ≡ fault out_of_bounds))
    ⊎ ((¬ Overruns file_disk 40) × Returns (λ r. IsValid r.1) (wfs_unlink file_disk path_a 9))
unfolding append bytes_at find_last find_max_inodenum find_name grown_size initialize_fs
    inodenum_to_logentry max_from name_to_inodenum new_dentry of_bytes path_to_file_name
    path_to_logentry path_to_parent_logentry to_bytes walk with_dentry extract_before_last_slash
    new_disk tokens str_eq c_str after_last before_last is_in
wfs_unlink-IsValid_example =
    wfs_unlink-IsValid file_disk path_a 2 1 1 9 file_disk-IsValid file_disk-path file_disk-parent
      refl
