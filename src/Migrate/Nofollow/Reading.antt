-- ===== src/Migrate/Nofollow/Reading.antt =====
-- The walks and openings that leave the store as it is.
use gnosis_vpn_toolkit.Prelude.{true, ℕ, not, List, [], ◌∷◌, ◌≡◌, sym, arith, Result, ok, err, ◌==◌}
use gnosis_vpn_toolkit.Prelude.Text.{Text}
use gnosis_vpn_toolkit.FilePath.{Component}
use gnosis_vpn_toolkit.Migrate.Store.{
  IoError, no_entry, already_exists, not_empty, not_a_directory, is_a_directory, symlink_loop,
  other, Kind, regular, directory, symlink, special, Store, Process,
}
use gnosis_vpn_toolkit.Migrate.Store.Calls.{
  entry, directory_handle, open_directory, read_handle, open_unless_symlink, open_reading, status,
  status_at, duplicate, read_file, bytes_of,
}
use gnosis_vpn_toolkit.Migrate.Store.Endings.{entry-ok, open_as_directory-ok}
use gnosis_vpn_toolkit.Migrate.Store.Keeping.{
  Keeps, Keeps-done, Keeps-failed, syscall-Keeps, if-Keeps, attempt-Keeps, bind-Keeps,
}
use gnosis_vpn_toolkit.Migrate.Nofollow.{
  names, open_home, find_from, find_dir, absent, exists, present_or, open_regular_file, is_regular,
}

pub same_home :
    (r : Result IoError ℕ) (s : Store) {home : ℕ} {s' : Store}
    → elim r as (λ _. Result IoError (ℕ × Store)) [ err e ↦ err e | ok d ↦ ok (d, s) ]
      ≡ ok (home, s')
    → s' ≡ s
same_home (ok d) s e = ground arith
same_home (err x) s e = cc

pub open_home-Keeps : (p : Process) (path : Text) → Keeps true (open_home p path)
unfolding open_home
open_home-Keeps p path = syscall-Keeps _ (λ s a s' ends. same_home (p.directory_at s path) s ends)

open_directory-Keeps : (d : ℕ) (name : Text) → Keeps true (open_directory d name)
unfolding open_directory
open_directory-Keeps d name = syscall-Keeps (entry d name directory_handle) (λ s a s' ends.
    let (i, found, same) = entry-ok d name directory_handle s ends in
    sym (open_as_directory-ok (s.node_at i).kind i s same).1)

duplicate-Keeps : (d : ℕ) → Keeps true (duplicate d)
unfolding duplicate
duplicate-Keeps d = syscall-Keeps (λ s. ok (d, s)) (λ s a s' ends. ground arith)

absent-Keeps : {A : Type 0} (e : IoError) → Keeps true (absent {A = A} e)
absent-Keeps no_entry = Keeps-done _
absent-Keeps already_exists = Keeps-failed _
absent-Keeps not_empty = Keeps-failed _
absent-Keeps not_a_directory = Keeps-failed _
absent-Keeps is_a_directory = Keeps-failed _
absent-Keeps symlink_loop = Keeps-failed _
absent-Keeps (other m) = Keeps-failed _

opened-Keeps :
    (rest : List Text)
    → ((c : ℕ) → Keeps true (find_from c rest))
    → (r : Result IoError ℕ) → Keeps true (elim r [ ok c ↦ find_from c rest | err e ↦ absent e ])
opened-Keeps rest below (ok c) = below c
opened-Keeps rest below (err e) = absent-Keeps e

find_from-Keeps : (path : List Text) (d : ℕ) → Keeps true (find_from d path)
unfolding find_from
find_from-Keeps [] d = Keeps-done _
find_from-Keeps (name ∷ rest) d =
    bind-Keeps (attempt-Keeps (open_directory-Keeps d name))
      (opened-Keeps rest (find_from-Keeps rest))

pub find_dir-Keeps : (root : ℕ) (rel : List Component) → Keeps true (find_dir root rel)
unfolding find_dir
find_dir-Keeps root rel = bind-Keeps (duplicate-Keeps root) (find_from-Keeps (names rel))

status_at-Keeps : (d : ℕ) (name : Text) → Keeps true (status_at d name)
unfolding status_at
status_at-Keeps d name = syscall-Keeps (entry d name (λ i s. ok (s.node_at i, s))) (λ s a s' ends.
    let (i, found, same) = entry-ok d name (λ i s. ok (s.node_at i, s)) s ends in ground arith)

present_or-Keeps : {A : Type 0} (r : Result IoError A) → Keeps true (present_or r)
present_or-Keeps (ok a) = Keeps-done _
present_or-Keeps (err no_entry) = Keeps-done _
present_or-Keeps (err already_exists) = Keeps-failed _
present_or-Keeps (err not_empty) = Keeps-failed _
present_or-Keeps (err not_a_directory) = Keeps-failed _
present_or-Keeps (err is_a_directory) = Keeps-failed _
present_or-Keeps (err symlink_loop) = Keeps-failed _
present_or-Keeps (err (other m)) = Keeps-failed _

pub exists-Keeps : (d : ℕ) (name : Text) → Keeps true (exists d name)
unfolding exists
exists-Keeps d name = bind-Keeps (attempt-Keeps (status_at-Keeps d name)) present_or-Keeps

pub status-Keeps : (i : ℕ) → Keeps true (status i)
unfolding status
status-Keeps i = syscall-Keeps (λ s. ok (s.node_at i, s)) (λ s a s' ends. ground arith)

same_handle :
    (k : Kind) (i : ℕ) (s : Store) {c : ℕ} {s' : Store}
    → open_unless_symlink k i s ≡ ok (c, s')
    → s' ≡ s
same_handle (regular b) i s e = ground arith
same_handle (directory d) i s e = ground arith
same_handle (symlink t) i s e = cc
same_handle special i s e = ground arith

open_reading-Keeps : (d : ℕ) (name : Text) → Keeps true (open_reading d name)
unfolding open_reading
open_reading-Keeps d name = syscall-Keeps (entry d name read_handle) (λ s a s' ends.
    let (i, found, same) = entry-ok d name read_handle s ends in
    same_handle (s.node_at i).kind i s same)

pub open_regular_file-Keeps : (d : ℕ) (name : Text) → Keeps true (open_regular_file d name)
unfolding open_regular_file
open_regular_file-Keeps d name = bind-Keeps (open_reading-Keeps d name) (λ file.
    bind-Keeps (status-Keeps file) (λ stat.
      if-Keeps (not (is_regular stat.kind)) (Keeps-failed _)
        (if-Keeps (not (stat.nlink == 1)) (Keeps-failed _) (Keeps-done _))))

same_bytes :
    (k : Kind) (s : Store) {bytes : Text} {s' : Store} → bytes_of k s ≡ ok (bytes, s') → s' ≡ s
same_bytes (regular b) s e = ground arith
same_bytes (directory d) s e = cc
same_bytes (symlink t) s e = cc
same_bytes special s e = cc

pub read_file-Keeps : (i : ℕ) → Keeps true (read_file i)
unfolding read_file
read_file-Keeps i =
    syscall-Keeps (λ s. bytes_of (s.node_at i).kind s)
      (λ s a s' ends. same_bytes (s.node_at i).kind s ends)
