-- ===== src/Migrate/Nofollow/Finishing.antt =====
-- Making directories ends, whatever calls are refused.
use gnosis_vpn_toolkit.Prelude.{ℕ, List, [], ◌∷◌, Result, ok, err}
use gnosis_vpn_toolkit.Prelude.Text.{Text}
use gnosis_vpn_toolkit.FilePath.{Component}
use gnosis_vpn_toolkit.Migrate.Store.{
  IoError, no_entry, already_exists, not_empty, not_a_directory, is_a_directory, symlink_loop,
  other, Store, Process, Io, pure, fail, attempt, ◌>>=◌, syscall, directory, set_node,
}
use gnosis_vpn_toolkit.Migrate.Store.Calls.{
  entry, directory_handle, add_node, fresh_node, give_to, open_directory, make_directory,
  change_mode, change_owner, duplicate,
}
use gnosis_vpn_toolkit.Migrate.Store.Triples.{
  Triple, Triple-pure, Triple-fail, Triple-bind, Triple-syscall, Triple-weaken, Triple-attempt,
  Either,
}
use gnosis_vpn_toolkit.Migrate.Store.Verdicts.{Any, Never}
use gnosis_vpn_toolkit.Migrate.User.{Account, chown}
use gnosis_vpn_toolkit.Migrate.Nofollow.{
  names, create_dir, created_for, child_or_created, ensure_from, ensure_dir,
}

-- A command ends with a value or an error.
abbrev pub Ends : {A : Type 0} → Io A → Type 0
Ends m = Triple Any Never Any m (λ _ s. Any s)

Ends-bind :
    {A B : Type 0} (m : Io A) (k : A → Io B) → Ends m → ((a : A) → Ends (k a)) → Ends (m >>= k)
Ends-bind m k first next = Triple-bind Any Never Any (λ _ s. Any s) (λ _ s. Any s) m k first next

Ends-pure : {A : Type 0} (a : A) → Ends (pure a)
Ends-pure a = Triple-pure Any Never Any (λ _ s. Any s) a (λ s h. tt)

Ends-fail : {A : Type 0} (e : IoError) → Ends (fail {A = A} e)
Ends-fail e = Triple-fail Any Never Any (λ _ s. Any s) e (λ s h. tt)

pub Ends-syscall : {A : Type 0} (f : Store → Result IoError (A × Store)) → Ends (syscall f)
Ends-syscall f = Triple-syscall Any Never Any (λ _ s. Any s) f (λ s h. tt) (λ s a s' h e. tt)

open_directory-Ends : (d : ℕ) (name : Text) → Ends (open_directory d name)
unfolding open_directory
open_directory-Ends d name = Ends-syscall (entry d name directory_handle)

make_directory-Ends :
    (p : Process) (d : ℕ) (name : Text) (mode : ℕ) → Ends (make_directory p d name mode)
unfolding make_directory
make_directory-Ends p d name mode =
    Ends-syscall (add_node d name (fresh_node p (directory []) mode))

change_mode-Ends : (i mode : ℕ) → Ends (change_mode i mode)
unfolding change_mode
change_mode-Ends i mode =
    Ends-syscall (λ s. ok (tt, set_node i (record (s.node_at i) { mode = mode }) s))

chown-Ends : (i : ℕ) (account : Account) → Ends (chown i account)
unfolding chown change_owner
chown-Ends i account = Ends-syscall (give_to account.uid account.gid i)

pub duplicate-Ends : (d : ℕ) → Ends (duplicate d)
unfolding duplicate
duplicate-Ends d = Ends-syscall (λ s. ok (d, s))

create_dir-Ends : (p : Process) (d : ℕ) (name : Text) (mode : ℕ) → Ends (create_dir p d name mode)
unfolding create_dir
create_dir-Ends p d name mode =
    Ends-bind (make_directory p d name mode) _ (make_directory-Ends p d name mode) (λ made.
      Ends-bind (open_directory d name) _ (open_directory-Ends d name) (λ dir.
        Ends-bind (change_mode dir mode) (λ _. pure dir) (change_mode-Ends dir mode)
          (λ a. Ends-pure dir)))

created_for-Ends :
    (p : Process) (account : Account) (d : ℕ) (name : Text) (mode : ℕ)
    → Ends (created_for p account d name mode)
created_for-Ends p account d name mode =
    Ends-bind (create_dir p d name mode) _ (create_dir-Ends p d name mode) (λ child.
      Ends-bind (chown child account) (λ _. pure child) (chown-Ends child account)
        (λ a. Ends-pure child))

child-Ends :
    (p : Process) (account : Account) (d : ℕ) (name : Text) (mode : ℕ) (r : Result IoError ℕ)
    → Ends (child_or_created p account d name mode r)
child-Ends p account d name mode (ok child) = Ends-pure child
child-Ends p account d name mode (err no_entry) = created_for-Ends p account d name mode
child-Ends p account d name mode (err already_exists) = Ends-fail already_exists
child-Ends p account d name mode (err not_empty) = Ends-fail not_empty
child-Ends p account d name mode (err not_a_directory) = Ends-fail not_a_directory
child-Ends p account d name mode (err is_a_directory) = Ends-fail is_a_directory
child-Ends p account d name mode (err symlink_loop) = Ends-fail symlink_loop
child-Ends p account d name mode (err (other m)) = Ends-fail (other m)

ensure_from-Ends :
    (p : Process) (account : Account) (mode d : ℕ) (path : List Text)
    → Ends (ensure_from p account mode d path)
unfolding ensure_from
ensure_from-Ends p account mode d [] = Ends-pure d
ensure_from-Ends p account mode d (name ∷ rest) =
    Ends-bind (attempt (open_directory d name)) _
      (Triple-weaken Any Never Any Any (Either Any Never (λ _ s. Any s) Any) (λ _ s. Any s)
        (attempt (open_directory d name)) (λ s h. h) (λ r s h. tt)
        (Triple-attempt Any Any Never Any (λ _ s. Any s) (open_directory d name)
          (open_directory-Ends d name)))
      (λ opened.
        Ends-bind (child_or_created p account d name mode opened) _
          (child-Ends p account d name mode opened)
          (λ child. ensure_from-Ends p account mode child rest))

pub ensure_dir-Ends :
    (p : Process) (root : ℕ) (rel : List Component) (mode : ℕ) (account : Account)
    → Ends (ensure_dir p root rel mode account)
unfolding ensure_dir
ensure_dir-Ends p root rel mode account =
    Ends-bind (duplicate root) _ (duplicate-Ends root)
      (λ d. ensure_from-Ends p account mode d (names rel))
