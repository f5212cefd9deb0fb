-- ===== src/Migrate/Logging/Ending.antt =====
-- What opening the log file changes.
use gnosis_vpn_toolkit.Prelude.{
  ℕ, not, Option, none, some, List, [], ◌∷◌, ◌≡◌, refl, sym, subst, arith, inl, inr, Result, ok,
  err, ◌==◌, Bool-cases, if◌then◌else◌,
}
use gnosis_vpn_toolkit.Prelude.Text.{Text, codes}
use gnosis_vpn_toolkit.FilePath.{Component, parent, file_name}
use gnosis_vpn_toolkit.Migrate.Store.{
  IoError, no_entry, already_exists, not_empty, not_a_directory, is_a_directory, symlink_loop,
  other, directory, Node, Store, World, Answer, done, failed, unfinished, Process, lookup_in, Io,
  attempt, syscall, pure, fail, ◌>>=◌,
}
use gnosis_vpn_toolkit.Migrate.Store.Calls.{
  open_directory, make_directory, status, add_node, fresh_node,
}
use gnosis_vpn_toolkit.Migrate.Store.Steady.{open_directory-Triple}
use gnosis_vpn_toolkit.Migrate.Store.Triples.{
  Meets, Triple, Triple-pure, Triple-fail, Triple-bind, Triple-syscall, Triple-weaken,
  Triple-attempt, Either,
}
use gnosis_vpn_toolkit.Migrate.Store.Verdicts.{Never}
use gnosis_vpn_toolkit.Migrate.Nofollow.{open_home, names, is_regular}
use gnosis_vpn_toolkit.Migrate.Nofollow.Reading.{same_home}
use gnosis_vpn_toolkit.Migrate.Logging.{
  log_dir_mode, appending, open_appending, child_or_made, ensure_each, start_of,
  ensure_dir_nofollow, open_in, open_append, log_handle, setup,
}
use gnosis_vpn_toolkit.Migrate.Logging.Growing.{Grown, Grown-refl, add_to-Grown, appending-Grown}

module _ (start : Store) where
  -- However the command ends, the store has only grown, and it ends.
  abbrev Grows : {A : Type 0} → Io A → Type 0
  Grows m = Triple (Grown start) Never (Grown start) m (λ _ s. Grown start s)

  pure-Grows : {A : Type 0} (a : A) → Grows (λ w. (done a, w))
  pure-Grows a = Triple-pure (Grown start) Never (Grown start) (λ _ s. Grown start s) a (λ s g. g)

  fail-Grows : {A : Type 0} (e : IoError) → Grows {A = A} (λ w. (failed e, w))
  fail-Grows e = Triple-fail (Grown start) Never (Grown start) (λ _ s. Grown start s) e (λ s g. g)

  bind-Grows :
      {A B : Type 0} (m : Io A) (k : A → Io B) → Grows m → ((a : A) → Grows (k a)) → Grows (m >>= k)
  bind-Grows m k =
      Triple-bind (Grown start) Never (Grown start) (λ _ s. Grown start s) (λ _ s. Grown start s) m
        k

  syscall-Grows :
      {A : Type 0} (f : Store → Result IoError (A × Store))
      → ((s : Store) (a : A) (s' : Store) → Grown start s → f s ≡ ok (a, s') → Grown start s')
      → Grows (syscall f)
  syscall-Grows f =
      Triple-syscall (Grown start) Never (Grown start) (λ _ s. Grown start s) f (λ s g. g)

  Either-Grown :
      {A : Type 0} (r : Result IoError A) (s : Store)
      → Either (Grown start) Never (λ _ s. Grown start s) (Grown start) r s
      → Grown start s
  Either-Grown (ok a) s g = g
  Either-Grown (err e) s g = g

  attempt-Grows : {A : Type 0} (m : Io A) → Grows m → Grows (attempt m)
  attempt-Grows m grows =
      Triple-weaken (Grown start) Never (Grown start) (Grown start) _ (λ _ s. Grown start s)
        (attempt m) (λ s g. g) Either-Grown
        (Triple-attempt (Grown start) (Grown start) Never (Grown start) (λ _ s. Grown start s) m
          grows)

  open_directory-Grows : (d : ℕ) (name : Text) → Grows (open_directory d name)
  open_directory-Grows d name =
      Triple-weaken (Grown start) Never (Grown start) (Grown start) _ (λ _ s. Grown start s) _
        (λ s g. g) (λ c s h. h.1)
        (open_directory-Triple (Grown start) Never (Grown start) (λ s g. g) d name)

  make_directory-Grows :
      (p : Process) (d : ℕ) (name : Text) (mode : ℕ) → Grows (make_directory p d name mode)
  unfolding make_directory
  make_directory-Grows p d name mode =
      syscall-Grows (add_node d name (fresh_node p (directory []) mode)) (λ s a s' g ends.
        add_to-Grown start s (s.node_at d).kind d name (fresh_node p (directory []) mode) refl g
          ends)

  child_or_made-Grows :
      (p : Process) (dir : ℕ) (name : Text) (r : Result IoError ℕ)
      → Grows (child_or_made p dir name r)
  child_or_made-Grows p dir name (ok child) = pure-Grows child
  child_or_made-Grows p dir name (err no_entry) =
      bind-Grows _ _ (make_directory-Grows p dir name log_dir_mode)
        (λ _. open_directory-Grows dir name)
  child_or_made-Grows p dir name (err already_exists) = fail-Grows _
  child_or_made-Grows p dir name (err not_empty) = fail-Grows _
  child_or_made-Grows p dir name (err not_a_directory) = fail-Grows _
  child_or_made-Grows p dir name (err is_a_directory) = fail-Grows _
  child_or_made-Grows p dir name (err symlink_loop) = fail-Grows _
  child_or_made-Grows p dir name (err (other m)) = fail-Grows _

  ensure_each-Grows : (p : Process) (path : List Text) (dir : ℕ) → Grows (ensure_each p dir path)
  unfolding ensure_each
  ensure_each-Grows p [] dir = pure-Grows dir
  ensure_each-Grows p (name ∷ rest) dir =
      bind-Grows _ _ (attempt-Grows (open_directory dir name) (open_directory-Grows dir name))
        (λ opened.
          bind-Grows _ _ (child_or_made-Grows p dir name opened)
            (λ child. ensure_each-Grows p rest child))

  open_home-Grows : (p : Process) (path : Text) → Grows (open_home p path)
  unfolding open_home
  open_home-Grows p path =
      syscall-Grows _
        (λ s a s' g ends. subst (Grown start) (sym (same_home (p.directory_at s path) s ends)) g)

  status-Grows : (i : ℕ) → Grows (status i)
  unfolding status
  status-Grows i =
      syscall-Grows (λ s. ok (s.node_at i, s))
        (λ s a s' g ends. let e : s ≡ s' = ground arith in subst (Grown start) e g)

  open_appending-Grows : (p : Process) (d : ℕ) (name : Text) → Grows (open_appending p d name)
  unfolding open_appending
  open_appending-Grows p d name =
      syscall-Grows (λ s. appending p d name (lookup_in s d name) s)
        (λ s a s' g ends. appending-Grown start p d name (lookup_in s d name) s g ends)

  checked-Grows :
      (file : ℕ) (stat : Node)
      → Grows (
          if not (is_regular stat.kind)
          then fail (other (codes "not a regular file"))
          else if not (stat.nlink == 1)
          then fail (other (codes "has more than one hard link"))
          else pure file)
  checked-Grows file stat = elim (Bool-cases (not (is_regular stat.kind))) [
    | inl odd ↦ rw odd (fail-Grows _)
    | inr plain ↦ rw plain (elim (Bool-cases (not (stat.nlink == 1))) [
      | inl many ↦ rw many (fail-Grows _)
      | inr one ↦ rw one (pure-Grows file)
    ])
  ]

  open_in-Grows :
      (p : Process) (dir : Option (List Component)) (name : Option Text)
      → Grows (open_in p dir name)
  unfolding ensure_dir_nofollow open_in
  open_in-Grows p (some dir_path) (some name) =
      bind-Grows _ _
        (bind-Grows _ _ (open_home-Grows p (start_of dir_path))
          (λ dir. ensure_each-Grows p (names dir_path) dir))
        (λ dir.
          bind-Grows _ _ (open_appending-Grows p dir name)
            (λ file. bind-Grows _ _ (status-Grows file) (checked-Grows file)))
  open_in-Grows p (some dir_path) none = fail-Grows _
  open_in-Grows p none name = fail-Grows _

  setup-Triple :
      (p : Process) (path : Text)
      → Triple Never Never (Grown start) (setup p path) (λ _ s. Grown start s)
  unfolding setup open_append
  setup-Triple p path =
      Triple-bind Never Never (Grown start) _ (λ _ s. Grown start s) (attempt (open_append p path))
        _
        (Triple-attempt Never (Grown start) Never (Grown start) (λ _ s. Grown start s)
          (open_append p path) (open_in-Grows p (parent path) (file_name path)))
        (λ opened.
          Triple-pure Never Never _ (λ _ s. Grown start s) (log_handle opened)
            (Either-Grown opened))

settled :
    {A : Type 0} (start : Store) (r : Answer A × World)
    → Meets (λ _ s. Grown start s) Never Never r
    → (a : A) × (w : World) × (r ≡ (done a, w)) × Grown start w.store
settled start (done a, w) g = (a, w, refl, g)
settled start (failed e, w) g = absurd g
settled start (unfinished, w) g = absurd g

-- The set-up of the log ends, whatever calls are refused, and the store has only grown.
pub setup-Grown :
    (p : Process) (path : Text) (w : World)
    → (file : Option ℕ) × (w' : World) × (setup p path w ≡ (done file, w')) × Grown w.store w'.store
setup-Grown p path w =
    settled w.store (setup p path w) ((setup-Triple w.store p path).at w (Grown-refl w.store))
