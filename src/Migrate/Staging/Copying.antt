-- ===== src/Migrate/Staging/Copying.antt =====
-- What a verified copy leaves.
use gnosis_vpn_toolkit.Prelude.{
  ℕ, Option, none, some, List, [], ◌∷◌, ◌≡◌, refl, sym, ◌∙◌, ap, subst, inl, inr, arith, Bool-cases,
  ok, ◌==◌, ==-refl, ==_iff,
}
use gnosis_vpn_toolkit.Prelude.Text.{Text, text_eq_refl}
use gnosis_vpn_toolkit.FilePath.{Component}
use gnosis_vpn_toolkit.Migrate.Dirs.{lookup, is_some}
use gnosis_vpn_toolkit.Migrate.Layout.{file_mode, dir_mode}
use gnosis_vpn_toolkit.Migrate.Store.{
  lookup_in, names_in, set_entries, Node, Kind, regular, directory, symlink, special, Store,
  Process, set_node,
}
use gnosis_vpn_toolkit.Migrate.Store.Calls.{
  read_file, bytes_of, write_file, appended, rewind, create_exclusive, add_node, add_to, with_fresh,
  owned, fresh_node, change_mode, change_owner, give_to, duplicate,
}
use gnosis_vpn_toolkit.Migrate.Store.Triples.{
  Triple, Triple-pure, Triple-bind, Triple-syscall, Triple-weaken,
}
use gnosis_vpn_toolkit.Migrate.Store.Steady.{duplicate-Triple}
use gnosis_vpn_toolkit.Migrate.Store.Verdicts.{Any, Never}
use gnosis_vpn_toolkit.Migrate.User.{Account, chown}
use gnosis_vpn_toolkit.Migrate.Nofollow.{create_file}
use gnosis_vpn_toolkit.Migrate.Nofollow.Finishing.{ensure_dir-Ends}
use gnosis_vpn_toolkit.Migrate.Staging.{subdir}

-- A file at a name, which only its owner may read and write.
abbrev pub Private : ℕ → Text → ℕ → Store → Type 0
Private d name copy s = (lookup_in s d name ≡ some copy) × ((s.node_at copy).mode ≡ file_mode)

abbrev pub Given : Account → ℕ → Text → ℕ → Store → Type 0
Given account d name copy s =
    Private d name copy s
    × ((s.node_at copy).uid ≡ account.uid)
    × ((s.node_at copy).gid ≡ account.gid)

-- A change of a node that leaves its names leaves all names.
lookup_in-set :
    (i : ℕ) (n : Node) (s : Store) (d : ℕ) (name : Text)
    → names_in n.kind ≡ names_in (s.node_at i).kind
    → lookup_in (set_node i n s) d name ≡ lookup_in s d name
lookup_in-set i n s d name same = elim (Bool-cases (d == i)) [
  | inl here ↦
      rw (here, same)
        (ap (λ k. lookup name (names_in (s.node_at k).kind)) (sym ((==_iff d i).0 here)))
  | inr other ↦ rw other refl
]

names_in-appended : (k : Kind) (bytes : Text) → names_in (appended k bytes) ≡ names_in k
names_in-appended (regular old) bytes = refl
names_in-appended (directory entries) bytes = refl
names_in-appended (symlink target) bytes = refl
names_in-appended special bytes = refl

add_to-ok :
    (k : Kind) (d : ℕ) (name : Text) (n : Node) (s : Store) {c : ℕ} {s' : Store}
    → add_to k d name n s ≡ ok (c, s')
    → lookup_in s' d name ≡ some c
add_to-ok (directory entries) d name n s {c} {s'} ends =
    elim (Bool-cases (is_some (lookup name entries))) [
      | inl taken ↦ absurd (ground arith)
      | inr free ↦
          let e : set_entries d ((name, s.fresh) ∷ entries) (with_fresh n s) ≡ s' = ground arith in
          let e' : s.fresh ≡ c = ground arith in
          subst (λ t. lookup_in t d name ≡ some c) e
            (rw (==-refl d, text_eq_refl name) (ap some e'))
    ]
add_to-ok (regular b) d name n s ends = cc
add_to-ok (symlink t) d name n s ends = cc
add_to-ok special d name n s ends = cc

pub rewind-Triple : (P : Store → Type 0) (i : ℕ) → Triple Any Never P (rewind i) (λ _ s. P s)
unfolding rewind
rewind-Triple P i =
    Triple-syscall Any Never P (λ _ s. P s) (λ s. ok (tt, s)) (λ s h. tt)
      (λ s a s' h ends. let e : s ≡ s' = ground arith in subst P e h)

bytes_of-ok :
    (k : Kind) (s : Store) {bytes : Text} {s' : Store}
    → bytes_of k s ≡ ok (bytes, s')
    → (k ≡ regular bytes) × (s ≡ s')
bytes_of-ok (regular b) s e = ground arith
bytes_of-ok (directory d) s e = cc
bytes_of-ok (symlink t) s e = cc
bytes_of-ok special s e = cc

pub read_file-Triple :
    (P : Store → Type 0) (i : ℕ)
    → Triple Any Never P (read_file i) (λ bytes s. ((s.node_at i).kind ≡ regular bytes) × P s)
unfolding read_file
read_file-Triple P i =
    Triple-syscall Any Never P (λ bytes s. ((s.node_at i).kind ≡ regular bytes) × P s)
      (λ s. bytes_of (s.node_at i).kind s) (λ s h. tt)
      (λ s bytes s' h ends.
        let (read, same) = bytes_of-ok (s.node_at i).kind s ends in
        subst (λ t. ((t.node_at i).kind ≡ regular bytes) × P t) same (read, h))

create_exclusive-Triple :
    (p : Process) (d : ℕ) (name : Text)
    → Triple Any Never Any
        (create_exclusive p d name file_mode)
        (λ c s. lookup_in s d name ≡ some c)
unfolding create_exclusive
create_exclusive-Triple p d name =
    Triple-syscall Any Never Any (λ c s. lookup_in s d name ≡ some c)
      (add_node d name (fresh_node p (regular []) file_mode)) (λ s h. tt)
      (λ s c s' h ends.
        add_to-ok (s.node_at d).kind d name (fresh_node p (regular []) file_mode) s ends)

pub create_file-Triple :
    (p : Process) (d : ℕ) (name : Text)
    → Triple Any Never Any (create_file p d name file_mode) (Private d name)
unfolding create_file change_mode
create_file-Triple p d name =
    Triple-bind Any Never Any (λ c s. lookup_in s d name ≡ some c) (Private d name)
      (create_exclusive p d name file_mode) _ (create_exclusive-Triple p d name)
      (λ file.
        Triple-bind Any Never (λ s. lookup_in s d name ≡ some file) (λ _ s. Private d name file s)
          (Private d name) (change_mode file file_mode) _
          (Triple-syscall Any Never (λ s. lookup_in s d name ≡ some file)
            (λ _ s. Private d name file s)
            (λ s. ok (tt, set_node file (record (s.node_at file) { mode = file_mode }) s))
            (λ s h. tt)
            (λ s a s' h ends.
              let e : set_node file (record (s.node_at file) { mode = file_mode }) s ≡ s' =
                ground arith in
              subst (Private d name file) e (
                lookup_in-set file (record (s.node_at file) { mode = file_mode }) s d name refl ∙ h,
                rw (==-refl file) refl,
              )))
          (λ a. Triple-pure Any Never (Private d name file) (Private d name) file (λ s h. h)))

pub write_file-Triple :
    (d : ℕ) (name : Text) (copy : ℕ) (bytes : Text)
    → Triple Any Never (Private d name copy) (write_file copy bytes) (λ _ s. Private d name copy s)
unfolding write_file
write_file-Triple d name copy bytes =
    Triple-syscall Any Never (Private d name copy) (λ _ s. Private d name copy s)
      (λ s. ok (
        tt,
        set_node copy (record (s.node_at copy) { kind = appended (s.node_at copy).kind bytes }) s,
      ))
      (λ s h. tt)
      (λ s a s' h ends.
        let n = record (s.node_at copy) { kind = appended (s.node_at copy).kind bytes } in
        let e : set_node copy n s ≡ s' = ground arith in
        subst (Private d name copy) e (
          lookup_in-set copy n s d name (names_in-appended (s.node_at copy).kind bytes) ∙ h.0,
          rw (==-refl copy) h.1,
        ))

pub chown-Triple :
    (d : ℕ) (name : Text) (copy : ℕ) (account : Account)
    → Triple Any Never
        (Private d name copy)
        (chown copy account)
        (λ _ s. Given account d name copy s)
unfolding chown change_owner
chown-Triple d name copy account =
    Triple-syscall Any Never (Private d name copy) (λ _ s. Given account d name copy s)
      (give_to account.uid account.gid copy) (λ s h. tt)
      (λ s a s' h ends.
        let n = owned account.uid account.gid (s.node_at copy) in
        let e : set_node copy n s ≡ s' = ground arith in
        subst (Given account d name copy) e (
          (lookup_in-set copy n s d name refl ∙ h.0, rw (==-refl copy) h.1),
          rw (==-refl copy) refl,
          rw (==-refl copy) refl,
        ))

-- Where no directory lies between, the file stands in the staging directory itself.
abbrev pub Holds : ℕ → Option (List Component) → ℕ → Type 0
Holds staging none d = staging ≡ d
Holds staging (some []) d = staging ≡ d
Holds staging (some (c ∷ cs)) d = Unit

duplicate-Holds : (staging : ℕ) → Triple Any Never Any (duplicate staging) (λ d s. staging ≡ d)
duplicate-Holds staging =
    Triple-weaken Any Never Any Any (λ d s. (staging ≡ d) × Any s) (λ d s. staging ≡ d)
      (duplicate staging) (λ s h. h) (λ d s h. h.0)
      (duplicate-Triple Any Never Any (λ s h. tt) staging)

pub subdir-Triple :
    (p : Process) (account : Account) (staging : ℕ) (dir : Option (List Component))
    → Triple Any Never Any (subdir p account staging dir) (λ d s. Holds staging dir d)
subdir-Triple p account staging none = duplicate-Holds staging
subdir-Triple p account staging (some []) = duplicate-Holds staging
subdir-Triple p account staging (some (c ∷ cs)) =
    ensure_dir-Ends p staging (c ∷ cs) dir_mode account
