-- ===== src/Migrate/Store/Sample.antt =====
-- A small file system and a process: the data of the tests.
use gnosis_vpn_toolkit.Prelude.{
  ℕ, ◌<◌, some, none, [], ◌∷◌, ◌==◌, if◌then◌else◌, ◌≡◌, arith, ok, true,
}
use gnosis_vpn_toolkit.Prelude.Text.{Text, codes}
use gnosis_vpn_toolkit.Migrate.Store.{
  Kind, regular, directory, symlink, Node, Store, World, Process, lookup_in,
}

abbrev pub process : Process
process = record {
  euid = 0;
  egid = 0;
  masked = λ mode. mode;
  directory_at = λ s path. ok 1;
  reports_types = true;
}

abbrev pub node : Kind → ℕ → Node
node kind uid = record { kind = kind; uid = uid; gid = 7; mode = 0; nlink = 1 }

-- A home with a directory, in which there are a file and a link that leads away, and another
-- directory.
abbrev pub store : Store
store = record {
  node_at = λ j.
      if j == 1
      then node (directory ((codes ".config", 2) ∷ (codes "new", 5) ∷ [])) 7
      else if j == 2
      then node (directory ((codes "hopr.id", 3) ∷ (codes "away", 4) ∷ [])) 7
      else if j == 3
      then node (regular (codes "key")) 7
      else if j == 5
      then node (directory []) 7
      else node (symlink (codes "/etc/passwd")) 7;
  fresh = 6;
}

-- The kernel refuses one call of ten.
abbrev pub world : World
world = record {
  store = store;
  faults =
      none
      ∷ none
      ∷ none
      ∷ none
      ∷ none
      ∷ none
      ∷ none
      ∷ none
      ∷ none
      ∷ some (codes "Input/output error (os error 5)")
      ∷ [];
}

abbrev pub depth : ℕ → ℕ
depth j = if j == 1 then 2 else if j == 2 then 1 else 0

pub depth_falls :
    (d : ℕ) (name : Text) (c : ℕ) → lookup_in store d name ≡ some c → depth c < depth d
depth_falls d name c found = ground arith
