-- ===== src/Migrate/User.antt =====
-- The installing user (gnosis_vpn-migrate/src/user.rs); the password database and the answers of the
-- file system are parameters.
mod Tests
use gnosis_vpn_toolkit.Prelude.{
  ℕ, Bool, true, false, not, ◌&&◌, Option, none, some, List, [], ◌∷◌, ◌++◌, ◌≡◌, ◌≢◌, ◌↔◌, arith,
  Result, ok, err, ◌==◌, if◌then◌else◌,
}
use gnosis_vpn_toolkit.Prelude.Text.{Text, codes, text_eq}
use gnosis_vpn_toolkit.FilePath.{Component, root_dir, cur_dir, parent_dir, normal, components}
use gnosis_vpn_toolkit.Migrate.Store.{Io}
use gnosis_vpn_toolkit.Migrate.Store.Calls.{change_owner}

pub record Account : Type 0 where
  pub name : Text
  pub uid : ℕ
  pub gid : ℕ
  pub home : Text

-- An entry of the password database.
pub record User : Type 0 where
  pub uid : ℕ
  pub primary_group_id : ℕ
  pub home_dir : Text

pub record Accounts : Type 0 where
  pub get_user_by_name : Text → Option User
  pub is_dir : Text → Bool
  pub canonicalize : Text → Option Text

abbrev component_eq : Component → Component → Bool
component_eq root_dir root_dir = true
component_eq cur_dir cur_dir = true
component_eq parent_dir parent_dir = true
component_eq (normal s) (normal t) = text_eq s t
component_eq _ _ = false

components_eq : List Component → List Component → Bool
components_eq [] [] = true
components_eq (a ∷ s) (b ∷ t) = component_eq a b && components_eq s t
components_eq _ _ = false

-- `PartialEq for Path`: by components.
abbrev path_eq : Text → Text → Bool
unfolding components_eq components
path_eq a b = components_eq (components a) (components b)

abbrev same_canonical : Text → Text → Option Text → Option Text → Bool
unfolding path_eq
same_canonical a b (some a') (some b') = path_eq a' b'
same_canonical a b _ _ = path_eq a b

unfoldable pub same_path : Accounts → Text → Text → Bool
unfolding same_canonical
same_path host a b = same_canonical a b (host.canonicalize a) (host.canonicalize b)

unfoldable pub resolve : Accounts → Text → Text → Result Text Account
resolve host name legacy_home = elim (host.get_user_by_name name) [
  | none ↦ err (codes "unknown user " ++ name)
  | some user ↦
      if user.uid == 0
      then err (
          codes "refusing to migrate into "
          ++ (name ++ codes "'s home: the client never runs a worker as uid 0"))
      else if not (host.is_dir user.home_dir)
      then err (codes "home of " ++ (name ++ (codes " is not a directory: " ++ user.home_dir)))
      else if same_path host user.home_dir legacy_home
      then err (
          codes "home of "
          ++ (name
              ++ (codes " is the legacy data dir "
                  ++ (user.home_dir ++ codes "; pass the account the client will run as"))))
      else ok (record {
        name = name;
        uid = user.uid;
        gid = user.primary_group_id;
        home = user.home_dir;
      })
]

-- Through the open handle.
unfoldable pub chown : ℕ → Account → Io (Unit {0})
unfolding change_owner
chown handle account = change_owner handle account.uid account.gid

-- The accounts into which an identity may be migrated.
abbrev pub MayReceive : Accounts → Text → User → Type 0
MayReceive host legacy_home user =
    (user.uid ≢ 0)
    × (host.is_dir user.home_dir ≡ true)
    × (same_path host user.home_dir legacy_home ≡ false)

-- A name resolves exactly to the account of its entry in the password database, where that is not
-- uid 0, whatever its name, and its home is a directory and not the legacy one.
pub resolve-ok_iff :
    (host : Accounts) (name legacy_home : Text) (account : Account)
    → (resolve host name legacy_home ≡ ok account) ↔ (
        (user : User) × (host.get_user_by_name name ≡ some user)
        × MayReceive host legacy_home user
        × (account ≡ record {
          name = name;
          uid = user.uid;
          gid = user.primary_group_id;
          home = user.home_dir;
        }))
unfolding resolve
resolve-ok_iff host name legacy_home account = (λ h. ground arith, λ h. ground arith)
