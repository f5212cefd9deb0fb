-- ===== src/Migrate/User/Tests.antt =====
-- An account resolved, and the theorem at it.
use gnosis_vpn_toolkit.Prelude.{◌≡◌, ◌↔◌, some, none, true, ok}
use gnosis_vpn_toolkit.Prelude.Text.{codes}
use gnosis_vpn_toolkit.Migrate.User.{Account, User, Accounts, resolve, MayReceive, resolve-ok_iff}

abbrev ada : User
ada = record { uid = 1000; primary_group_id = 1000; home_dir = codes "/home/ada" }

abbrev accounts : Accounts
accounts = record {
  get_user_by_name = λ name. some ada;
  is_dir = λ path. true;
  canonicalize = λ path. none;
}

abbrev account : Account
account = record { name = codes "ada"; uid = 1000; gid = 1000; home = codes "/home/ada" }

resolve-ok_iff_example :
    (resolve accounts (codes "ada") (codes "/var/lib/gnosisvpn") ≡ ok account) ↔ (
      (user : User) × (accounts.get_user_by_name (codes "ada") ≡ some user)
      × MayReceive accounts (codes "/var/lib/gnosisvpn") user
      × (account ≡ record {
        name = codes "ada";
        uid = user.uid;
        gid = user.primary_group_id;
        home = user.home_dir;
      }))
resolve-ok_iff_example = resolve-ok_iff accounts (codes "ada") (codes "/var/lib/gnosisvpn") account
