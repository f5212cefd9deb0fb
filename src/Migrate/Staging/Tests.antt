-- ===== src/Migrate/Staging/Tests.antt =====
-- A verified copy on a small file system, and the theorem at it.
use gnosis_vpn_toolkit.Prelude.{[], ◌≡◌, refl, ok}
use gnosis_vpn_toolkit.Prelude.Text.{codes, join, split}
use gnosis_vpn_toolkit.FilePath.{parent, file_name}
use gnosis_vpn_toolkit.Migrate.Networks.{on_data}
use gnosis_vpn_toolkit.Migrate.Store.{World, done}
use gnosis_vpn_toolkit.Migrate.Store.Calls.{
  duplicate, rewind, create_exclusive, change_mode, change_owner, read_file, write_file,
  synchronise,
}
use gnosis_vpn_toolkit.Migrate.Store.Sample.{process, world}
use gnosis_vpn_toolkit.Migrate.User.{Account, chown}
use gnosis_vpn_toolkit.Migrate.Nofollow.{create_file}
use gnosis_vpn_toolkit.Migrate.Legacy.{Planned}
use gnosis_vpn_toolkit.Migrate.Staging.{copy_verified}
use gnosis_vpn_toolkit.Migrate.Staging.Verified.{CopyEnds, copy_verified-Ends}

abbrev account : Account
account = record { name = codes "ada"; uid = 1000; gid = 1000; home = codes "/home/ada" }

-- A digest that is the text itself.
abbrev planned : Planned
planned = record {
  from = codes "/var/lib/gnosisvpn/.config/gnosisvpn-hopr.id";
  source = 3;
  place = on_data;
  rel = codes "hopr.id";
  sha256 = codes "key";
}

-- The kernel refuses nothing.
abbrev undisturbed : World
undisturbed = record world { faults = [] }

key_copied :
    (copy_verified (λ bytes. bytes) process planned 5 (codes "/staging") account undisturbed).0
    ≡ done (ok tt)
unfolding copy_verified join parent file_name split duplicate rewind create_file create_exclusive
    change_mode change_owner chown read_file write_file synchronise
key_copied = refl

copy_verified-Ends_example :
    CopyEnds
      (λ bytes. bytes)
      planned
      5
      account
      (copy_verified (λ bytes. bytes) process planned 5 (codes "/staging") account undisturbed)
copy_verified-Ends_example =
    copy_verified-Ends (λ bytes. bytes) process planned 5 (codes "/staging") account undisturbed
