-- ===== src/Migrate/Identity/DryRun.antt =====
-- A dry run of the migration.
use gnosis_vpn_toolkit.Prelude.{
  true, false, Bool, not, some, none, List, [], ◌∷◌, Option, ◌≡◌, sym, subst, if◌then◌else◌,
}
use gnosis_vpn_toolkit.Migrate.Outcome.{Move, Mismatch, nothing_to_migrate}
use gnosis_vpn_toolkit.Migrate.Store.Failing.{succeed}
use gnosis_vpn_toolkit.Migrate.Layout.{user_layout}
use gnosis_vpn_toolkit.Migrate.Store.{Io}
use gnosis_vpn_toolkit.Migrate.Store.Keeping.{Keeps, Keeps-done, if-Keeps, chain-Keeps}
use gnosis_vpn_toolkit.Migrate.Legacy.{Legacy, Planned}
use gnosis_vpn_toolkit.Migrate.Target
use gnosis_vpn_toolkit.Migrate.Identity.Reading.{
  find-Keeps, plan-Keeps, target_exists-Keeps, compare-Keeps,
}
use gnosis_vpn_toolkit.Migrate.Identity.{
  IdentityRequest, Setting, planned_moves, install_or_show, already_there, compared, migrate_found,
  migrate_identity,
}

-- The branch that is taken counts.
taken-Keeps :
    {A : Type 0} (b : Bool) {m : Io A} (m' : Io A)
    → b ≡ true
    → Keeps false m
    → Keeps false (if b then m else m')
taken-Keeps b {m} m' e here = subst (λ c. Keeps false (if c then m else m')) (sym e) here

module _ (set : Setting) (req : IdentityRequest) (dry : req.dry_run ≡ true) where
  install_or_show-Keeps :
      (legacy : Legacy) (planned : List Planned) (files : List Move)
      → Keeps false (install_or_show set req legacy planned files)
  unfolding install_or_show
  install_or_show-Keeps legacy planned files = taken-Keeps req.dry_run _ dry (Keeps-done _)

  compared-Keeps :
      (legacy : Legacy) (planned : List Planned) (files : List Move) (ms : List Mismatch)
      → Keeps false (compared set req legacy planned files ms)
  unfolding compared already_there
  compared-Keeps legacy planned files [] =
      chain-Keeps (taken-Keeps req.dry_run _ dry (Keeps-done _)) (λ moves. Keeps-done _)
  compared-Keeps legacy planned files (m ∷ ms) =
      if-Keeps (not req.replace) (Keeps-done _) (install_or_show-Keeps legacy planned files)

  migrate_found-Keeps : (legacy : Legacy) → Keeps false (migrate_found set req legacy)
  unfolding migrate_found
  migrate_found-Keeps legacy = chain-Keeps (plan-Keeps set.sha256 legacy) (λ planned.
      let target = Target.new req.account.home (user_layout set.os) req.network in
      let files = planned_moves set req target planned in
      chain-Keeps (target_exists-Keeps set.process target) (λ present.
        if-Keeps present
          (chain-Keeps (compare-Keeps set.sha256 target set.process planned)
            (compared-Keeps legacy planned files))
          (install_or_show-Keeps legacy planned files)))

  found_or_not-Keeps :
      (found : Option Legacy)
      → Keeps false (elim found [
        | none ↦ succeed (nothing_to_migrate req.legacy_home)
        | some legacy ↦ migrate_found set req legacy
      ])
  found_or_not-Keeps none = Keeps-done _
  found_or_not-Keeps (some legacy) = migrate_found-Keeps legacy

pub migrate_identity-Keeps :
    (set : Setting) (req : IdentityRequest)
    → req.dry_run ≡ true
    → Keeps false (migrate_identity set req)
unfolding migrate_identity
migrate_identity-Keeps set req dry =
    chain-Keeps (find-Keeps set.process req.legacy_home) (found_or_not-Keeps set req dry)
