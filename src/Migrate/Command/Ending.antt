-- ===== src/Migrate/Command/Ending.antt =====
-- What a dry run of the identity command leaves behind.
use gnosis_vpn_toolkit.Prelude.{true, false, refl, ◌≡◌, sym, ◌∙◌, ap, subst, ◌==◌, Result, ok, err}
use gnosis_vpn_toolkit.Prelude.Text.{Text}
use gnosis_vpn_toolkit.Migrate.Outcome.{Outcome, exit_code_of, Stage}
use gnosis_vpn_toolkit.Migrate.Store.{World, Answer, done, failed, unfinished, Io, and_then, ◌>>=◌}
use gnosis_vpn_toolkit.Migrate.Store.Failing.{◌>>◌}
use gnosis_vpn_toolkit.Migrate.Layout.{migrate_log}
use gnosis_vpn_toolkit.Migrate.Logging.{setup}
use gnosis_vpn_toolkit.Migrate.Logging.Growing.{Grown}
use gnosis_vpn_toolkit.Migrate.Logging.Ending.{setup-Grown}
use gnosis_vpn_toolkit.Migrate.Store.Keeping.{Ended, Keeps, Keeps-done, if-Keeps, chain-Keeps}
use gnosis_vpn_toolkit.Migrate.Network.{from_config_link}
use gnosis_vpn_toolkit.Migrate.User.{resolve}
use gnosis_vpn_toolkit.Migrate.Legacy.{legacy_identity_exists}
use gnosis_vpn_toolkit.Migrate.Identity.Reading.{find-Keeps}
use gnosis_vpn_toolkit.Migrate.Identity.DryRun.{migrate_identity-Keeps}
use gnosis_vpn_toolkit.Migrate.Command.{
  outcome_of, ended_with, run_command, Machine, IdentityArgs, identity, at_stage, request,
  require_root, migrate_for, run_identity, main,
}

at_stage-Keeps : {A : Type 0} (stage : Stage) (r : Result Text A) → Keeps false (at_stage stage r)
at_stage-Keeps stage (ok a) = Keeps-done _
at_stage-Keeps stage (err e) = Keeps-done _

module _ (m : Machine) (args : IdentityArgs) (dry : args.dry_run ≡ true) where
  migrate_for-Keeps : Keeps false (migrate_for m args)
  unfolding migrate_for
  migrate_for-Keeps =
      chain-Keeps (at_stage-Keeps _ (resolve m.accounts args.user args.legacy_home)) (λ account.
        chain-Keeps
          (at_stage-Keeps _ (from_config_link args.config_link (m.read_link args.config_link)))
          (λ network. migrate_identity-Keeps m.setting (request m args account network) dry))

  run_identity-Keeps : Keeps false (run_identity m args)
  unfolding run_identity legacy_identity_exists
  run_identity-Keeps =
      chain-Keeps
        (chain-Keeps (find-Keeps m.setting.process args.legacy_home) (λ legacy. Keeps-done _))
        (λ present. if-Keeps present migrate_for-Keeps (Keeps-done _))

done_with :
    {A : Type 0} (r : Answer A × World)
    → Ended false r.0
    → (a : A) × (w : World) × (r ≡ (done a, w))
done_with (done a, w) h = (a, w, refl)
done_with (failed e, w) h = absurd h
done_with (unfinished, w) h = absurd h

bound :
    {A B : Type 0} (m : Io A) (k : A → Io B) (w : World) {a : A} {w' : World}
    → m w ≡ (done a, w')
    → (m >>= k) w ≡ k a w'
bound m k w e = ap (λ r. and_then r k) e

-- A dry run of the identity command always returns an outcome, with the exit code of that outcome:
-- whoever runs it, for whatever account and network, whatever calls the kernel refuses, and whether
-- the destination is free, holds the same identity or another one. What it changes is what the set-up
-- of the log changes, apart from the lines that go to the log, and of what was there that is nothing
-- but new names in directories: no name that stood for something stands for anything else.
pub main-dry :
    (m : Machine) (args : IdentityArgs)
    → args.dry_run ≡ true
    → (w : World)
    → (o : Outcome) × (w' : World) × (main m (identity args) w ≡ (done (o, exit_code_of o), w'))
      × (w'.store ≡ (setup m.setting.process (migrate_log m.setting.os) w).1.store)
      × Grown w.store w'.store
unfolding main require_root
main-dry m args dry w =
    let log = setup m.setting.process (migrate_log m.setting.os) in
    let (file, w1, opened, grown) = setup-Grown m.setting.process (migrate_log m.setting.os) w in
    let command = require_root m >> run_command m (identity args) in
    let quiet : Keeps false command =
      chain-Keeps (if-Keeps (m.setting.process.euid == 0) (Keeps-done _) (Keeps-done _))
        (λ _. run_identity-Keeps m args dry) in
    let (r, w2, ended) = done_with (command w1) (quiet.ends w1) in
    let same : w2.store ≡ w1.store = ap (λ x. x.1.store) (sym ended) ∙ quiet.at w1 in
    (
      outcome_of m r,
      w2,
      bound log (λ _. command >>= ended_with m) w opened ∙ bound command (ended_with m) w1 ended,
      same ∙ ap (λ x. x.1.store) (sym opened),
      subst (Grown w.store) (sym same) grown,
    )
