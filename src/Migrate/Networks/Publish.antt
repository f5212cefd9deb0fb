-- ===== src/Migrate/Networks/Publish.antt =====
-- The ends of `publish`.
use gnosis_vpn_toolkit.Prelude.{
  none, ◌≡◌, ◌≢◌, refl, sym, ◌∙◌, ap, subst, ◌⊎◌, inl, inr, arith, Result, err, Result-cases,
}
use gnosis_vpn_toolkit.Prelude.Text.{Text}
use gnosis_vpn_toolkit.Migrate.Outcome.{Failure, destination}
use gnosis_vpn_toolkit.Migrate.Dirs.{lookup, rename, is_some}
use gnosis_vpn_toolkit.Migrate.Dirs.Renames.{
  Renamed, rename-Renamed, rename-succeeds, Renamed-back, Same,
}
use gnosis_vpn_toolkit.Migrate.Networks.{
  Networks, Hosts, take_back, sync_both, rename_failed, publish,
}

-- The staged directories stand at the network's name on both sides.
abbrev pub Published : Text → Text → Networks → Networks → Type 0
Published staging network ns ns' =
    Renamed staging network ns.data_dir ns'.data_dir
    × Renamed staging network ns.cache_dir ns'.cache_dir

-- Neither side has changed.
abbrev pub Untouched : Networks → Networks → Type 0
Untouched ns ns' = Same ns.data_dir ns'.data_dir × Same ns.cache_dir ns'.cache_dir

module _ (hosts : Hosts) (ns : Networks) (staging network : Text) where
  -- The two ends of a call, as a predicate of its result.
  abbrev pub Settled : Result Failure (Unit {0}) × Networks → Type 0
  Settled (r, ns') =
      (Published staging network ns ns' × (r ≡ sync_both hosts ns))
      ⊎ (Untouched ns ns' × ((f : Failure) × (r ≡ err f) × (f.stage ≡ destination)))

  -- Publishing ends with both staged directories in place, and then fails only if a directory cannot
  -- be synced, or with both directories as they were and an error; where the staging name is another
  -- than the network's, the network's was free in the data directory, and the data directory can be
  -- renamed back.
  pub publish-Settled :
      staging ≢ network
      → lookup network ns.data_dir ≡ none
      → hosts.data_host.rename_error network staging ≡ none
      → Settled (publish hosts ns staging network)
  unfolding publish rename_failed take_back
  publish-Settled apart free may_undo =
      elim (Result-cases (rename hosts.data_host ns.data_dir staging network)) [
        | inr (e, refused) ↦
            let failure = rename_failed ns.data_path staging network e in
            let ends : publish hosts ns staging network ≡ (err failure, ns) = ground arith in
            subst Settled (sym ends) (inr ((λ x. refl, λ x. refl), (failure, refl, refl)))
        | inl (data', renamed) ↦
            let there = rename-Renamed hosts.data_host ns.data_dir staging network apart renamed in
            elim (Result-cases (rename hosts.cache_host ns.cache_dir staging network)) [
              | inl (cache', both) ↦
                  let ends : publish hosts ns staging network
                      ≡ (sync_both hosts ns, record ns { data_dir = data'; cache_dir = cache' }) =
                    ground arith in
                  subst Settled (sym ends) (
                    inl (
                      (
                        there,
                        rename-Renamed hosts.cache_host ns.cache_dir staging network apart both,
                      ),
                      refl,
                    ))
              | inr (e, refused) ↦
                  let (data'', back) =
                    rename-succeeds hosts.data_host data' network staging may_undo
                      (ap is_some there.there ∙ there.here) in
                  let undone =
                    rename-Renamed hosts.data_host data' network staging (λ e. apart (sym e))
                      back in
                  let failure = rename_failed ns.cache_path staging network e in
                  let ends : publish hosts ns staging network
                      ≡ (err failure, record ns { data_dir = data'' }) =
                    ground arith in
                  subst Settled (sym ends)
                    (inr ((Renamed-back apart free there undone, λ x. refl), (failure, refl, refl)))
            ]
      ]
