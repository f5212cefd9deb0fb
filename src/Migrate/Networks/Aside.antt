-- ===== src/Migrate/Networks/Aside.antt =====
-- The ends of `move_aside_in`.
use gnosis_vpn_toolkit.Prelude.{
  Option, none, some, ◌≡◌, ◌≢◌, refl, inl, inr, arith, Result, ok, err, Result-cases, Option-cases,
  Bool-cases,
}
use gnosis_vpn_toolkit.Prelude.Text.{Text, join}
use gnosis_vpn_toolkit.Migrate.Outcome.{Failure, destination, Move}
use gnosis_vpn_toolkit.Migrate.Dirs.{Dir, Host, lookup, rename, is_some, exists}
use gnosis_vpn_toolkit.Migrate.Dirs.Unique.{IsFresh, unique_name-IsFresh}
use gnosis_vpn_toolkit.Migrate.Dirs.Renames.{Renamed, rename-Renamed}
use gnosis_vpn_toolkit.Migrate.Networks.{destination_failure, aside_name, move_aside_in}

-- What a call has done: nothing, where the network has no directory; or one rename, to a name that was
-- free and tells the reason; or it has failed.
abbrev pub SetAside : Dir → Text → Text → Text → Text → Result Failure (Option Move × Dir) → Type 0
SetAside d path network reason ts (err f) = f.stage ≡ destination
SetAside d path network reason ts (ok (none, d')) = (lookup network d ≡ none) × (d' ≡ d)
SetAside d path network reason ts (ok (some m, d')) =
    (aside : Text) × (m.from ≡ join path network)
    × (m.to ≡ join path aside)
    × IsFresh d (aside_name network reason ts) aside
    × Renamed network aside d d'

module _ (h : Host) (d : Dir) (path network reason ts : Text) where
  -- A call returns, whatever names are taken. It fails at the destination without a change, or finds
  -- no directory and changes nothing, or the directory stands under a name that was free, which
  -- begins with the network, the reason and the time and is the one reported, and every other entry
  -- is as before.
  pub move_aside_in-SetAside :
      (r : Result Failure (Option Move × Dir)) × (move_aside_in h d path network reason ts ≡ some r)
      × SetAside d path network reason ts r
  unfolding move_aside_in exists
  move_aside_in-SetAside =
      let (u, found, fresh) = unique_name-IsFresh h d (aside_name network reason ts) in
      elim (Option-cases (h.stat_error network)) [
        | inr (e, failing) ↦ (err (destination_failure (join path network) e), ground arith, refl)
        | inl fine ↦ elim (Bool-cases (is_some (lookup network d))) [
          | inr missing ↦ (ok (none, d), ground arith, (ground arith, refl))
          | inl present ↦ elim (Result-cases u) [
            | inr (e, failing) ↦
                (err (destination_failure (join path network) e), ground arith, refl)
            | inl (aside, named) ↦
                let free = fresh aside named in
                let apart : network ≢ aside = λ e. absurd (ground (arith, free.0)) in
                elim (Result-cases (rename h d network aside)) [
                  | inr (e, failing) ↦
                      (err (destination_failure (join path network) e), ground arith, refl)
                  | inl (d', renamed) ↦ (
                    ok (some (record { from = join path network; to = join path aside }), d'),
                    ground arith,
                    (aside, refl, refl, free, rename-Renamed h d network aside apart renamed),
                  )
                ]
          ]
        ]
      ]
