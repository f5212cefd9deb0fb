-- ===== src/Migrate/Networks/Restore.antt =====
-- The ends of `Networks::move_aside`, with the restoring after a failure.
use gnosis_vpn_toolkit.Prelude.{
  true, Option, none, some, List, [], ◌∷◌, ◌++◌, append_assoc, ◌≡◌, ◌≢◌, refl, sym, ◌∙◌, ap, subst,
  ◌⊎◌, inl, inr, arith, Result, ok, err,
}
use gnosis_vpn_toolkit.Prelude.Text.{Text, codes, join}
use gnosis_vpn_toolkit.FilePath.{file_name}
use gnosis_vpn_toolkit.FilePath.Plain.{IsSlashFree, IsPlainName}
use gnosis_vpn_toolkit.FilePath.Joined.{file_name-join}
use gnosis_vpn_toolkit.Migrate.Outcome.{Failure, Move}
use gnosis_vpn_toolkit.Migrate.Network.{valid_name, valid_name-IsPlainName}
use gnosis_vpn_toolkit.Migrate.Dirs.{Dir, lookup, is_some}
use gnosis_vpn_toolkit.Migrate.Dirs.Unique.{IsFresh}
use gnosis_vpn_toolkit.Migrate.Dirs.Renames.{Renamed, rename-Renamed, rename-succeeds, Renamed-back}
use gnosis_vpn_toolkit.Migrate.Networks.{
  Networks, Hosts, Place, on_data, on_cache, aside_name, move_aside_in, MovedAside, restore_one,
  restore, cache_aside, move_aside,
}
use gnosis_vpn_toolkit.Migrate.Networks.Aside.{SetAside, move_aside_in-SetAside}
use gnosis_vpn_toolkit.Migrate.Networks.Publish.{Untouched}

append-IsSlashFree : (s t : Text) → IsSlashFree s → IsSlashFree t → IsSlashFree (s ++ t)
append-IsSlashFree [] t hs ht = ht
append-IsSlashFree (c ∷ s) t (h, hs) ht = (h, append-IsSlashFree s t hs ht)

no_dots :
    (name rest : Text)
    → valid_name name ≡ true
    → (name ++ rest ≢ []) × (name ++ rest ≢ codes ".") × (name ++ rest ≢ codes "..")
unfolding valid_name
no_dots [] rest h = absurd (ground arith)
no_dots (c ∷ s) rest h =
    (λ e. absurd (ground arith), λ e. absurd (ground arith), λ e. absurd (ground arith))

-- What a side looks like when it has been moved aside: it had no directory of the network, or that
-- stands under a fresh name.
abbrev pub SideAside : Text → Text → Text → Dir → Dir → Type 0
SideAside network reason ts d d' =
    ((lookup network d ≡ none) × (d' ≡ d))
    ⊎ ((aside : Text) × IsFresh d (aside_name network reason ts) aside × Renamed network aside d d')

abbrev pub AllOrNothing : Text → Text → Text → Networks → MovedAside → Type 0
AllOrNothing network reason ts ns (ok moved, ns') =
    SideAside network reason ts ns.data_dir ns'.data_dir
    × SideAside network reason ts ns.cache_dir ns'.cache_dir
AllOrNothing network reason ts ns (err f, ns') = Untouched ns ns'

module _ (network reason ts : Text) (valid : valid_name network ≡ true)
    (reason_free : IsSlashFree reason) (ts_free : IsSlashFree ts) where
  network-IsPlainName : IsPlainName network
  network-IsPlainName = valid_name-IsPlainName network valid

  -- A network's name followed by anything without a slash is a plain name.
  longer-IsPlainName : (rest : Text) → IsSlashFree rest → IsPlainName (network ++ rest)
  longer-IsPlainName rest free = record {
    slash_free = append-IsSlashFree network rest network-IsPlainName.slash_free free;
    not_empty = (no_dots network rest valid).0;
    not_here = (no_dots network rest valid).1;
    not_up = (no_dots network rest valid).2;
  }

  aside-IsPlainName :
      (d : Dir) (aside : Text) → IsFresh d (aside_name network reason ts) aside → IsPlainName aside
  aside-IsPlainName d aside (free, (suffix, suffix_free, e)) = subst IsPlainName (sym e) (
      rw (append_assoc network (codes "." ++ (reason ++ (codes "-" ++ ts))) suffix) (
        longer-IsPlainName ((codes "." ++ (reason ++ (codes "-" ++ ts))) ++ suffix) (
          append-IsSlashFree (codes "." ++ (reason ++ (codes "-" ++ ts))) suffix
            (refl, append-IsSlashFree reason (codes "-" ++ ts) reason_free (refl, ts_free))
            suffix_free)))

  module _ (hosts : Hosts)
      (may_undo : (aside : Text) → hosts.data_host.rename_error aside network ≡ none) where
    -- Restoring the data directory that was just moved aside.
    restore-undoes :
        (ns : Networks) (d' : Dir) (m : Move) (aside : Text)
        → m.from ≡ join ns.data_path network
        → m.to ≡ join ns.data_path aside
        → IsFresh ns.data_dir (aside_name network reason ts) aside
        → Renamed network aside ns.data_dir d'
        → Untouched ns (restore hosts (record ns { data_dir = d' }) ((on_data, m) ∷ []))
    unfolding restore restore_one
    restore-undoes ns d' m aside from to fresh moved =
        let plain = aside-IsPlainName ns.data_dir aside fresh in
        let from_name : file_name m.from ≡ some network =
          ap file_name from ∙ file_name-join ns.data_path network network-IsPlainName in
        let to_name : file_name m.to ≡ some aside =
          ap file_name to ∙ file_name-join ns.data_path aside plain in
        let apart : network ≢ aside = λ e. absurd (ground (arith, fresh.0, moved.here)) in
        let (d'', back) =
          rename-succeeds hosts.data_host d' aside network (may_undo aside)
            (ap is_some moved.there ∙ moved.here) in
        let undone = rename-Renamed hosts.data_host d' aside network (λ e. apart (sym e)) back in
        rw (from_name, to_name, restore_one, back)
          (Renamed-back apart fresh.0 moved undone, λ x. refl)

    -- The cache side, after the data side has been moved or had nothing to move.
    cache_aside-AllOrNothing :
        (ns : Networks) (d' : Dir) (moved : List (Place × Move))
        → SideAside network reason ts ns.data_dir d'
        → Untouched ns (restore hosts (record ns { data_dir = d' }) moved)
        → (side : Result Failure (Option Move × Dir))
        → move_aside_in hosts.cache_host ns.cache_dir ns.cache_path network reason ts ≡ some side
        → SetAside ns.cache_dir ns.cache_path network reason ts side
        → (r : MovedAside) × (cache_aside hosts
              (record ns { data_dir = d' })
              moved
              network
              reason
              ts
            ≡ some r)
          × AllOrNothing network reason ts ns r
    unfolding cache_aside
    cache_aside-AllOrNothing ns d' moved data_side undoes (err e) found _ = (
      (err e, restore hosts (record ns { data_dir = d' }) moved),
      rw (cache_aside, found) refl,
      undoes,
    )
    cache_aside-AllOrNothing ns d' moved data_side undoes (ok (none, d)) found missing = (
      (ok moved, record ns { data_dir = d'; cache_dir = d }),
      rw (cache_aside, found) refl,
      (data_side, inl missing),
    )
    cache_aside-AllOrNothing ns d' moved data_side undoes (ok (some m, d)) found
          (aside, _, _, fresh, renamed) =
        (
          (ok (moved ++ ((on_cache, m) ∷ [])), record ns { data_dir = d'; cache_dir = d }),
          rw (cache_aside, found) refl,
          (data_side, inr (aside, fresh, renamed)),
        )

    both_sides :
        (ns : Networks) (d' : Dir) (moved : List (Place × Move))
        → SideAside network reason ts ns.data_dir d'
        → Untouched ns (restore hosts (record ns { data_dir = d' }) moved)
        → (r : MovedAside) × (cache_aside hosts
              (record ns { data_dir = d' })
              moved
              network
              reason
              ts
            ≡ some r)
          × AllOrNothing network reason ts ns r
    both_sides ns d' moved data_side undoes =
        let (side, found, set) =
          move_aside_in-SetAside hosts.cache_host ns.cache_dir ns.cache_path network reason ts in
        cache_aside-AllOrNothing ns d' moved data_side undoes side found set

    data_aside-AllOrNothing :
        (ns : Networks) (side : Result Failure (Option Move × Dir))
        → move_aside_in hosts.data_host ns.data_dir ns.data_path network reason ts ≡ some side
        → SetAside ns.data_dir ns.data_path network reason ts side
        → (r : MovedAside) × (move_aside hosts ns network reason ts ≡ some r)
          × AllOrNothing network reason ts ns r
    unfolding move_aside restore
    data_aside-AllOrNothing ns (err e) found _ =
        ((err e, ns), rw (move_aside, found) refl, (λ x. refl, λ x. refl))
    data_aside-AllOrNothing ns (ok (none, d)) found (missing, same) =
        let (r, ends, both) =
          both_sides ns d [] (inl (missing, same)) (λ x. ap (lookup x) same, λ x. refl) in
        (r, rw (move_aside, found) ends, both)
    data_aside-AllOrNothing ns (ok (some m, d)) found (aside, from, to, fresh, renamed) =
        let (r, ends, both) =
          both_sides ns d ((on_data, m) ∷ []) (inr (aside, fresh, renamed))
            (restore-undoes ns d m aside from to fresh renamed) in
        (r, rw (move_aside, found) ends, both)

    -- Moving both directories aside returns. Either both sides are aside, each under a name that was
    -- free or having had nothing there; or an error is returned and both sides have the entries that
    -- they had. The network's name is valid, the reason and the time hold no slash, and the data
    -- directory can be renamed back.
    pub move_aside-AllOrNothing :
        (ns : Networks)
        → (r : MovedAside) × (move_aside hosts ns network reason ts ≡ some r)
          × AllOrNothing network reason ts ns r
    move_aside-AllOrNothing ns =
        let (side, found, set) =
          move_aside_in-SetAside hosts.data_host ns.data_dir ns.data_path network reason ts in
        data_aside-AllOrNothing ns side found set
