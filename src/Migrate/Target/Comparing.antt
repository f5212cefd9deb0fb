-- ===== src/Migrate/Target/Comparing.antt =====
-- What it means that the destination already holds the legacy identity.
use gnosis_vpn_toolkit.Prelude.{
  ℕ, true, not, Option, none, some, List, ◌≡◌, sym, ◌∙◌, ap, subst, arith, Result, ok, err, ◌==◌,
}
use gnosis_vpn_toolkit.Prelude.Text.{Text, join}
use gnosis_vpn_toolkit.FilePath.{Component, parent, file_name}
use gnosis_vpn_toolkit.Migrate.Store.{
  IoError, Kind, regular, directory, symlink, special, Store, attempt, lookup_in,
}
use gnosis_vpn_toolkit.Migrate.Store.Calls.{
  entry, open_reading, read_handle, open_unless_symlink, status,
}
use gnosis_vpn_toolkit.Migrate.Store.Endings.{entry-ok}
use gnosis_vpn_toolkit.Migrate.Store.Triples.{
  Triple, Triple-pure, Triple-fail, Triple-bind, Triple-syscall, Triple-weaken, Triple-if,
  Triple-fact, Triple-attempt, Either,
}
use gnosis_vpn_toolkit.Migrate.Store.Verdicts.{Never}
use gnosis_vpn_toolkit.Migrate.Nofollow.{names, find_dir, open_regular_file, is_regular}
use gnosis_vpn_toolkit.Migrate.Nofollow.Walks.{Walk}
use gnosis_vpn_toolkit.Migrate.Nofollow.Walks.Finding.{Found, find_dir-Found}
use gnosis_vpn_toolkit.Migrate.Legacy.{Planned}
use gnosis_vpn_toolkit.Migrate.Target.{
  Target, base_rel, opened_or_none, file_in, open_at, open_target,
}

module _ (start : Store) where
  abbrev pub Still : Store → Type 0
  Still s = s ≡ start

  -- A plain file with one name stands at the name.
  abbrev pub Plain : ℕ → Text → ℕ → Type 0
  Plain d name file =
      (lookup_in start d name ≡ some file)
      × (is_regular (start.node_at file).kind ≡ true)
      × ((start.node_at file).nlink ≡ 1)

  open_unless_symlink-ok :
      (k : Kind) (i : ℕ) (s : Store) {c : ℕ} {s' : Store}
      → open_unless_symlink k i s ≡ ok (c, s')
      → (i ≡ c) × (s ≡ s')
  open_unless_symlink-ok (regular b) i s e = ground arith
  open_unless_symlink-ok (directory d) i s e = ground arith
  open_unless_symlink-ok (symlink t) i s e = cc
  open_unless_symlink-ok special i s e = ground arith

  open_reading-Still :
      (d : ℕ) (name : Text)
      → Triple Still Never Still
          (open_reading d name)
          (λ c s. (lookup_in start d name ≡ some c) × Still s)
  unfolding open_reading
  open_reading-Still d name =
      Triple-syscall Still Never Still (λ c s. (lookup_in start d name ≡ some c) × Still s)
        (entry d name read_handle) (λ s h. h)
        (λ s c s' h ends.
          let (i, found, same) = entry-ok d name read_handle s ends in
          let (e, e') = open_unless_symlink-ok (s.node_at i).kind i s same in
          (
            subst (λ t. lookup_in t d name ≡ some c) h
                (subst (λ k. lookup_in s d name ≡ some k) e found),
            sym e' ∙ h,
          ))

  status-Still :
      (i : ℕ) → Triple Still Never Still (status i) (λ n s. (n ≡ start.node_at i) × Still s)
  unfolding status
  status-Still i =
      Triple-syscall Still Never Still (λ n s. (n ≡ start.node_at i) × Still s)
        (λ s. ok (s.node_at i, s)) (λ s h. h)
        (λ s n s' h ends.
          let e : s.node_at i ≡ n = ground arith in
          let e' : s ≡ s' = ground arith in (sym e ∙ ap (λ t. t.node_at i) h, sym e' ∙ h))

  open_regular_file-Plain :
      (d : ℕ) (name : Text)
      → Triple Still Never Still (open_regular_file d name) (λ file s. Plain d name file × Still s)
  unfolding open_regular_file
  open_regular_file-Plain d name =
      Triple-bind Still Never Still (λ c s. (lookup_in start d name ≡ some c) × Still s)
        (λ file s. Plain d name file × Still s) (open_reading d name) _ (open_reading-Still d name)
        (λ file.
          Triple-fact Still Never (lookup_in start d name ≡ some file) Still
            (λ file s. Plain d name file × Still s) _
            (λ at.
              Triple-bind Still Never Still (λ n s. (n ≡ start.node_at file) × Still s)
                (λ file s. Plain d name file × Still s) (status file) _ (status-Still file)
                (λ stat.
                  Triple-fact Still Never (stat ≡ start.node_at file) Still
                    (λ file s. Plain d name file × Still s) _
                    (λ same.
                      Triple-if Still Never Still (λ file s. Plain d name file × Still s)
                        (not (is_regular stat.kind)) _ _
                        (λ e.
                          Triple-fail Still Never Still (λ file s. Plain d name file × Still s) _
                            (λ s h. h))
                        (λ reg.
                          Triple-if Still Never Still (λ file s. Plain d name file × Still s)
                            (not (stat.nlink == 1)) _ _
                            (λ e.
                              Triple-fail Still Never Still (λ file s. Plain d name file × Still s)
                                _ (λ s h. h))
                            (λ one.
                              Triple-pure Still Never Still (λ file s. Plain d name file × Still s)
                                file
                                (λ s h. (
                                  (
                                    at,
                                    subst (λ n. is_regular n.kind ≡ true) same (ground arith),
                                    subst (λ n. n.nlink ≡ 1) same (ground arith),
                                  ),
                                  h,
                                ))))))))

  -- A plain file that is reached from the home by directories, and by no symlink.
  abbrev pub Located : ℕ → Option (List Component) → Option Text → ℕ → Type 0
  Located home (some rel) (some name) file =
      (d : ℕ) × Walk start home (names rel) d × Plain d name file
  Located home (some rel) none file = ⊥
  Located home none name file = ⊥

  abbrev pub MaybeAt : ℕ → Option (List Component) → Option Text → Option ℕ → Store → Type 0
  MaybeAt home rel name none s = Still s
  MaybeAt home rel name (some file) s = Located home rel name file × Still s

  opened_or_none-At :
      (home : ℕ) (rel : List Component) (name : Text) (d : ℕ) (walk : Walk start home (names rel) d)
      (r : Result IoError ℕ)
      → Triple Never Never
          (Either Never Never (λ file s. Plain d name file × Still s) Still r)
          (opened_or_none r)
          (MaybeAt home (some rel) (some name))
  opened_or_none-At home rel name d walk (ok file) =
      Triple-pure Never Never (λ s. Plain d name file × Still s)
        (MaybeAt home (some rel) (some name)) (some file) (λ s (plain, h). ((d, walk, plain), h))
  opened_or_none-At home rel name d walk (err e) =
      Triple-pure Never Never Still (MaybeAt home (some rel) (some name)) none (λ s h. h)

  file_in-At :
      (home : ℕ) (rel : List Component) (name : Text) (r : Result IoError (Option ℕ))
      → Triple Never Never
          (Either Never Never (Found start home (names rel)) Still r)
          (file_in name r)
          (MaybeAt home (some rel) (some name))
  file_in-At home rel name (err e) =
      Triple-pure Never Never Still (MaybeAt home (some rel) (some name)) none (λ s h. h)
  file_in-At home rel name (ok none) =
      Triple-pure Never Never Still (MaybeAt home (some rel) (some name)) none (λ s h. h)
  file_in-At home rel name (ok (some d)) =
      Triple-fact Never Never (Walk start home (names rel) d) Still
        (MaybeAt home (some rel) (some name)) _
        (λ walk.
          Triple-bind Never Never Still
            (Either Never Never (λ file s. Plain d name file × Still s) Still)
            (MaybeAt home (some rel) (some name)) (attempt (open_regular_file d name))
            opened_or_none
            (Triple-attempt Never Still Never Still (λ file s. Plain d name file × Still s)
              (open_regular_file d name) (open_regular_file-Plain d name))
            (opened_or_none-At home rel name d walk))

  open_at-At :
      (home : ℕ) (rel : Option (List Component)) (name : Option Text)
      → Triple Never Never Still (open_at home rel name) (MaybeAt home rel name)
  open_at-At home none name = Triple-pure Never Never Still (MaybeAt home none name) none (λ s h. h)
  open_at-At home (some rel) none =
      Triple-pure Never Never Still (MaybeAt home (some rel) none) none (λ s h. h)
  open_at-At home (some rel) (some name) =
      Triple-bind Never Never Still (Either Never Never (Found start home (names rel)) Still)
        (MaybeAt home (some rel) (some name)) (attempt (find_dir home rel)) (file_in name)
        (Triple-attempt Never Still Never Still (Found start home (names rel)) (find_dir home rel)
          (find_dir-Found start home rel))
        (file_in-At home rel name)

  -- Where a planned file would stand.
  abbrev pub AtTarget : Target → ℕ → Planned → ℕ → Type 0
  unfolding parent file_name join
  AtTarget t home planned file =
      Located home (parent (join (base_rel t planned.place) planned.rel))
        (file_name (join (base_rel t planned.place) planned.rel)) file

  abbrev pub Maybe : Target → ℕ → Planned → Option ℕ → Store → Type 0
  Maybe t home planned none s = Still s
  Maybe t home planned (some file) s = AtTarget t home planned file × Still s

  maybe :
      (t : Target) (home : ℕ) (planned : Planned) (file : Option ℕ) (s : Store)
      → MaybeAt home
          (parent (join (base_rel t planned.place) planned.rel))
          (file_name (join (base_rel t planned.place) planned.rel))
          file
          s
      → Maybe t home planned file s
  unfolding AtTarget
  maybe t home planned none s h = h
  maybe t home planned (some file) s h = h

  pub open_target-At :
      (t : Target) (home : ℕ) (planned : Planned)
      → Triple Never Never Still (open_target t home planned) (Maybe t home planned)
  unfolding open_target
  open_target-At t home planned =
      let rel = join (base_rel t planned.place) planned.rel in
      Triple-weaken Never Never Still Still (MaybeAt home (parent rel) (file_name rel))
        (Maybe t home planned) _ (λ s h. h) (maybe t home planned)
        (open_at-At home (parent rel) (file_name rel))
