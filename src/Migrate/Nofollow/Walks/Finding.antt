-- ===== src/Migrate/Nofollow/Walks/Finding.antt =====
-- What `find_dir` finds.
use gnosis_vpn_toolkit.Prelude.{
  ℕ, true, Option, none, some, List, [], ◌∷◌, ◌≡◌, refl, sym, ◌∙◌, subst, arith, Result, ok, err,
}
use gnosis_vpn_toolkit.Prelude.Text.{Text}
use gnosis_vpn_toolkit.FilePath.{Component}
use gnosis_vpn_toolkit.Migrate.Store.{
  IoError, no_entry, already_exists, not_empty, not_a_directory, is_a_directory, symlink_loop,
  other, Store, World, Answer, done, failed, unfinished, attempt, lookup_in, is_directory,
}
use gnosis_vpn_toolkit.Migrate.Store.Calls.{entry, open_directory, directory_handle, duplicate}
use gnosis_vpn_toolkit.Migrate.Store.Endings.{
  entry-ok, open_as_directory-ok, directory_handle-succeeds,
}
use gnosis_vpn_toolkit.Migrate.Store.Triples.{
  Meets, Triple, Triple-pure, Triple-fail, Triple-bind, Triple-syscall, Triple-weaken, Triple-fact,
  Triple-attempt, Either,
}
use gnosis_vpn_toolkit.Migrate.Nofollow.{names, find_from, find_dir, absent}
use gnosis_vpn_toolkit.Migrate.Nofollow.Walks.{Walk}

module _ (start : Store) where
  abbrev pub Still : Store → Type 0
  Still s = s ≡ start

  abbrev pub Never : Store → Type 0
  Never s = ⊥

  -- Whatever is found was walked to; nothing changes.
  abbrev pub Found : ℕ → List Text → Option ℕ → Store → Type 0
  Found d path none s = Still s
  Found d path (some e) s = Walk start d path e × Still s

  abbrev pub Leads : ℕ → Text → ℕ → Type 0
  Leads d name c = (lookup_in start d name ≡ some c) × (is_directory (start.node_at c).kind ≡ true)

  abbrev pub Opened : ℕ → Text → ℕ → Store → Type 0
  Opened d name c s = Leads d name c × Still s

  pub open_directory-Still :
      (d : ℕ) (name : Text) → Triple Still Never Still (open_directory d name) (Opened d name)
  unfolding open_directory
  open_directory-Still d name =
      Triple-syscall Still Never Still (Opened d name) (entry d name directory_handle) (λ s h. h)
        (λ s c s' h ends.
          let (i, found, same) = entry-ok d name directory_handle s ends in
          let (e, e', dir) = open_as_directory-ok (s.node_at i).kind i s same in
          let at = subst (λ k. lookup_in s d name ≡ some k) e found in
          let dir' = subst (λ k. is_directory (s.node_at k).kind ≡ true) e dir in
          (
            (
              subst (λ t. lookup_in t d name ≡ some c) h at,
              subst (λ t. is_directory (t.node_at c).kind ≡ true) h dir',
            ),
            sym e' ∙ h,
          ))

  absent-Found :
      (d : ℕ) (path : List Text) (e : IoError) → Triple Still Never Still (absent e) (Found d path)
  absent-Found d path no_entry = Triple-pure Still Never Still (Found d path) none (λ s h. h)
  absent-Found d path already_exists =
      Triple-fail Still Never Still (Found d path) already_exists (λ s h. h)
  absent-Found d path not_empty = Triple-fail Still Never Still (Found d path) not_empty (λ s h. h)
  absent-Found d path not_a_directory =
      Triple-fail Still Never Still (Found d path) not_a_directory (λ s h. h)
  absent-Found d path is_a_directory =
      Triple-fail Still Never Still (Found d path) is_a_directory (λ s h. h)
  absent-Found d path symlink_loop =
      Triple-fail Still Never Still (Found d path) symlink_loop (λ s h. h)
  absent-Found d path (other message) =
      Triple-fail Still Never Still (Found d path) (other message) (λ s h. h)

  further :
      (d : ℕ) (name : Text) (rest : List Text) (c : ℕ)
      → lookup_in start d name ≡ some c
      → is_directory (start.node_at c).kind ≡ true
      → (found : Option ℕ) (s : Store) → Found c rest found s
      → Found d (name ∷ rest) found s
  further d name rest c at dir none s h = h
  further d name rest c at dir (some e) s (walk, still) = ((c, at, dir, walk), still)

  next_step :
      (d : ℕ) (name : Text) (rest : List Text)
      → ((c : ℕ) → Triple Still Never Still (find_from c rest) (Found c rest))
      → (opened : Result IoError ℕ)
      → Triple Still Never
          (Either Still Never (Opened d name) Still opened)
          (elim opened [ ok child ↦ find_from child rest | err e ↦ absent e ])
          (Found d (name ∷ rest))
  next_step d name rest ih (err e) = absent-Found d (name ∷ rest) e
  next_step d name rest ih (ok c) =
      Triple-fact Still Never (Leads d name c) Still (Found d (name ∷ rest)) (find_from c rest)
        (λ leads.
          Triple-weaken Still Never Still Still (Found c rest) (Found d (name ∷ rest))
            (find_from c rest) (λ s h. h)
            (λ found s h. further d name rest c leads.0 leads.1 found s h) (ih c))

  find_from-Found :
      (d : ℕ) (path : List Text) → Triple Still Never Still (find_from d path) (Found d path)
  unfolding find_from
  find_from-Found d [] = Triple-pure Still Never Still (Found d []) (some d) (λ s h. (refl, h))
  find_from-Found d (name ∷ rest) =
      Triple-bind Still Never Still (Either Still Never (Opened d name) Still)
        (Found d (name ∷ rest)) (attempt (open_directory d name)) _
        (Triple-attempt Still Still Never Still _ (open_directory d name)
          (open_directory-Still d name))
        (λ opened. next_step d name rest (λ c. find_from-Found c rest) opened)

  pub find_dir-Found :
      (root : ℕ) (rel : List Component)
      → Triple Still Never Still (find_dir root rel) (Found root (names rel))
  unfolding find_dir duplicate
  find_dir-Found root rel =
      Triple-bind Still Never Still (λ d s. (root ≡ d) × Still s) (Found root (names rel))
        (duplicate root) (λ d. find_from d (names rel))
        (Triple-syscall Still Never Still (λ d s. (root ≡ d) × Still s) (λ s. ok (root, s))
          (λ s h. h) (λ s d s' h ends. let e : s ≡ s' = ground arith in (ground arith, sym e ∙ h)))
        (λ d.
          Triple-fact Still Never (root ≡ d) Still (Found root (names rel))
            (find_from d (names rel))
            (λ e.
              subst
                (λ k. Triple Still Never Still (find_from k (names rel)) (Found root (names rel))) e
                (find_from-Found root (names rel))))

  -- Nothing is refused, and the walk is there.
  abbrev Calm : World
  Calm = record { store = start; faults = [] }

  open_directory-succeeds :
      (d : ℕ) (name : Text) (c : ℕ)
      → lookup_in start d name ≡ some c
      → is_directory (start.node_at c).kind ≡ true
      → open_directory d name Calm ≡ (done c, Calm)
  unfolding open_directory
  open_directory-succeeds d name c at dir = rw (directory_handle-succeeds start d name at dir) refl

  find_from-succeeds :
      (path : List Text) (d e : ℕ)
      → Walk start d path e
      → find_from d path Calm ≡ (done (some e), Calm)
  unfolding find_from
  find_from-succeeds [] d e walk = rw walk refl
  find_from-succeeds (name ∷ rest) d e (c, at, dir, walk) =
      rw (open_directory-succeeds d name c at dir) (find_from-succeeds rest c e walk)

-- The ends of a call.
abbrev pub FindEnds : Store → ℕ → List Text → Answer (Option ℕ) × World → Type 0
FindEnds s root path (done none, w) = w.store ≡ s
FindEnds s root path (done (some e), w) = Walk s root path e × (w.store ≡ s)
FindEnds s root path (failed e, w) = w.store ≡ s
FindEnds s root path (unfinished, w) = ⊥

Meets-FindEnds :
    (s : Store) (root : ℕ) (path : List Text) (r : Answer (Option ℕ) × World)
    → Meets (Found s root path) (Still s) (Never s) r
    → FindEnds s root path r
Meets-FindEnds s root path (done none, w) h = h
Meets-FindEnds s root path (done (some e), w) h = h
Meets-FindEnds s root path (failed e, w) h = h
Meets-FindEnds s root path (unfinished, w) h = h

-- Looking for a directory changes nothing, whatever calls are refused, and what is found was walked
-- to from the root by names that stand for directories, so by no symlink. With nothing refused, each
-- directory that can be walked to is found.
pub find_dir-FindEnds :
    (root : ℕ) (rel : List Component) (w : World)
    → FindEnds w.store root (names rel) (find_dir root rel w)
      × ((e : ℕ)
          → Walk w.store root (names rel) e
          → find_dir root rel (record { store = w.store; faults = [] })
            ≡ (done (some e), record { store = w.store; faults = [] }))
unfolding find_dir duplicate
find_dir-FindEnds root rel w = (
  Meets-FindEnds w.store root (names rel) (find_dir root rel w)
      ((find_dir-Found w.store root rel).at w refl),
  λ e walk. find_from-succeeds w.store (names rel) root e walk,
)
