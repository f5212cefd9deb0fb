-- ===== src/Migrate/Nofollow/Owners/Listing.antt =====
-- Opening and listing a directory while owners change.
use gnosis_vpn_toolkit.Prelude.{ℕ, false, some, List, ◌≡◌, ◌≢◌, sym, ◌∙◌, subst, arith, ok}
use gnosis_vpn_toolkit.Prelude.Text.{Text}
use gnosis_vpn_toolkit.Migrate.Store.{Store, Process, pure, lookup_in}
use gnosis_vpn_toolkit.Migrate.Store.Calls.{
  entry, status, open_directory, directory_handle, listing, read_directory,
}
use gnosis_vpn_toolkit.Migrate.Store.Endings.{entry-ok, open_as_directory-ok}
use gnosis_vpn_toolkit.Migrate.Store.Triples.{Triple-pure, Triple-bind, Triple-syscall}
use gnosis_vpn_toolkit.Migrate.Nofollow.{is_dots, without_dots, entries}
use gnosis_vpn_toolkit.Migrate.Nofollow.Reach.{Among, Among-listing, listing-Among}
use gnosis_vpn_toolkit.Migrate.Nofollow.Owners.{Progress, Progress-lookup}
use gnosis_vpn_toolkit.Migrate.Nofollow.Owners.Entry.{Stopped, Never, Step}

module _ (p : Process) (from : ℕ) (apart : from ≢ p.euid) (start : Store) where
  abbrev pub At : (ℕ → Type 0) → Store → Type 0
  At C s = Progress p from start C s

  -- What a listing of a node's names tells.
  abbrev pub Lists : ℕ → List Text → Type 0
  Lists c names =
      ((name : Text) → Among name names → (i : ℕ) × (lookup_in start c name ≡ some i))
      × ((name : Text) (i : ℕ)
          → is_dots name ≡ false
          → lookup_in start c name ≡ some i
          → Among name names)

  pub open_directory-Step :
      (C : ℕ → Type 0) (d : ℕ) (name : Text)
      → Step p from apart start
          (At C)
          (open_directory d name)
          (λ c s. (lookup_in start d name ≡ some c) × At C s)
  unfolding open_directory
  open_directory-Step C d name =
      Triple-syscall (Stopped p from apart start) (Never p from apart start) (At C)
        (λ c s. (lookup_in start d name ≡ some c) × At C s) (entry d name directory_handle)
        (λ s h. h.changed)
        (λ s c s' h ends.
          let (i, found, same) = entry-ok d name directory_handle s ends in
          let e : i ≡ c = (open_as_directory-ok (s.node_at i).kind i s same).0 in
          let e' : s ≡ s' = (open_as_directory-ok (s.node_at i).kind i s same).1 in
          (
            sym (Progress-lookup p from apart start h d name)
                ∙ subst (λ k. lookup_in s d name ≡ some k) e found,
            subst (At C) e' h,
          ))

  pub status-Step :
      (C : ℕ → Type 0) (c : ℕ)
      → Step p from apart start (At C) (status c) (λ n s. (n ≡ s.node_at c) × At C s)
  unfolding status
  status-Step C c =
      Triple-syscall (Stopped p from apart start) (Never p from apart start) (At C)
        (λ n s. (n ≡ s.node_at c) × At C s) (λ s. ok (s.node_at c, s)) (λ s h. h.changed)
        (λ s n s' h ends.
          let e : s.node_at c ≡ n = ground arith in
          let e' : s ≡ s' = ground arith in subst (λ t. (n ≡ t.node_at c) × At C t) e' (sym e, h))

  listing-Lists :
      (C : ℕ → Type 0) (c : ℕ) (s : Store) → At C s → Lists c (without_dots (listing p c s))
  listing-Lists C c s h = (
    λ name among.
        let (i, found, plain) = Among-listing p s c name among in
        (i, sym (Progress-lookup p from apart start h c name) ∙ found),
    λ name i plain found.
        listing-Among p s c name plain (Progress-lookup p from apart start h c name ∙ found),
  )

  pub entries-Step :
      (C : ℕ → Type 0) (c : ℕ)
      → Step p from apart start (At C) (entries p c) (λ names s. Lists c names × At C s)
  unfolding entries read_directory
  entries-Step C c =
      Triple-bind (Stopped p from apart start) (Never p from apart start) (At C)
        (λ names s. Lists c (without_dots names) × At C s) (λ names s. Lists c names × At C s)
        (read_directory p c) (λ names. pure (without_dots names))
        (Triple-syscall (Stopped p from apart start) (Never p from apart start) (At C)
          (λ names s. Lists c (without_dots names) × At C s) (λ s. ok (listing p c s, s))
          (λ s h. h.changed)
          (λ s names s' h ends.
            let e : listing p c s ≡ names = ground arith in
            let e' : s ≡ s' = ground arith in
            (subst (λ t. Lists c (without_dots t)) e (listing-Lists C c s h), subst (At C) e' h)))
        (λ names.
          Triple-pure (Stopped p from apart start) (Never p from apart start)
            (λ s. Lists c (without_dots names) × At C s) (λ names s. Lists c names × At C s)
            (without_dots names) (λ s h. h))
