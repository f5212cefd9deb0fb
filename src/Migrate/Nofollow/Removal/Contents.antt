-- ===== src/Migrate/Nofollow/Removal/Contents.antt =====
-- Removing what a directory holds, and the trees below it.
use gnosis_vpn_toolkit.Prelude.{
  ℕ, zero, suc, ◌<◌, false, Option, none, some, List, [], ◌∷◌, ◌≡◌, refl, subst, inl, inr, arith,
  if◌then◌else◌, Bool-cases, ok,
}
use gnosis_vpn_toolkit.Prelude.Text.{Text}
use gnosis_vpn_toolkit.Migrate.Store.{
  Kind, directory, regular, symlink, special, Store, Process, Io, pure, ◌>>=◌, ◌>>◌, lookup_in,
  is_directory,
}
use gnosis_vpn_toolkit.Migrate.Store.Calls.{
  entry, status_at, open_directory, unlink, unlink_kind, remove_directory, rmdir_kind,
  read_directory, listing, take_name, drop_link,
}
use gnosis_vpn_toolkit.Migrate.Store.Endings.{entry-ok}
use gnosis_vpn_toolkit.Migrate.Store.Triples.{
  Triple, Triple-pure, Triple-if, Triple-bind, Triple-syscall, Triple-weaken, Triple-fact,
}
use gnosis_vpn_toolkit.Migrate.Store.Steady.{
  Leads, StatusOf, open_directory-Triple, status_at-Triple, read_directory-Triple,
}
use gnosis_vpn_toolkit.Migrate.Nofollow.{is_dots, is_dir, each_child, remove_tree, without_dots}
use gnosis_vpn_toolkit.Migrate.Nofollow.Reach.{Ranked, Among, Among-listing}
use gnosis_vpn_toolkit.Migrate.Nofollow.Removal.{Shrunk, Closed, Shrunk-take_name, Shrunk-drop_link}

pub unlink_kind-ok :
    (k : Kind) (d : ℕ) (name : Text) (i : ℕ) (s : Store) {a : Unit {0}} {s' : Store}
    → unlink_kind k d name i s ≡ ok (a, s')
    → take_name d name (drop_link i s) ≡ s'
unlink_kind-ok (directory entries) d name i s e = cc
unlink_kind-ok (regular bytes) d name i s e = ground arith
unlink_kind-ok (symlink target) d name i s e = ground arith
unlink_kind-ok special d name i s e = ground arith

pub rmdir_kind-ok :
    (k : Kind) (d : ℕ) (name : Text) (s : Store) {a : Unit {0}} {s' : Store}
    → rmdir_kind k d name s ≡ ok (a, s')
    → take_name d name s ≡ s'
rmdir_kind-ok (directory []) d name s e = ground arith
rmdir_kind-ok (directory (x ∷ xs)) d name s e = cc
rmdir_kind-ok (regular bytes) d name s e = cc
rmdir_kind-ok (symlink target) d name s e = cc
rmdir_kind-ok special d name s e = cc

module _ (start : Store) (R : ℕ → Type 0) (closed : Closed start R) where
  abbrev pub P : Store → Type 0
  P s = Shrunk start R s

  abbrev pub Never : Store → Type 0
  Never s = ⊥

  abbrev pub Keeps : {A : Type 0} → Io A → Type 0
  Keeps m = Triple P Never P m (λ _ s. P s)

  pub unlink-Keeps : (d : ℕ) (name : Text) → R d → is_dots name ≡ false → Keeps (unlink d name)
  unfolding unlink
  unlink-Keeps d name within plain =
      Triple-syscall P Never P (λ _ s. P s)
        (entry d name (λ i s. unlink_kind (s.node_at i).kind d name i s)) (λ s h. h)
        (λ s a s' h ends.
          let (i, found, same) =
            entry-ok d name (λ i s. unlink_kind (s.node_at i).kind d name i s) s ends in
          let inside = closed d name i within plain (h.fewer d name i found) in
          subst P (unlink_kind-ok (s.node_at i).kind d name i s same)
            (Shrunk-take_name start R (Shrunk-drop_link start R h i inside) d name within))

  pub remove_directory-Keeps : (d : ℕ) (name : Text) → R d → Keeps (remove_directory d name)
  unfolding remove_directory
  remove_directory-Keeps d name within =
      Triple-syscall P Never P (λ _ s. P s)
        (entry d name (λ i s. rmdir_kind (s.node_at i).kind d name s)) (λ s h. h)
        (λ s a s' h ends.
          let (i, found, same) =
            entry-ok d name (λ i s. rmdir_kind (s.node_at i).kind d name s) s ends in
          subst P (rmdir_kind-ok (s.node_at i).kind d name s same)
            (Shrunk-take_name start R h d name within))

  is_dir-Keeps : (d : ℕ) (name : Text) (k : Option Kind) → Keeps (is_dir d name k)
  unfolding is_dir
  is_dir-Keeps d name (some k) = Triple-pure P Never P (λ _ s. P s) (is_directory k) (λ s h. h)
  is_dir-Keeps d name none =
      Triple-bind P Never P (λ stat s. StatusOf P Never P (λ s h. h) d name stat s × P s)
        (λ _ s. P s) (status_at d name) (λ stat. pure (is_directory stat.kind))
        (status_at-Triple P Never P (λ s h. h) d name)
        (λ stat.
          Triple-pure P Never (λ s. StatusOf P Never P (λ s h. h) d name stat s × P s) (λ _ s. P s)
            (is_directory stat.kind) (λ s h. h.1))

  each_child-Keeps :
      (act : Text → Option Kind → Io (Unit {0})) (names : List (Text × Option Kind))
      → ((name : Text) (k : Option Kind) → Among name (without_dots names) → Keeps (act name k))
      → Keeps (each_child act names)
  unfolding each_child without_dots
  each_child-Keeps act [] each = Triple-pure P Never P (λ _ s. P s) tt (λ s h. h)
  each_child-Keeps act ((name, k) ∷ rest) each = elim (Bool-cases (is_dots name)) [
    | inl dots ↦ rw dots (each_child-Keeps act rest (λ n k' among. each n k' (rw dots among)))
    | inr named ↦ rw named (
        Triple-bind P Never P (λ _ s. P s) (λ _ s. P s) (act name k) (λ _. each_child act rest)
          (each name k (rw named (inl refl)))
          (λ _. each_child-Keeps act rest (λ n k' among. each n k' (rw named (inr among)))))
  ]

  module _ (p : Process) (rank : ℕ → ℕ) (ranked : Ranked start rank) where
    -- What is removed below a directory, before the last step.
    abbrev pub clear_child : ℕ → ℕ → Text → Option Kind → Io (Unit {0})
    clear_child rounds c child kind = is_dir c child kind >>= λ deeper.
        if deeper then remove_tree p rounds c child else unlink c child

    clear_child-Keeps :
        (rounds c : ℕ) (child : Text) (kind : Option Kind)
        → R c
        → is_dots child ≡ false
        → Keeps (remove_tree p rounds c child)
        → Keeps (clear_child rounds c child kind)
    clear_child-Keeps rounds c child kind within plain below =
        Triple-bind P Never P (λ _ s. P s) (λ _ s. P s) (is_dir c child kind)
          (λ deeper. if deeper then remove_tree p rounds c child else unlink c child)
          (is_dir-Keeps c child kind)
          (λ deeper.
            Triple-if P Never P (λ _ s. P s) deeper (remove_tree p rounds c child) (unlink c child)
              (λ e. below) (λ e. unlink-Keeps c child within plain))

    -- What a listing of a directory names at any time was there at the start.
    abbrev Named : ℕ → List (Text × Option Kind) → Type 0
    Named c names =
        (child : Text)
        → Among child (without_dots names)
        → (k : ℕ) × (lookup_in start c child ≡ some k) × (is_dots child ≡ false)

    pub contents_then :
        (rounds c : ℕ) (Q : Unit {0} → Store → Type 0) (last : Io (Unit {0}))
        → R c
        → rank c < suc rounds
        → ((child : Text)
            → is_dots child ≡ false
            → 0 < rounds
            → ((k : ℕ) → lookup_in start c child ≡ some k → rank k < rounds)
            → Keeps (remove_tree p rounds c child))
        → Triple P Never P last Q
        → Triple P Never P
            (read_directory p c >>= λ names. each_child (clear_child rounds c) names >> last)
            Q
    contents_then rounds c Q last within enough below ends =
        Triple-bind P Never P (λ names s. Named c names × P s) Q (read_directory p c)
          (λ names. each_child (clear_child rounds c) names >> last)
          (Triple-weaken P Never P P (λ names s. (names ≡ listing p c s) × P s)
            (λ names s. Named c names × P s) (read_directory p c) (λ s h. h)
            (λ names s (e, h). (
              λ child among.
                  let (k, found, plain) =
                    Among-listing p s c child (subst (λ t. Among child (without_dots t)) e among) in
                  (k, h.fewer c child k found, plain),
              h,
            ))
            (read_directory-Triple P Never P (λ s h. h) p c))
          (λ names.
            Triple-fact P Never (Named c names) P Q
              (each_child (clear_child rounds c) names >> last)
              (λ named.
                Triple-bind P Never P (λ _ s. P s) Q (each_child (clear_child rounds c) names)
                  (λ _. last)
                  (each_child-Keeps (clear_child rounds c) names (λ child kind among.
                    let (k, found, plain) = named child among in
                    let lower = ranked c child k found in
                    clear_child-Keeps rounds c child kind within plain (
                      below child plain (omega arith)
                        (λ k' found'. let lower' = ranked c child k' found' in omega arith))))
                  (λ _. ends)))

    pub remove_tree-Keeps :
        (rounds d : ℕ) (name : Text)
        → R d
        → is_dots name ≡ false
        → 0 < rounds
        → ((c : ℕ) → lookup_in start d name ≡ some c → rank c < rounds)
        → Keeps (remove_tree p rounds d name)
    unfolding remove_tree
    remove_tree-Keeps zero d name within plain some_round enough = absurd (omega arith)
    remove_tree-Keeps (suc rounds) d name within plain some_round enough =
        Triple-bind P Never P (λ c s. ((lookup_in start d name ≡ some c) × R c) × P s) (λ _ s. P s)
          (open_directory d name) _
          (Triple-weaken P Never P P (λ c s. Leads P Never P (λ s h. h) d name c s × P s)
            (λ c s. ((lookup_in start d name ≡ some c) × R c) × P s) (open_directory d name)
            (λ s h. h)
            (λ c s (leads, h).
              let at = h.fewer d name c leads.0 in ((at, closed d name c within plain at), h))
            (open_directory-Triple P Never P (λ s h. h) d name))
          (λ c.
            Triple-fact P Never ((lookup_in start d name ≡ some c) × R c) P (λ _ s. P s) _
              (λ (at, inside).
                contents_then rounds c (λ _ s. P s) (remove_directory d name) inside (enough c at)
                  (λ child plain' more lower.
                    remove_tree-Keeps rounds c child inside plain' more lower)
                  (remove_directory-Keeps d name within)))
