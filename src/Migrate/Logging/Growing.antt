-- ===== src/Migrate/Logging/Growing.antt =====
-- A store to which names and nodes have only been added.
use gnosis_vpn_toolkit.Prelude.{
  ap, ℕ, ◌≤◌, ◌<◌, false, Option, none, some, [], ◌∷◌, ◌≡◌, refl, sym, ◌∙◌, subst, arith, inl, inr,
  ok, ◌==◌, ==-refl, ==_iff, Bool-cases, Option-cases,
}
use gnosis_vpn_toolkit.Prelude.Text.{Text, text_eq, text_eq_iff}
use gnosis_vpn_toolkit.Migrate.Dirs.{Dir, lookup}
use gnosis_vpn_toolkit.Migrate.Store.{
  Kind, regular, directory, symlink, special, Node, Store, Process, lookup_in, is_directory,
  names_in, set_entries,
}
use gnosis_vpn_toolkit.Migrate.Store.Calls.{add_to, with_fresh, fresh_node}
use gnosis_vpn_toolkit.Migrate.Logging.{log_mode, append_handle, appending}

-- The owner, the group, the mode and the number of links.
abbrev pub attributes : Node → ℕ × ℕ × ℕ × ℕ
attributes n = (n.uid, n.gid, n.mode, n.nlink)

-- Of what was in use, only directories may have changed, and of those only the names in them: no name
-- that stood for something stands for anything else now.
pub record Grown (start s : Store) : Type 0 where
  pub later : start.fresh ≤ s.fresh
  pub kept :
      (i : ℕ)
      → i < start.fresh
      → is_directory (start.node_at i).kind ≡ false
      → s.node_at i ≡ start.node_at i
  pub owned : (i : ℕ) → i < start.fresh → attributes (s.node_at i) ≡ attributes (start.node_at i)
  pub named :
      (d : ℕ) (name : Text) (c : ℕ)
      → d < start.fresh
      → lookup_in start d name ≡ some c
      → lookup_in s d name ≡ some c

pub Grown-refl : (s : Store) → Grown s s
Grown-refl s = record {
  later = omega arith;
  kept = λ i low plain. refl;
  owned = λ i low. refl;
  named = λ d name c low at. at;
}

module _ (s : Store) (n : Node) (d : ℕ) (name : Text) (entries : Dir)
    (is_dir : (s.node_at d).kind ≡ directory entries) (free : lookup name entries ≡ none) where
  added : Store
  added = set_entries d ((name, s.fresh) ∷ entries) (with_fresh n s)

  elsewhere : (i : ℕ) → (i == d) ≡ false → i < s.fresh → added.node_at i ≡ s.node_at i
  unfolding added
  elsewhere i apart low = elim (Bool-cases (i == s.fresh)) [
    | inl same ↦ absurd (omega (arith, (==_iff i s.fresh).0 same))
    | inr old ↦ rw (apart, old) refl
  ]

  attributes-added : (i : ℕ) → i < s.fresh → attributes (added.node_at i) ≡ attributes (s.node_at i)
  unfolding added
  attributes-added i low = elim (Bool-cases (i == d)) [
    | inr apart ↦ ap attributes (elsewhere i apart low)
    | inl same ↦
        let d_is : i ≡ d = (==_iff i d).0 same in
        elim (Bool-cases (d == s.fresh)) [
          | inl taken ↦ absurd (omega (arith, (==_iff d s.fresh).0 taken))
          | inr old ↦ rw (same, old) (ap (λ j. attributes (s.node_at j)) (sym d_is))
        ]
  ]

  in_entries : (name' : Text) (c : ℕ) → lookup_in s d name' ≡ some c → lookup name' entries ≡ some c
  in_entries name' c at = rw is_dir at at

  still_named :
      (name' : Text) (c : ℕ) → lookup_in s d name' ≡ some c → lookup_in added d name' ≡ some c
  unfolding added
  still_named name' c at =
      let old = in_entries name' c at in
      rw (==-refl d) (elim (Bool-cases (text_eq name name')) [
        | inl same ↦ absurd (
            cc (
              sym free
              ∙ subst (λ t. lookup t entries ≡ some c) (sym ((text_eq_iff name name').0 same)) old))
        | inr apart ↦ rw apart old
      ])

  -- A name that was free is given to a new node.
  added-Grown : (start : Store) → Grown start s → Grown start added
  unfolding added
  added-Grown start g = record {
    later = omega (arith, g.later);
    kept = λ i low plain. elim (Bool-cases (i == d)) [
      | inl same ↦
          let here : is_directory (s.node_at i).kind ≡ false =
            subst (λ t. is_directory t.kind ≡ false) (sym (g.kept i low plain)) plain in
          let there : is_directory (s.node_at d).kind ≡ false =
            subst (λ j. is_directory (s.node_at j).kind ≡ false) ((==_iff i d).0 same) here in
          absurd (cc (rw is_dir at there))
      | inr apart ↦ elsewhere i apart (omega (arith, g.later)) ∙ g.kept i low plain
    ];
    owned = λ i low. attributes-added i (omega (arith, g.later)) ∙ g.owned i low;
    named = λ e name' c low at.
        let old = g.named e name' c low at in
        elim (Bool-cases (e == d)) [
          | inl same ↦
              let d_is : e ≡ d = (==_iff e d).0 same in
              subst (λ j. lookup_in added j name' ≡ some c) (sym d_is)
                (still_named name' c (subst (λ j. lookup_in s j name' ≡ some c) d_is old))
          | inr apart ↦
              subst (λ t. lookup name' (names_in t.kind) ≡ some c)
                (sym (elsewhere e apart (omega (arith, g.later)))) old
        ];
  }

pub add_to-Grown :
    (start s : Store) (k : Kind) (d : ℕ) (name : Text) (n : Node) {c : ℕ} {s' : Store}
    → (s.node_at d).kind ≡ k
    → Grown start s
    → add_to k d name n s ≡ ok (c, s')
    → Grown start s'
unfolding added
add_to-Grown start s (directory entries) d name n {s' = s'} is_dir g ends =
    elim (Option-cases (lookup name entries)) [
      | inl free ↦
          let e : added s n d name entries is_dir free ≡ s' = ground arith in
          subst (Grown start) e (added-Grown s n d name entries is_dir free start g)
      | inr (i, taken) ↦ absurd (ground arith)
    ]
add_to-Grown start s (regular b) d name n is_dir g ends = cc
add_to-Grown start s (symlink t) d name n is_dir g ends = cc
add_to-Grown start s special d name n is_dir g ends = cc

append_handle-Grown :
    (start s : Store) (k : Kind) (i : ℕ) {c : ℕ} {s' : Store}
    → Grown start s
    → append_handle k i s ≡ ok (c, s')
    → Grown start s'
append_handle-Grown start s (regular b) i g ends = subst (Grown start) (ground arith) g
append_handle-Grown start s special i g ends = subst (Grown start) (ground arith) g
append_handle-Grown start s (directory es) i g ends = cc
append_handle-Grown start s (symlink t) i g ends = cc

pub appending-Grown :
    (start : Store) (p : Process) (d : ℕ) (name : Text) (found : Option ℕ) (s : Store) {c : ℕ}
    {s' : Store}
    → Grown start s
    → appending p d name found s ≡ ok (c, s')
    → Grown start s'
appending-Grown start p d name none s g ends =
    add_to-Grown start s (s.node_at d).kind d name (fresh_node p (regular []) log_mode) refl g ends
appending-Grown start p d name (some i) s g ends =
    append_handle-Grown start s (s.node_at i).kind i g ends
