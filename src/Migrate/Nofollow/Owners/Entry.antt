-- ===== src/Migrate/Nofollow/Owners/Entry.antt =====
-- Handing over one entry, and a held directory.
use gnosis_vpn_toolkit.Prelude.{
  ℕ, true, false, not, some, ◌≡◌, ◌≢◌, sym, ◌∙◌, ap, subst, inl, inr, arith, ◌==◌, ==_iff, ok,
}
use gnosis_vpn_toolkit.Prelude.Text.{Text}
use gnosis_vpn_toolkit.Migrate.Store.{
  Node, Store, Process, Io, pure, ◌>>◌, lookup_in, is_directory, set_node,
}
use gnosis_vpn_toolkit.Migrate.Store.Calls.{
  owned, give_to, entry, status_at, change_owner, change_owner_at,
}
use gnosis_vpn_toolkit.Migrate.Store.Endings.{entry-ok}
use gnosis_vpn_toolkit.Migrate.Store.Triples.{
  Triple, Triple-pure, Triple-if, Triple-bind, Triple-syscall, Triple-weaken, Triple-from,
}
use gnosis_vpn_toolkit.Migrate.Nofollow.{reown_entry, reown_dir}
use gnosis_vpn_toolkit.Migrate.Nofollow.Reach.{Below, self, inside, Under, lookup_in-none}
use gnosis_vpn_toolkit.Migrate.Nofollow.Owners.{
  MayChange, Handed, Progress, Also, Progress-lookup, Progress-also, Progress-give, Progress-narrow,
  Handed-nlink,
}

-- Nothing lies below what is no directory.
Below-leaf : (s : Store) {i j : ℕ} → is_directory (s.node_at i).kind ≡ false → Below s i j → i ≡ j
Below-leaf s leaf (self e) = e
Below-leaf s {i} leaf (inside name plain found below) =
    absurd (cc (found, lookup_in-none (s.node_at i).kind name leaf))

module _ (p : Process) (from : ℕ) (apart : from ≢ p.euid) (start : Store) where
  -- An error leaves the state as far as it came, and the rounds do not run out.
  abbrev pub Stopped : Store → Type 0
  Stopped s = (j : ℕ) → Handed p from (start.node_at j) (s.node_at j)

  abbrev pub Never : Store → Type 0
  Never s = ⊥

  abbrev pub Step : {A : Type 0} → (Store → Type 0) → Io A → (A → Store → Type 0) → Type 0
  Step P m Q = Triple Stopped Never P m Q

  -- The status is that of the node at the name.
  abbrev pub Seen : ℕ → Text → Node → Store → Type 0
  Seen d name stat s = (c : ℕ) × (lookup_in start d name ≡ some c) × (stat ≡ s.node_at c)

  pub status_at-Step :
      (C : ℕ → Type 0) (d : ℕ) (name : Text)
      → Step
          (Progress p from start C)
          (status_at d name)
          (λ stat s. Seen d name stat s × Progress p from start C s)
  unfolding status_at
  status_at-Step C d name =
      Triple-syscall Stopped Never (Progress p from start C)
        (λ stat s. Seen d name stat s × Progress p from start C s)
        (entry d name (λ i s. ok (s.node_at i, s))) (λ s h. h.changed)
        (λ s stat s' h ends.
          let (i, found, same) = entry-ok d name (λ i s. ok (s.node_at i, s)) s ends in
          let e : s.node_at i ≡ stat = ground arith in
          let e' : s ≡ s' = ground arith in
          subst (λ t. Seen d name stat t × Progress p from start C t) e'
            ((i, sym (Progress-lookup p from apart start h d name) ∙ found, sym e), h))

  pub change_owner_at-Step :
      (C : ℕ → Type 0) (d : ℕ) (name : Text) (c : ℕ)
      → lookup_in start d name ≡ some c
      → MayChange (start.node_at c)
      → Step
          (λ s. ((s.node_at c).uid ≡ from) × Progress p from start C s)
          (change_owner_at d name p.euid p.egid)
          (λ _ s. Progress p from start (Also C (λ j. c ≡ j)) s)
  unfolding change_owner_at
  change_owner_at-Step C d name c there may =
      Triple-syscall Stopped Never (λ s. ((s.node_at c).uid ≡ from) × Progress p from start C s)
        (λ _ s. Progress p from start (Also C (λ j. c ≡ j)) s)
        (entry d name (give_to p.euid p.egid)) (λ s h. h.1.changed)
        (λ s a s' h ends.
          let (i, found, same) = entry-ok d name (give_to p.euid p.egid) s ends in
          let e : i ≡ c = cc (sym found ∙ Progress-lookup p from apart start h.1 d name ∙ there) in
          let e' : set_node c (owned p.euid p.egid (s.node_at c)) s ≡ s' = ground arith in
          subst (λ t. Progress p from start (Also C (λ j. c ≡ j)) t) e'
            (Progress-give p from apart start c h.1 h.0 may))

  module _ (C : ℕ → Type 0) (d : ℕ) (name : Text) (c : ℕ) (there : lookup_in start d name ≡ some c)
      (stat : Node) where
    abbrev Before : Store → Type 0
    Before s = (stat ≡ s.node_at c) × Progress p from start C s

    abbrev After : ℕ → Store → Type 0
    After _ s = Progress p from start (Also C (Under start d name)) s

    module _ (leaf : is_directory (start.node_at c).kind ≡ false) where
      Under-leaf : (j : ℕ) → Under start d name j → c ≡ j
      Under-leaf j (i, found, below) =
          let e : i ≡ c = cc (sym found ∙ there) in
          Below-leaf start leaf (subst (λ t. Below start t j) e below)

      other_owner : (s : Store) → Before s → stat.uid == from ≡ false → After 0 s
      other_owner s (same, h) differs =
          Progress-also p from apart start (Under start d name) h (λ j u may uid.
            let e : (s.node_at c).uid ≡ from =
              subst (λ k. (s.node_at k).uid ≡ from) (sym (Under-leaf j u)) uid in
            cc ((==_iff stat.uid from).1 (ap (λ n. n.uid) same ∙ e), differs))

      several_names : (s : Store) → Before s → stat.nlink == 1 ≡ false → After 0 s
      several_names s (same, h) several =
          Progress-also p from apart start (Under start d name) h (λ j u may uid.
            elim (subst (λ k. MayChange (start.node_at k)) (sym (Under-leaf j u)) may) [
              | inl dir ↦ cc (dir, leaf)
              | inr one ↦
                  let e =
                    Handed-nlink p from apart start (start.node_at c) (s.node_at c) (h.changed c) in
                  cc ((==_iff stat.nlink 1).1 (ap (λ n. n.nlink) same ∙ (e ∙ one)), several)
            ])

      one_name : (s : Store) → Before s → stat.nlink ≡ 1 → MayChange (start.node_at c)
      one_name s (same, h) one = inr (
          sym (Handed-nlink p from apart start (start.node_at c) (s.node_at c) (h.changed c))
          ∙ (sym (ap (λ n. n.nlink) same) ∙ one))

      handed_over :
          stat.uid ≡ from
          → stat.nlink ≡ 1
          → (w : Store) → Before w
          → Step Before (change_owner_at d name p.euid p.egid >> pure 1) After
      handed_over uid one w b =
          Triple-bind Stopped Never Before (λ _ s. Progress p from start (Also C (λ j. c ≡ j)) s)
            After (change_owner_at d name p.euid p.egid) (λ _. pure 1)
            (Triple-weaken Stopped Never
              (λ s. ((s.node_at c).uid ≡ from) × Progress p from start C s) Before
              (λ _ s. Progress p from start (Also C (λ j. c ≡ j)) s)
              (λ _ s. Progress p from start (Also C (λ j. c ≡ j)) s)
              (change_owner_at d name p.euid p.egid) (λ s b. (sym (ap (λ n. n.uid) b.0) ∙ uid, b.1))
              (λ a s h. h) (change_owner_at-Step C d name c there (one_name w b one)))
            (λ _.
              Triple-pure Stopped Never (λ s. Progress p from start (Also C (λ j. c ≡ j)) s) After 1
                (λ s h.
                  Progress-narrow p from apart start (Also C (Under start d name))
                    (λ j u. elim u [ inl old ↦ inl old | inr new ↦ inr (Under-leaf j new) ]) h))

      pub reown_entry-Step : Step Before (reown_entry p d name stat from) After
      unfolding reown_entry
      reown_entry-Step =
          Triple-if Stopped Never Before After (not (stat.uid == from)) (pure 0) _
            (λ differs.
              Triple-pure Stopped Never Before After 0 (λ s b. other_owner s b (ground arith)))
            (λ same.
              Triple-if Stopped Never Before After (not (stat.nlink == 1)) (pure 0) _
                (λ several.
                  Triple-pure Stopped Never Before After 0
                    (λ s b. several_names s b (ground arith)))
                (λ one.
                  Triple-from Stopped Never Before After _
                    (handed_over (ground arith) (ground arith))))

    abbrev pub Held : ℕ → Store → Type 0
    Held _ s = Progress p from start (Also C (λ j. c ≡ j)) s

    given_over :
        is_directory (start.node_at c).kind ≡ true
        → stat.uid ≡ from
        → Step Before (change_owner c p.euid p.egid >> pure 1) Held
    unfolding change_owner
    given_over dir uid =
        Triple-bind Stopped Never Before (λ _ s. Held 0 s) Held (change_owner c p.euid p.egid)
          (λ _. pure 1)
          (Triple-syscall Stopped Never Before (λ _ s. Held 0 s) (give_to p.euid p.egid c)
            (λ s b. b.1.changed)
            (λ s a s' b ends.
              let e : set_node c (owned p.euid p.egid (s.node_at c)) s ≡ s' = ground arith in
              subst (λ t. Held 0 t) e
                (Progress-give p from apart start c b.1 (sym (ap (λ n. n.uid) b.0) ∙ uid)
                  (inl dir))))
          (λ _. Triple-pure Stopped Never (λ s. Held 0 s) Held 1 (λ s h. h))

    pub reown_dir-Step :
        is_directory (start.node_at c).kind ≡ true → Step Before (reown_dir p c stat from) Held
    reown_dir-Step dir =
        Triple-if Stopped Never Before Held (stat.uid == from) _ (pure 0)
          (λ same. given_over dir ((==_iff stat.uid from).0 same))
          (λ differs. Triple-pure Stopped Never Before Held 0 (λ s b.
            Progress-also p from apart start (λ j. c ≡ j) b.1
              (λ j e may uid.
                let e' : (s.node_at c).uid ≡ from =
                  subst (λ k. (s.node_at k).uid ≡ from) (sym e) uid in
                cc ((==_iff stat.uid from).1 (ap (λ n. n.uid) b.0 ∙ e'), differs))))
