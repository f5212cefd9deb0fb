-- ===== src/Migrate/Nofollow/Existing.antt =====
-- What `exists` answers.
use gnosis_vpn_toolkit.Prelude.{ℕ, Option, List, ◌≡◌, refl, sym, subst, ◌⊎◌, inl, inr}
use gnosis_vpn_toolkit.Prelude.Text.{Text}
use gnosis_vpn_toolkit.Migrate.Dirs.{is_some}
use gnosis_vpn_toolkit.Migrate.Store.{IoError, Store, World, done, failed, lookup_in}
use gnosis_vpn_toolkit.Migrate.Store.Steady.{status_at-Ends}
use gnosis_vpn_toolkit.Migrate.Store.Triples.{Meets, Triple}
use gnosis_vpn_toolkit.Migrate.Nofollow.{exists}

-- Whether something stands at the name, be it a dangling link, or an error; nothing changes.
pub exists-Ends :
    (d : ℕ) (name : Text) (w : World)
    → (faults : List (Option Text)) × ((exists d name w ≡ (
      done (is_some (lookup_in w.store d name)),
      record { store = w.store; faults = faults },
    ))
        ⊎ ((e : IoError) × (exists d name w
              ≡ (failed e, record { store = w.store; faults = faults }))))
unfolding exists
exists-Ends d name w = elim (status_at-Ends d name w) [
  | inl (c, faults, found, r) ↦ (faults, inl (rw (r, found) refl))
  | inr (e, faults, inl (m, why), r) ↦ (faults, inr (e, rw (r, why) refl))
  | inr (e, faults, inr (why, nothing), r) ↦ (faults, inl (rw (r, why, nothing) refl))
]

module _ (E U P : Store → Type 0) (refused : (s : Store) → P s → E s) where
  pub exists-Triple :
      (d : ℕ) (name : Text)
      → Triple E U P (exists d name) (λ b s. (b ≡ is_some (lookup_in s d name)) × P s)
  exists-Triple d name = record {
    at = λ w h.
        let (faults, ends) = exists-Ends d name w in
        elim ends [
          | inl r ↦
              subst (Meets (λ b s. (b ≡ is_some (lookup_in s d name)) × P s) E U) (sym r) (refl, h)
          | inr (e, r) ↦
              subst (Meets (λ b s. (b ≡ is_some (lookup_in s d name)) × P s) E U) (sym r)
                (refused w.store h)
        ];
  }
