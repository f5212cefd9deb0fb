-- ===== src/Migrate/Nofollow/Walks.antt =====
-- Where `find_dir` and `ensure_dir` lead.
pub mod Finding
use gnosis_vpn_toolkit.Prelude.{ℕ, true, some, List, [], ◌∷◌, ◌≡◌}
use gnosis_vpn_toolkit.Prelude.Text.{Text}
use gnosis_vpn_toolkit.Migrate.Store.{Store, lookup_in, is_directory}

-- From a directory to another by names that stand for directories themselves, never for symlinks.
abbrev pub Walk : Store → ℕ → List Text → ℕ → Type 0
Walk s d [] e = d ≡ e
Walk s d (name ∷ rest) e =
    (c : ℕ) × (lookup_in s d name ≡ some c)
    × (is_directory (s.node_at c).kind ≡ true)
    × Walk s c rest e
