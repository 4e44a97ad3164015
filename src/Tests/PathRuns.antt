-- ===== src/Tests/PathRuns.antt =====
-- Names that a remote could send, through internal/syncer/paths.go.
use gpb.Common.{ℕ, false, true, ◌||◌, not, ◌≡◌, refl, List, [], ◌∷◌, All}
use gpb.Syncer.Paths.{is_control, is_reserved, is_dots, safe_name}
use gpb.Syncer.Paths.Safety.{IsTrimmed, safe_name-IsTrimmed}

-- " ../a"
abbrev climbing : List ℕ
climbing = 0x20 ∷ 0x2E ∷ 0x2E ∷ 0x2F ∷ 0x61 ∷ []

stays : safe_name climbing ≡ 0x5F ∷ 0x61 ∷ []
unfolding safe_name
stays = refl

safe_name-IsTrimmed_example :
    All (λ r. not (is_control r || is_reserved r) ≡ true) (safe_name climbing)
    × IsTrimmed (safe_name climbing)
    × (is_dots (safe_name climbing) ≡ false)
safe_name-IsTrimmed_example = safe_name-IsTrimmed climbing
