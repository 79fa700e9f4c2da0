-- ===== src/Tests/Accounts.antt =====
-- Tokens, links, masks and the monthly reset.
use m_ui.Base.{ℕ, [], ◌∷◌, Option, some, ◌≡◌, ◌⊎◌, refl, nat_eq, trim_space, trim_left, Text, codes}
use m_ui.Store.{World, after}
use m_ui.Store.Laws.{Post}
use m_ui.User.SubToken.{rotate_sub_token, ensure_sub_token}
use m_ui.User.SubToken.Unique.{Names, rotate_sub_token-Names, ensure_sub_token-Names}
use m_ui.Traffic.Monthly.{day_key, maybe_reset_monthly_traffic}
use m_ui.Traffic.Monthly.Ticks.{maybe_reset_monthly_traffic-once}
use m_ui.Tests.Data.{alice, panel, faulty, tables}

abbrev draw : ℕ → Option Text
draw i = some (codes "0123456789abcdef")

rotate_sub_token-Names_example :
    Post (λ t v. Names t 1 v.db) (λ e v. v.db ≡ faulty.db) (rotate_sub_token draw 1 faulty)
rotate_sub_token-Names_example = rotate_sub_token-Names draw 1 faulty

ensure_sub_token-Names_example :
    Post (λ t v. Names t 1 v.db) (λ e v. v.db ≡ faulty.db) (ensure_sub_token draw 1 faulty)
unfolding trim_space trim_left
ensure_sub_token-Names_example = ensure_sub_token-Names draw 1 faulty alice refl

abbrev settled : World
settled = record panel {
  db = record tables { settings = record { key = day_key; value = codes "5" } ∷ [] };
}

maybe_reset_monthly_traffic-once_example :
    ((after (maybe_reset_monthly_traffic 5 (codes "2024-01-05") settled)).db.users
      ≡ settled.db.users)
    ⊎ ((after (
          maybe_reset_monthly_traffic 5
            (codes "2024-01-05")
            (after (maybe_reset_monthly_traffic 5 (codes "2024-01-05") settled)))).db
        ≡ (after (maybe_reset_monthly_traffic 5 (codes "2024-01-05") settled)).db)
maybe_reset_monthly_traffic-once_example =
    maybe_reset_monthly_traffic-once 5 (codes "2024-01-05") settled
