-- ===== src/Tests/Batches.antt =====
-- Batches and deletions.
use m_ui.Base.{◌*◌, arith, true, [], ◌∷◌, ◌≡◌, refl, not, ◌&&◌, ◌==◌, nat_eq, filter, map_where}
use m_ui.Base.Int.{pos, ◌+ℤ◌}
use m_ui.Store.{select, exec}
use m_ui.Store.Laws.{Post}
use m_ui.User.Active.{is_credential_active}
use m_ui.User.Ids.{clean_ids}
use m_ui.User.Batch.{BatchOpts, batch_extend_days, batch, batch_clean, extend_loop, finish}
use m_ui.User.Batch.Extend.{later_of, named, batch-extend_days}
use m_ui.User.Delete.{delete, delete_depleted, is_depleted, without, delete-without}
use m_ui.User.Delete.Depleted.{is_taken, delete_depleted-exact, active-depleted}
use m_ui.Tests.Data.{alice, panel, faulty}

abbrev opts : BatchOpts
opts = record { days = pos 2; traffic_gb = pos 1 }

batch-extend_days_example :
    ((batch (pos 5) batch_extend_days (2 ∷ 2 ∷ 9 ∷ []) opts panel).world.db.users
      ≡ map_where
          (λ u. not u.deleted && named (2 ∷ 2 ∷ 9 ∷ []) u)
          (λ u. record u {
            expire_time = later_of (pos 5) u.expire_time +ℤ pos (2 * 86400 * 1000000000);
          })
          panel.db.users)
    × ((batch (pos 5) batch_extend_days (2 ∷ 2 ∷ 9 ∷ []) opts panel).count ≡ 1)
unfolding batch batch_clean clean_ids select exec extend_loop finish
batch-extend_days_example =
    batch-extend_days (pos 5) (2 ∷ 2 ∷ 9 ∷ []) opts 2 panel (refl, (refl, tt)) refl (omega arith)
      (omega arith) refl

delete-without_example :
    Post (λ _ v. v.db ≡ without (λ i. i == 1) faulty.db) (λ e v. v.db ≡ faulty.db) (delete 1 faulty)
delete-without_example = delete-without 1 faulty

delete_depleted-exact_example :
    Post
      (λ _ v. v.db.users ≡ filter (λ u. not (is_taken (pos 5) u)) panel.db.users)
      (λ e v. v.db ≡ panel.db)
      (delete_depleted (pos 5) panel)
delete_depleted-exact_example = delete_depleted-exact (pos 5) panel (refl, (refl, tt))

active-depleted_example : is_depleted (pos 5) alice ≡ true
unfolding is_credential_active
active-depleted_example = active-depleted (pos 5) alice refl
