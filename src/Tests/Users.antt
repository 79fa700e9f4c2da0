-- ===== src/Tests/Users.antt =====
-- Accounts, their first use, their bindings and the reload.
use m_ui.Base.{true, false, [], ◌∷◌, ◌≡◌, ◌↔◌, refl, nat_eq}
use m_ui.Base.Int.{pos}
use m_ui.Store.{World, done}
use m_ui.Store.Laws.{Post}
use m_ui.User.Active.{IsActive, is_credential_active, is_credential_active_iff}
use m_ui.User.Reload.{change, timer, reloads, reloads-changed}
use m_ui.User.Bind.{bind_listeners}
use m_ui.User.Bind.Correct.{Replaced, bind_listeners-Replaced}
use m_ui.User.Bind.Success.{bind_listeners-done}
use m_ui.Tests.Data.{alice, panel, faulty}

is_credential_active_iff_example :
    (is_credential_active (pos 100) alice ≡ true) ↔ IsActive (pos 100) alice
is_credential_active_iff_example = is_credential_active_iff (pos 100) alice

reloads-changed_example : reloads panel (change ∷ change ∷ timer ∷ timer ∷ []) ≡ true ∷ false ∷ []
reloads-changed_example = reloads-changed panel (change ∷ change ∷ timer ∷ timer ∷ []) refl

bind_listeners-Replaced_example :
    Post
      (λ _ v. Replaced 1 (8 ∷ 8 ∷ []) faulty.db v.db)
      (λ e v. v.db ≡ faulty.db)
      (bind_listeners 1 (8 ∷ 8 ∷ []) faulty)
bind_listeners-Replaced_example = bind_listeners-Replaced 1 (8 ∷ 8 ∷ []) faulty

bind_listeners-done_example :
    (v : World) × (bind_listeners 1 (8 ∷ 8 ∷ []) panel ≡ done tt v)
    × Replaced 1 (8 ∷ 8 ∷ []) panel.db v.db
bind_listeners-done_example =
    bind_listeners-done 1 (8 ∷ 8 ∷ []) panel alice refl refl (refl, (refl, tt)) (refl, (refl, tt))
