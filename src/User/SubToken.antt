-- ===== src/User/SubToken.antt =====
-- Subscription tokens (backend/internal/user/sub_token.go). `draw` gives the results of the calls of
-- `randomHex`, in their order; `none` is its error.
pub mod Unique
use m_ui.Base.{
  ℕ, zero, suc, Bool, true, false, not, ◌&&◌, ◌||◌, List, [], ◌∷◌, Option, none, some,
  if◌then◌else◌, ◌==◌, nat_eq, text_eq, length, filter, find?, any?, Text, trim_space,
}
use m_ui.Models.{Db, ProxyUser}
use m_ui.Store.{
  World, Outcome, done, failed, M, bind, ◌>>=◌, ◌>>◌, return, fail, select, exec, first, Error,
  db_error, record_not_found, random_error, no_token,
}
use m_ui.Table.{find_user, update_users, users_where}

abbrev pub set_token : Text → ProxyUser → ProxyUser
set_token t v = record v { sub_token = t }

-- Another row, marked as deleted or not, holds the token.
abbrev pub is_held_by_other : ℕ → Text → ProxyUser → Bool
is_held_by_other id t v = v.sub_token == t && not (v.id == id)

-- The update fails on the unique index of the column.
unfoldable pub write_token : ℕ → Text → M (Unit {0})
write_token id t w =
    if any? (is_held_by_other id t) w.db.users
    then failed db_error w
    else exec (update_users (λ v. v.id == id) (set_token t)) w

abbrev count_where : (ProxyUser → Bool) → Db → ℕ
count_where p db = length (users_where p db)

abbrev drawn : Option Text → (Text → M Text) → M Text
drawn none k = fail random_error
drawn (some t) k = k t

abbrev taken : ℕ → ℕ → Text → M Text → M Text
taken id zero t again = write_token id t >> return t
taken id (suc n) t again = again

-- The loop of at most `tries` rounds, from the draw `i` on. `p` says which rows count as holders.
unfoldable pub allocate : (Text → ProxyUser → Bool) → ℕ → (ℕ → Option Text) → ℕ → ℕ → M Text
allocate p id draw zero i w = failed no_token w
allocate p id draw (suc tries) i w =
    drawn (draw i)
      (λ t. select (count_where (p t)) >>= λ n. taken id n t (allocate p id draw tries (suc i))) w

unfoldable pub ensure_sub_token : (ℕ → Option Text) → ℕ → M Text
ensure_sub_token draw id = first (find_user id) >>= λ u.
    (if not (trim_space u.sub_token == [])
      then return u.sub_token
      else allocate (λ t v. v.sub_token == t) u.id draw 5 0)

unfoldable pub rotate_sub_token : (ℕ → Option Text) → ℕ → M Text
rotate_sub_token draw id = first (find_user id) >>= λ u.
    allocate (λ t v. v.sub_token == t && not (v.id == id)) u.id draw 5 0

unfoldable pub find_by_sub_token : Text → M ProxyUser
find_by_sub_token token =
    if trim_space token == []
    then fail record_not_found
    else first (λ db. find? (λ u. not u.deleted && u.sub_token == trim_space token) db.users)
