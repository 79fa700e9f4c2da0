-- ===== src/User/Creds.antt =====
-- The credentials that the core is given for each listener (backend/internal/user/service_creds.go).
-- Go's maps from ids are functions; one that is missing a key gives `none`, or the empty list where
-- only `append` reads it. A listener's entry is `some []` when it has bindings and none is active.
pub mod Bound
use m_ui.Base.{
  ℕ, Bool, true, false, not, ◌&&◌, ◌||◌, List, [], ◌∷◌, ◌++◌, Option, none, some, Text, codes, ◌==◌,
  nat_eq, text_eq, if◌then◌else◌, contains, filter, map_where, trim_space,
}
use m_ui.Clock.{Time}
use m_ui.Credentials.{Outside, ensure_listener_credentials, is_set}
use m_ui.Json.{Value, null, str, arr, obj, Items, nil, cons, Fields, end, field, get}
use m_ui.Models.{Db, Listener, ListenerUser, ProxyUser}
use m_ui.Protocol.Input.{is_blank}
use m_ui.Store.{M, ◌>>=◌, ◌>>◌, return, select, exec}
use m_ui.Table.{users_where}
use m_ui.User.Active.{is_credential_active}

pub record Credential : Type 0 where
  pub username : Text
  pub password : Text
  pub uuid : Text

abbrev pub is_nil {ℓ} : {A : Type ℓ} → List A → Bool
is_nil [] = true
is_nil (a ∷ rest) = false

abbrev token_items : Items → List Credential
token_items nil = []
token_items (cons (str s) rest) =
    let others = token_items rest in
    if is_set s
    then record { username = []; password = trim_space s; uuid = [] } ∷ others
    else others
token_items (cons _ rest) = token_items rest

abbrev token_credentials : Option Value → List Credential
token_credentials (some (str s)) = token_items (cons (str s) nil)
token_credentials (some (arr xs)) = token_items xs
token_credentials _ = []

-- `fmt.Sprint(row[k])`.
abbrev print_entry : Outside → Text → Fields → Text
print_entry o k row = elim (get k row) [ none ↦ o.sprint null | some v ↦ o.sprint v ]

abbrev map_credentials : Outside → Fields → List Credential
map_credentials o end = []
map_credentials o (field k v rest) =
    record { username = k; password = o.sprint v; uuid = k } ∷ map_credentials o rest

abbrev row_credentials : Outside → Items → List Credential
row_credentials o nil = []
row_credentials o (cons (obj row) rest) =
    record {
      username = print_entry o (codes "username") row;
      password = print_entry o (codes "password") row;
      uuid = print_entry o (codes "uuid") row;
    }
    ∷ row_credentials o rest
row_credentials o (cons _ rest) = row_credentials o rest

abbrev from_map : Outside → Value → List Credential
from_map o (obj m) = map_credentials o m
from_map o _ = []

abbrev from_list : Outside → Value → List Credential
from_list o (arr xs) = row_credentials o xs
from_list o _ = []

abbrev from_users : Outside → Text → Option Value → List Credential
from_users o protocol none = []
from_users o protocol (some users) =
    if contains
      (codes "anytls"
        ∷ codes "hysteria2"
        ∷ codes "mieru"
        ∷ codes "tuic"
        ∷ codes "tuic-v4"
        ∷ codes "tuic-v5"
        ∷ [])
      protocol
    then from_map o users
    else from_list o users

-- `cfg[k] == nil`.
abbrev is_null : Option Value → Bool
is_null none = true
is_null (some null) = true
is_null (some _) = false

abbrev from_config : Outside → Text → Option Fields → List Credential
from_config o protocol none = []
from_config o protocol (some cfg) =
    let tokens =
      (if contains (codes "tuic" ∷ codes "tuic-v4" ∷ codes "tuic-v5" ∷ []) protocol
        then token_credentials (get (codes "token") cfg)
        else []) in
    if not (is_nil tokens) && (protocol == codes "tuic-v4" || is_null (get (codes "users") cfg))
    then tokens
    else tokens ++ from_users o protocol (get (codes "users") cfg)

unfoldable pub credentials_from_listener_config : Outside → Text → Text → List Credential
credentials_from_listener_config o protocol raw =
    if is_blank (trim_space raw) then [] else from_config o protocol (o.unmarshal raw)

-- `boundUsers`, a row at a time.
unfoldable pub bound_users : List ListenerUser → (ℕ → List ℕ) → ℕ → List ℕ
bound_users [] m = m
bound_users (b ∷ bs) m =
    bound_users bs
      (λ l. if l == b.listener_id then m b.listener_id ++ (b.proxy_user_id ∷ []) else m l)

-- `usersByID`, a row at a time.
unfoldable pub users_by_id : List ProxyUser → (ℕ → Option ProxyUser) → ℕ → Option ProxyUser
users_by_id [] m = m
users_by_id (u ∷ us) m = users_by_id us (λ i. if i == u.id then some u else m i)

abbrev pub Result : Type 0
Result = ℕ → Option (List Credential)

-- `result[id] = cs`.
abbrev pub set_entry : ℕ → List Credential → Result → Result
set_entry id cs r = λ l. if l == id then some cs else r l

abbrev pub entry_of : Option (List Credential) → List Credential
entry_of none = []
entry_of (some cs) = cs

-- `result[id] = append(result[id], c)`.
abbrev pub append_entry : ℕ → Credential → Result → Result
append_entry id c r = set_entry id (entry_of (r id) ++ (c ∷ [])) r

abbrev pub add_password : ℕ → ProxyUser → Option Text → Result → Result
add_password id u none r = r
add_password id u (some password) r =
    append_entry id (record { username = u.username; password = password; uuid = u.uuid }) r

abbrev pub add_user : Outside → Time → ℕ → Option ProxyUser → Result → Result
add_user o now id none r = r
add_user o now id (some u) r =
    if is_credential_active now u then add_password id u (o.decrypt u.password_encrypted) r else r

-- The loop over the users bound to a listener.
unfoldable pub add_users : Outside → Time → ℕ → (ℕ → Option ProxyUser) → List ℕ → Result → Result
add_users o now id by_id [] r = r
add_users o now id by_id (i ∷ ids) r = add_users o now id by_id ids (add_user o now id (by_id i) r)

abbrev pub save_config : Listener → M (Unit {0})
save_config l = exec (λ db. record db {
  listeners =
      map_where (λ k. not k.deleted && k.id == l.id) (λ k. record k { config = l.config })
        db.listeners;
})

-- A listener without bindings has the credentials of its own `Config`.
unfoldable pub own_credentials : Outside → Bool → Listener → Result → M Result
unfolding credentials_from_listener_config
own_credentials o ensure_defaults l r =
    (if ensure_defaults then ensure_listener_credentials o l else return l) >>= λ k.
    (if k.config == l.config then return tt else save_config k)
    >> (let cs = credentials_from_listener_config o k.protocol k.config in
        return (if is_nil cs then r else set_entry l.id cs r))

unfoldable pub listener_entry :
    Outside → Bool → Time → (ℕ → List ℕ) → (ℕ → Option ProxyUser) → Listener → Result → M Result
unfolding add_users own_credentials
listener_entry o ensure_defaults now bound by_id l r =
    if is_nil (bound l.id)
    then own_credentials o ensure_defaults l r
    else return (
        add_users o now l.id by_id (bound l.id)
          (if ensure_defaults then r else set_entry l.id [] r))

unfoldable pub listener_entries :
    Outside
    → Bool
    → Time
    → (ℕ → List ℕ)
    → (ℕ → Option ProxyUser)
    → List Listener
    → Result
    → M Result
listener_entries o ensure_defaults now bound by_id [] r = return r
listener_entries o ensure_defaults now bound by_id (l ∷ ls) r =
    listener_entry o ensure_defaults now bound by_id l r
    >>= listener_entries o ensure_defaults now bound by_id ls

abbrev pub user_ids : List ListenerUser → List ℕ
user_ids [] = []
user_ids (b ∷ bs) = b.proxy_user_id ∷ user_ids bs

-- The one query for all bound users; none is sent when there are no bindings.
abbrev pub load_users : List ListenerUser → M (List ProxyUser)
load_users bs =
    if is_nil bs then return [] else select (users_where (λ u. contains (user_ids bs) u.id))

abbrev pub enabled_listeners : Db → List Listener
enabled_listeners db = filter (λ l. not l.deleted && l.enabled) db.listeners

abbrev pub live_bindings : Db → List ListenerUser
live_bindings db = filter (λ b. not b.deleted) db.bindings

unfoldable pub credentials_by_listener : Outside → Bool → Time → M Result
unfolding listener_entries bound_users users_by_id
credentials_by_listener o ensure_defaults now = select enabled_listeners >>= λ ls.
    select live_bindings >>= λ bs. load_users bs >>= λ us.
    listener_entries o ensure_defaults now (bound_users bs (λ l. [])) (users_by_id us (λ i. none))
      ls (λ l. none)
