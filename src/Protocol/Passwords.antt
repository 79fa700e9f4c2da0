-- ===== src/Protocol/Passwords.antt =====
-- Which password opens a compiled listener under which name (protocol/compile.go).
use m_ui.Base.{
  Bool, true, false, not, ◌&&◌, List, [], ◌∷◌, Option, none, some, Text, codes, ◌==◌, text_eq, ◌≡◌,
  refl, ◌∙◌, if◌then◌else◌, Bool-cases, inl, inr, ap, trim_space, arith,
}
use m_ui.Json.{
  Value, null, bool, int, float, str, strs, arr, objs, obj, dict, Pairs, stop, pair, Fields, end,
  field, get, put, get-put,
}
use m_ui.Protocol.Input.{UserCred, is_blank}
use m_ui.Protocol.Users.{
  or_default, cred_map, as_users_map, uuid_key, add_uuid_users, as_users_map_uuid, put_trimmed,
  trimmed_fields, trimmed_pairs, config_uuid_users,
}

-- The last credential that fits gives the password.
abbrev pub last_password : Text → Option Value → List UserCred → Option Value
last_password name old [] = old
last_password name old (c ∷ cs) =
    last_password name (if or_default c.username == name then some (str c.password) else old) cs

get-cred_map :
    (name : Text) (out : Fields) (cs : List UserCred)
    → get name (cred_map out cs) ≡ last_password name (get name out) cs
unfolding cred_map
get-cred_map name out [] = refl
get-cred_map name out (c ∷ cs) =
    get-cred_map name (put (or_default c.username) (str c.password) out) cs
    ∙ rw (get-put (or_default c.username) name (str c.password) out)

-- The core lets in a user of a Hysteria2, AnyTLS or Mieru listener to which users are bound under
-- exactly the names of these users (`default` for a blank one), by the password of the last user of
-- that name; no user of the `Config` is left.
pub get-as_users_map :
    (sprint : Value → Text) (cfg : Fields) (c : UserCred) (cs : List UserCred) (b : Bool)
    (name : Text)
    → get name (as_users_map sprint cfg (c ∷ cs) b) ≡ last_password name none (c ∷ cs)
unfolding as_users_map get
get-as_users_map sprint cfg c cs b name = get-cred_map name end (c ∷ cs)

-- Whether a bound user has the key, and a password.
abbrev pub fits_uuid : Text → UserCred → Bool
fits_uuid k c =
    not (is_blank (trim_space c.password)) && not (is_blank (uuid_key c)) && uuid_key c == k

abbrev pub last_uuid_password : Text → Option Value → List UserCred → Option Value
last_uuid_password k old [] = old
last_uuid_password k old (c ∷ cs) =
    last_uuid_password k (if fits_uuid k c then some (str (trim_space c.password)) else old) cs

get-add_uuid_users :
    (k : Text) (out : Fields) (cs : List UserCred)
    → get k (add_uuid_users out cs) ≡ last_uuid_password k (get k out) cs
unfolding add_uuid_users
get-add_uuid_users k out [] = refl
get-add_uuid_users k out (c ∷ cs) =
    get-add_uuid_users k (next (is_blank (uuid_key c)) (is_blank pass)) cs
    ∙ rw (step (is_blank (uuid_key c)) (is_blank pass))
  where
    pass : Text
    pass = trim_space c.password

    next : Bool → Bool → Fields
    next a b = if a then out else if b then out else put (uuid_key c) (str pass) out

    step :
        (a b : Bool)
        → get k (next a b)
          ≡ (if not b && not a && uuid_key c == k then some (str pass) else get k out)
    step true true = refl
    step true false = refl
    step false true = refl
    step false false = get-put (uuid_key c) k (str pass) out

-- The last entry of the key in a map of the `Config` whose printed value is not blank gives the
-- `Config`'s password, trimmed.
module _ (sprint : Value → Text) where
  abbrev config_entry : Text → Text → Value → Option Value → Option Value
  config_entry k j v old =
      if j == k && not (is_blank (trim_space (sprint v)))
      then some (str (trim_space (sprint v)))
      else old

  abbrev pub last_field : Text → Option Value → Fields → Option Value
  last_field k old end = old
  last_field k old (field j v m) = last_field k (config_entry k j v old) m

  abbrev pub last_pair : Text → Option Value → Pairs → Option Value
  last_pair k old stop = old
  last_pair k old (pair j v m) = last_pair k (config_entry k (sprint j) v old) m

  abbrev pub config_password : Text → Option Value → Option Value
  config_password k (some (obj m)) = last_field k none m
  config_password k (some (dict ps)) = last_pair k none ps
  config_password k _ = none

  get-put_trimmed :
      (k j : Text) (v : Value) (out : Fields)
      → get k (put_trimmed sprint j v out) ≡ config_entry k j v (get k out)
  get-put_trimmed k j v out = elim (Bool-cases (is_blank (trim_space (sprint v)))) [
    | inl blank ↦ rw blank (ground arith)
    | inr given ↦ rw given (get-put j k (str (trim_space (sprint v))) out ∙ ground arith)
  ]

  get-trimmed_fields :
      (k : Text) (out m : Fields) → get k (trimmed_fields sprint out m) ≡ last_field k (get k out) m
  unfolding trimmed_fields
  get-trimmed_fields k out end = refl
  get-trimmed_fields k out (field j v m) =
      get-trimmed_fields k (put_trimmed sprint j v out) m
      ∙ ap (λ o. last_field k o m) (get-put_trimmed k j v out)

  get-trimmed_pairs :
      (k : Text) (out : Fields) (ps : Pairs)
      → get k (trimmed_pairs sprint out ps) ≡ last_pair k (get k out) ps
  unfolding trimmed_pairs
  get-trimmed_pairs k out stop = refl
  get-trimmed_pairs k out (pair j v m) =
      get-trimmed_pairs k (put_trimmed sprint (sprint j) v out) m
      ∙ ap (λ o. last_pair k o m) (get-put_trimmed k (sprint j) v out)

  get-config_uuid_users :
      (k : Text) (o : Option Value) → get k (config_uuid_users sprint o) ≡ config_password k o
  unfolding get
  get-config_uuid_users k none = refl
  get-config_uuid_users k (some (obj m)) = get-trimmed_fields k end m
  get-config_uuid_users k (some (dict ps)) = get-trimmed_pairs k end ps
  get-config_uuid_users k (some null) = refl
  get-config_uuid_users k (some (bool b)) = refl
  get-config_uuid_users k (some (int n)) = refl
  get-config_uuid_users k (some (float t)) = refl
  get-config_uuid_users k (some (str t)) = refl
  get-config_uuid_users k (some (strs ts)) = refl
  get-config_uuid_users k (some (arr xs)) = refl
  get-config_uuid_users k (some (objs ms)) = refl

-- TUIC's users are the union of the `Config`'s users and the bound ones: a key that a bound user has
-- (the UUID, or the name where that is blank) opens with that user's trimmed password, the last one's
-- if several share it; any other key opens with the trimmed password that the map of users in the
-- `Config` has for it, if that is not blank, and with none otherwise.
pub get-as_users_map_uuid :
    (sprint : Value → Text) (cfg : Fields) (cs : List UserCred) (b : Bool) (k : Text)
    → get k (as_users_map_uuid sprint cfg cs b)
      ≡ last_uuid_password k (config_password sprint k (get (codes "users") cfg)) cs
unfolding as_users_map_uuid
get-as_users_map_uuid sprint cfg cs b k =
    get-add_uuid_users k _ cs
    ∙ ap (λ o. last_uuid_password k o cs) (get-config_uuid_users sprint k (get (codes "users") cfg))
