-- ===== src/User/Safe.antt =====
-- What the API shows of an account (backend/internal/user/service_util.go).
use m_ui.Base.{
  ℕ, zero, suc, ◌+◌, ◌-◌, ◌<◌, Bool, not, List, [], ◌∷◌, ◌++◌, Option, ◌≡◌, refl, sym, ap, ◌∙◌,
  if◌then◌else◌, leb, take, drop, length, length-append, Text, codes, arith,
}
use mathlib.Core.List.{append_assoc}
use m_ui.Base.Int.{ℤ}
use m_ui.Clock.{Time}
use m_ui.Models.{ProxyUser}
use m_ui.User.Active.{is_credential_active}

unfoldable pub safe_mask : Text → Text
safe_mask s =
    if leb (length s) 8 then codes "********" else take 4 s ++ codes "..." ++ drop (length s - 4) s

pub record SafeUser : Type 0 where
  pub id : ℕ
  pub username : Text
  pub uuid_masked : Text
  pub traffic_limit : ℤ
  pub traffic_used : ℤ
  pub upload_bytes : ℤ
  pub download_bytes : ℤ
  pub last_seen : Option Time
  pub online : Bool
  pub expire_time : Time
  pub enabled : Bool
  pub blocked : Bool
  pub ip_limit : ℤ
  pub hwid_limit : ℤ
  pub remark : Text
  pub group : Text
  pub tags : Text
  pub traffic_reset_days : ℤ
  pub expire_renew_days : ℤ
  pub start_on_first_use : Bool
  pub expire_days_after_first : ℤ
  pub first_connected_at : Option Time
  pub external_links : Text
  pub last_traffic_cycle_reset : Option Time
  pub sub_token : Text
  pub telegram_id : ℤ
  pub telegram_name : Text

unfoldable pub to_safe_user : Time → ProxyUser → SafeUser
to_safe_user now u = record {
  id = u.id;
  username = u.username;
  uuid_masked = safe_mask u.uuid;
  traffic_limit = u.traffic_limit;
  traffic_used = u.traffic_used;
  upload_bytes = u.upload_bytes;
  download_bytes = u.download_bytes;
  last_seen = u.last_seen;
  online = u.online;
  expire_time = u.expire_time;
  enabled = u.enabled;
  blocked = not (is_credential_active now u);
  ip_limit = u.ip_limit;
  hwid_limit = u.hwid_limit;
  remark = u.remark;
  group = u.group;
  tags = u.tags;
  traffic_reset_days = u.traffic_reset_days;
  expire_renew_days = u.expire_renew_days;
  start_on_first_use = u.start_on_first_use;
  expire_days_after_first = u.expire_days_after_first;
  first_connected_at = u.first_connected_at;
  external_links = u.external_links;
  last_traffic_cycle_reset = u.last_traffic_cycle_reset;
  sub_token = u.sub_token;
  telegram_id = u.telegram_id;
  telegram_name = u.telegram_name;
}

take-append : {A : Type 0} (n : ℕ) (xs ys : List A) → length xs ≡ n → take n (xs ++ ys) ≡ xs
take-append zero [] ys h = refl
take-append zero (x ∷ xs) ys h = absurd (omega (arith, h))
take-append (suc n) [] ys h = absurd (omega (arith, h))
take-append (suc n) (x ∷ xs) ys h = ap (◌∷◌ x) (take-append n xs ys (omega (arith, h)))

drop-append : {A : Type 0} (n : ℕ) (xs ys : List A) → length xs ≡ n → drop n (xs ++ ys) ≡ ys
drop-append zero [] ys h = refl
drop-append zero (x ∷ xs) ys h = absurd (omega (arith, h))
drop-append (suc n) [] ys h = absurd (omega (arith, h))
drop-append (suc n) (x ∷ xs) ys h = drop-append n xs ys (omega (arith, h))

mask_long :
    (s : Text) → 8 < length s → safe_mask s ≡ take 4 s ++ codes "..." ++ drop (length s - 4) s
unfolding safe_mask
mask_long s h = ground arith

-- Of an identifier longer than eight bytes the mask shows the first four and the last four, whatever
-- stands between them.
pub safe_mask-between :
    (front between back : Text)
    → length front ≡ 4
    → length back ≡ 4
    → 0 < length between
    → safe_mask (front ++ (between ++ back)) ≡ front ++ codes "..." ++ back
safe_mask-between front between back hf hb some_between =
    mask_long (front ++ (between ++ back)) (omega (arith, count))
    ∙ ap
        (λ a.
          a
          ++ codes "..."
          ++ drop (length (front ++ (between ++ back)) - 4) (front ++ (between ++ back)))
        (take-append 4 front (between ++ back) hf)
    ∙ ap (λ s. front ++ codes "..." ++ drop (length (front ++ (between ++ back)) - 4) s)
        (sym (append_assoc front between back))
    ∙ ap (λ s. front ++ codes "..." ++ s)
        (drop-append (length (front ++ (between ++ back)) - 4) (front ++ between) back
          (omega (arith, count, length-append front between)))
  where
    count : length (front ++ (between ++ back)) ≡ 8 + length between
    count = omega (arith, length-append front (between ++ back), length-append between back)
