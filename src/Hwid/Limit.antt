-- ===== src/Hwid/Limit.antt =====
-- The device limit holds.
use m_ui.Base.{
  ℕ, suc, ◌≤◌, ◌<◌, Bool, true, false, not, ◌||◌, some, ◌≡◌, ◌≢◌, ◌⊎◌, refl, sym, ap, ◌∙◌, inl, inr,
  if◌then◌else◌, ◌==◌, nat_eq, text_eq, nat_beq_iff, All, arith, subst, Bool-cases,
}
use m_ui.Base.Int.{ℤ, pos, ltb_ℤ, leb_ℤ, ◌<ℤ◌}
use m_ui.Clock.{Time}
use m_ui.Models.{Db, HwidDevice}
use m_ui.Store.{World, Outcome, done, failed, select, exec, first, ignore, is_not_found, after}
use m_ui.Store.Laws.{Post, select-Post, first-Post, after-exec, after-ignore}
use m_ui.User.Ids.{Distinct}
use m_ui.Hwid.{
  DeviceInfo, Headers, find_device, count_devices, refreshed, save_device, create_device,
  within_limit, register_new, reply, register, enforce,
}
use m_ui.Hwid.Counts.{NoTombstones, count-save, count-create, device_ids, found-All}

-- A limit that is set is not reached.
pub record HasRoom (limit : ℤ) (n : ℕ) : Type 0 where
  pub below : pos 0 <ℤ limit → pos n <ℤ limit

-- What a call may do to the number of live devices of any user: nothing, or one more for the user
-- itself, who then had fewer than the limit or has none.
abbrev Grew : ℕ → ℤ → Db → Db → Type 0
Grew user limit before now =
    (u : ℕ)
    → (count_devices u now ≤ count_devices u before)
      ⊎ ((u ≡ user)
          × (count_devices u now ≡ suc (count_devices u before))
          × HasRoom limit (count_devices u before))

unchanged : (user : ℕ) (limit : ℤ) (before now : Db) → now ≡ before → Grew user limit before now
unchanged user limit before now e u = inl (rw e (omega arith))

create-Grew :
    (now : Time) (user : ℕ) (limit : ℤ) (info : DeviceInfo) (before : Db) (w : World)
    → w.db ≡ before
    → HasRoom limit (count_devices user before)
    → Grew user limit before (after (exec (create_device now user info) w)).db
create-Grew now user limit info before w same room =
    elim (after-exec (create_device now user info) w) [
      | inl e ↦ made e
      | inr e ↦ unchanged user limit before _ (e ∙ same)
    ]
  where
    made :
        (after (exec (create_device now user info) w)).db ≡ create_device now user info w.db
        → Grew user limit before (after (exec (create_device now user info) w)).db
    made e u = elim (Bool-cases (user == u)) [
      | inl q ↦
          let one : u ≡ user = sym ((nat_beq_iff user u).0 q) in
          inr (
            one,
            ap (count_devices u) (e ∙ ap (create_device now user info) same)
                ∙ count-create now user u info before
                ∙ ap (λ b. if b then suc (count_devices u before) else count_devices u before) q,
            subst (λ x. HasRoom limit (count_devices x before)) (sym one) room,
          )
      | inr q ↦ inl (
          rw
            (ap (count_devices u) (e ∙ ap (create_device now user info) same)
              ∙ count-create now user u info before
              ∙ ap (λ b. if b then suc (count_devices u before) else count_devices u before) q)
            (omega arith))
    ]

register_new-Grew :
    (now : Time) (user : ℕ) (limit : ℤ) (info : DeviceInfo) (h : Headers) (before : Db) (w : World)
    → w.db ≡ before
    → Grew user limit before (after (register_new now user limit info h w).outcome).db
unfolding register_new
register_new-Grew now user limit info h before w same = elim (Bool-cases (ltb_ℤ (pos 0) limit)) [
  | inl e ↦ rw e (go (select (count_devices user) w) (select-Post (count_devices user) w))
  | inr e ↦ rw e (
      create-Grew now user limit info before w same
        (record { below = λ p. absurd (unlimited p e) }))
]
  where
    unlimited : pos 0 <ℤ limit → ltb_ℤ (pos 0) limit ≡ false → ⊥
    unlimited p h = ground arith

    beneath : (n m : ℕ) → leb_ℤ limit (pos n) ≡ false → n ≡ m → pos m <ℤ limit
    beneath n m h e = rw (← e) (ground arith)

    go :
        (o : Outcome ℕ)
        → Post (λ n v. (n ≡ count_devices user w.db) × (v.db ≡ w.db)) (λ e v. v.db ≡ w.db) o
        → Grew user limit before (after (within_limit now user limit info h o).outcome).db
    go (failed e v) k = unchanged user limit before v.db (k ∙ same)
    go (done n v) k = elim (Bool-cases (leb_ℤ limit (pos n))) [
      | inl full ↦ rw full (unchanged user limit before v.db (k.1 ∙ same))
      | inr room ↦ rw room (
          create-Grew now user limit info before v (k.1 ∙ same) (record {
            below = λ _.
                beneath n (count_devices user before) room (k.0 ∙ ap (count_devices user) same);
          }))
    ]

count_devices-save :
    (now : Time) (u : ℕ) (info : DeviceInfo) (d : HwidDevice) (db : Db)
    → NoTombstones db
    → All (λ x. x.id ≡ d.id → x.proxy_user_id ≡ d.proxy_user_id) db.devices
    → count_devices u (save_device (refreshed now info d) db) ≤ count_devices u db
unfolding save_device refreshed
count_devices-save now u info d db live keys =
    count-save u (refreshed now info d) db.devices live keys

save-Grew :
    (now : Time) (user : ℕ) (limit : ℤ) (info : DeviceInfo) (d : HwidDevice) (before : Db)
    (w : World)
    → NoTombstones before
    → Distinct (device_ids before.devices)
    → find_device user info.hwid before ≡ some d
    → w.db ≡ before
    → Grew user limit before (after (ignore (exec (save_device (refreshed now info d))) w)).db
save-Grew now user limit info d before w live keys found same =
    rw (after-ignore (exec (save_device (refreshed now info d))) w)
      (elim (after-exec (save_device (refreshed now info d)) w) [
        | inl e ↦ λ u. inl (
            rw (e ∙ ap (save_device (refreshed now info d)) same) (
              count_devices-save now u info d before live
                (found-All _ before.devices d keys found)))
        | inr e ↦ unchanged user limit before _ (e ∙ same)
      ])

-- A call changes the number of a user's live devices only by one, only for the user that asks, and
-- with a limit set only if the number was below it.
enforce-Grew :
    (now : Time) (user : ℕ) (limit : ℤ) (info : DeviceInfo) (h : Headers) (w : World)
    → NoTombstones w.db
    → Distinct (device_ids w.db.devices)
    → Grew user limit w.db (after (enforce now user limit info h w).outcome).db
unfolding enforce
enforce-Grew now user limit info h w live keys = elim (Bool-cases (user == 0)) [
  | inl e ↦ rw e (unchanged user limit w.db w.db refl)
  | inr e ↦ rw e (choose info.present)
]
  where
    headers : Headers
    headers = record h { active = h.active || ltb_ℤ (pos 0) limit }

    registered :
        (o : Outcome HwidDevice)
        → Post
            (λ d v. (find_device user info.hwid w.db ≡ some d) × (v.db ≡ w.db))
            (λ e v. v.db ≡ w.db)
            o
        → Grew user limit w.db (after (register now user limit info headers o).outcome).db
    registered (done d v) k = save-Grew now user limit info d w.db v live keys k.0 k.1
    registered (failed x v) k = elim (Bool-cases (is_not_found x)) [
      | inl q ↦ rw q (register_new-Grew now user limit info headers w.db v k)
      | inr q ↦ rw q (unchanged user limit w.db v.db k)
    ]

    choose :
        (b : Bool)
        → Grew user limit w.db
            (after
              (if not b
                then reply
                    (record headers { not_supported = h.not_supported || ltb_ℤ (pos 0) limit })
                    (done tt w)
                else register now user limit info headers
                    (first (find_device user info.hwid) w)).outcome).db
    choose true = registered (first (find_device user info.hwid) w) (first-Post _ w)
    choose false = unchanged user limit w.db w.db refl

-- The limit holds: with a limit `n` above zero, a user with at most `n` live devices has at most
-- `n` after any call. No row is marked as deleted and ids are primary keys.
pub enforce-limit :
    (now : Time) (user n : ℕ) (info : DeviceInfo) (h : Headers) (w : World)
    → NoTombstones w.db
    → Distinct (device_ids w.db.devices)
    → 0 < n
    → count_devices user w.db ≤ n
    → count_devices user (after (enforce now user (pos n) info h w).outcome).db ≤ n
enforce-limit now user n info h w live keys some_limit few =
    own (enforce-Grew now user (pos n) info h w live keys user)
  where
    numbers : (m : ℕ) → pos m <ℤ pos n → m < n
    numbers m p = omega arith

    own :
        (count_devices user (after (enforce now user (pos n) info h w).outcome).db
            ≤ count_devices user w.db)
          ⊎ ((user ≡ user)
              × (count_devices user (after (enforce now user (pos n) info h w).outcome).db
                  ≡ suc (count_devices user w.db))
              × HasRoom (pos n) (count_devices user w.db))
        → count_devices user (after (enforce now user (pos n) info h w).outcome).db ≤ n
    own (inl less) = omega arith
    own (inr (_, one, room)) =
        let free : count_devices user w.db < n =
          numbers (count_devices user w.db) (room.below (omega arith)) in
        omega arith

-- Whatever the limit is, no user but the one that asks gains a device by a call. No row is marked
-- as deleted and ids are primary keys.
pub enforce-others :
    (now : Time) (user : ℕ) (limit : ℤ) (info : DeviceInfo) (h : Headers) (w : World) (u : ℕ)
    → NoTombstones w.db
    → Distinct (device_ids w.db.devices)
    → u ≢ user
    → count_devices u (after (enforce now user limit info h w).outcome).db ≤ count_devices u w.db
enforce-others now user limit info h w u live keys ne =
    elim (enforce-Grew now user limit info h w live keys u) [
      | inl less ↦ less
      | inr (e, _, _) ↦ absurd (ne e)
    ]
