-- ===== src/Protocol/Fixed.antt =====
-- Which fields of the compiled listener come from the panel's row, and which from its `Config`
-- (protocol/compile.go, protocol/compile_modules.go).
use m_ui.Base.{
  Bool, true, false, ◌||◌, List, [], ◌∷◌, none, some, Text, codes, ◌==◌, text_eq, contains, ◌≡◌,
  refl, ◌∙◌, if◌then◌else◌, arith, Bool-cases, inl, inr, beq_refl, to_lower, has_prefix,
}
use m_ui.Base.Int.{pos, ltb_ℤ}
use m_ui.Base.Result.{ok}
use m_ui.Json.{Value, str, Fields, end, get, put, get-put, get-put_other}
use m_ui.Protocol.Input.{
  CompileInput, base_map, managed_keys, is_skipped, client_only_listener_key, put_text, is_blank,
}
use m_ui.Protocol.Compile.{Registry, compile}
use m_ui.Protocol.Keep.{Apart, get-copy_skipped, compile_keep}

-- The keys that are for a client or for the panel alone.
abbrev pub is_withheld : Text → Bool
is_withheld k =
    has_prefix (codes "_") k
    || k == codes "access_profile"
    || k == codes "transport_layer"
    || k == codes "security_layer"
    || client_only_listener_key k

abbrev pub owned : List Text
owned =
    codes "name"
    ∷ codes "port"
    ∷ codes "listen"
    ∷ codes "proxy"
    ∷ codes "rule"
    ∷ codes "routing-mark"
    ∷ []

-- The keys that a `Config` cannot set.
abbrev is_fixed : Text → Bool
is_fixed k = contains owned k || is_withheld k

is_fixed-Apart : Apart is_fixed
unfolding client_only_listener_key
is_fixed-Apart = record {
  kind_key = refl;
  udp = refl;
  tls = refl;
  users = refl;
  password = refl;
  token = refl;
  alpn = refl;
  controller = refl;
  network = refl;
}

owned-managed : (k : Text) → contains owned k ≡ true → contains managed_keys k ≡ true
unfolding managed_keys
owned-managed k h = ground (arith, h)

withheld-is_skipped :
    (skip : List Text) (k : Text) → is_withheld k ≡ true → is_skipped skip k ≡ true
unfolding is_skipped
withheld-is_skipped skip k h = elim (Bool-cases (contains skip k)) [
  | inl listed ↦ rw listed refl
  | inr other ↦ rw other h
]

is_fixed-is_skipped : (k : Text) → is_fixed k ≡ true → is_skipped managed_keys k ≡ true
unfolding is_skipped
is_fixed-is_skipped k h = elim (Bool-cases (contains owned k)) [
  | inl fixed ↦ rw (owned-managed k fixed) refl
  | inr other ↦ withheld-is_skipped managed_keys k (rw other at h)
]

-- Whatever the `Config` says, these keys are as the panel's row has them.
get-compile_fixed :
    (sprint : Value → Text) (token : Text) (r : Registry) (in' : CompileInput) (m : Fields)
    (k : Text)
    → compile sprint token r in' ≡ ok m
    → is_fixed k ≡ true
    → get k m ≡ get k (base_map in')
get-compile_fixed sprint token r in' m k e h =
    compile_keep is_fixed k h is_fixed-Apart sprint token r in' m e
    ∙ get-copy_skipped managed_keys k (base_map in') in'.config (is_fixed-is_skipped k h)

abbrev pub put_rule : CompileInput → Fields → Fields
put_rule in' m = put_text (codes "rule") in'.rule (put_text (codes "proxy") in'.proxy m)

abbrev pub row_fields : CompileInput → Fields
row_fields in' = put (codes "listen") (str in'.listen) (
    put (codes "port") in'.port
      (put (codes "type") (str (to_lower in'.protocol)) (put (codes "name") (str in'.name) end)))

put_text_keep :
    (p : Text → Bool) (k j s : Text) (m : Fields)
    → p k ≡ true
    → p j ≡ false
    → get k (put_text j s m) ≡ get k m
put_text_keep p k j s m h g = elim (Bool-cases (is_blank s)) [
  | inl blank ↦ rw blank
  | inr given ↦ rw given (get-put_other p k j (str s) m h g)
]

put_text_lem :
    (k s : Text) (m : Fields)
    → get k m ≡ none
    → get k (put_text k s m) ≡ (if is_blank s then none else some (str s))
put_text_lem k s m h = elim (Bool-cases (is_blank s)) [
  | inl blank ↦ rw blank h
  | inr given ↦ rw given (rw (get-put k k (str s) m, beq_refl k))
]

base_map_unmarked :
    (p : Text → Bool) (k : Text) (in' : CompileInput)
    → p k ≡ true
    → p (codes "routing-mark") ≡ false
    → get k (base_map in') ≡ get k (put_rule in' (row_fields in'))
unfolding base_map
base_map_unmarked p k in' h g = elim (Bool-cases (ltb_ℤ (pos 0) in'.routing_mark)) [
  | inl marked ↦ rw marked (get-put_other p k (codes "routing-mark") _ _ h g)
  | inr plain ↦ rw plain
]

put_rule_keep :
    (p : Text → Bool) (k : Text) (in' : CompileInput) (m : Fields)
    → p k ≡ true
    → p (codes "rule") ≡ false
    → p (codes "proxy") ≡ false
    → get k (put_rule in' m) ≡ get k m
put_rule_keep p k in' m h g f =
    put_text_keep p k (codes "rule") in'.rule _ h g
    ∙ put_text_keep p k (codes "proxy") in'.proxy m h f

-- A key other than the three optional ones.
pub base_map_row :
    (p : Text → Bool) (k : Text) (in' : CompileInput)
    → p k ≡ true
    → p (codes "routing-mark") ≡ false
    → p (codes "rule") ≡ false
    → p (codes "proxy") ≡ false
    → get k (base_map in') ≡ get k (row_fields in')
base_map_row p k in' h g f e =
    base_map_unmarked p k in' h g ∙ put_rule_keep p k in' (row_fields in') h f e

pub row_fields-absent :
    (p : Text → Bool) (k : Text) (in' : CompileInput)
    → p k ≡ true
    → p (codes "listen") ≡ false
    → p (codes "port") ≡ false
    → p (codes "type") ≡ false
    → p (codes "name") ≡ false
    → get k (row_fields in') ≡ none
unfolding get
row_fields-absent p k in' h a b c d =
    get-put_other p k (codes "listen") _ _ h a
    ∙ get-put_other p k (codes "port") _ _ h b
    ∙ get-put_other p k (codes "type") _ _ h c
    ∙ get-put_other p k (codes "name") _ _ h d

base_map-withheld :
    (in' : CompileInput) (k : Text) → is_withheld k ≡ true → get k (base_map in') ≡ none
unfolding client_only_listener_key
base_map-withheld in' k h =
    base_map_row is_withheld k in' h refl refl refl
    ∙ row_fields-absent is_withheld k in' h refl refl refl refl

-- A compiled listener has none of the keys that are meant for clients (`sni`, `encryption`,
-- `plugin`, …) and none of the panel's own (`access_profile`, keys that begin with `_`, …), whichever
-- protocol it is for and whatever its `Config` holds.
pub compile-withheld :
    (sprint : Value → Text) (token : Text) (r : Registry) (in' : CompileInput) (m : Fields)
    (k : Text)
    → compile sprint token r in' ≡ ok m
    → is_withheld k ≡ true
    → get k m ≡ none
compile-withheld sprint token r in' m k e h =
    get-compile_fixed sprint token r in' m k e (ground (arith, h)) ∙ base_map-withheld in' k h

-- The name, the address, the port, the proxy and the rule of a compiled listener are those of the
-- panel's row, whichever protocol it is for and whatever its `Config` says about these keys: `proxy`
-- and `rule` are absent where the row leaves them blank.
pub compile-owned :
    (sprint : Value → Text) (token : Text) (r : Registry) (in' : CompileInput) (m : Fields)
    → compile sprint token r in' ≡ ok m
    → (get (codes "name") m ≡ some (str in'.name))
      × (get (codes "listen") m ≡ some (str in'.listen))
      × (get (codes "port") m ≡ some in'.port)
      × (get (codes "proxy") m ≡ (if is_blank in'.proxy then none else some (str in'.proxy)))
      × (get (codes "rule") m ≡ (if is_blank in'.rule then none else some (str in'.rule)))
unfolding get put client_only_listener_key
compile-owned sprint token r in' m e = (
  fixed (codes "name") refl ∙ base_map_row (λ k. k == codes "name") _ in' refl refl refl refl,
  fixed (codes "listen") refl ∙ base_map_row (λ k. k == codes "listen") _ in' refl refl refl refl,
  fixed (codes "port") refl ∙ base_map_row (λ k. k == codes "port") _ in' refl refl refl refl,
  fixed (codes "proxy") refl
      ∙ base_map_unmarked (λ k. k == codes "proxy") _ in' refl refl
      ∙ put_text_keep (λ k. k == codes "proxy") _ (codes "rule") in'.rule _ refl refl
      ∙ put_text_lem (codes "proxy") in'.proxy (row_fields in') refl,
  fixed (codes "rule") refl
      ∙ base_map_unmarked (λ k. k == codes "rule") _ in' refl refl
      ∙ put_text_lem (codes "rule") in'.rule _ (
          put_text_keep (λ k. k == codes "rule") _ (codes "proxy") in'.proxy (row_fields in') refl
            refl),
)
  where
    fixed : (k : Text) → is_fixed k ≡ true → get k m ≡ get k (base_map in')
    fixed k h = get-compile_fixed sprint token r in' m k e h
