-- ===== src/Protocol/Passthrough.antt =====
-- The keys of a listener's `Config` that reach the core unchanged (`copyConfigPassthrough` and the
-- compilers of protocol/compile_modules.go).
use m_ui.Base.{
  Bool, true, false, not, List, [], ◌∷◌, Option, none, some, Text, codes, ◌==◌, text_eq, contains,
  ◌≡◌, refl, ◌∙◌, if◌then◌else◌, arith, Bool-cases, inl, inr, beq-eq, beq_refl, sym, subst,
}
use m_ui.Base.Result.{ok}
use m_ui.Json.{Value, Fields, end, field, get, put, get-put}
use m_ui.Protocol.Input.{CompileInput, base_map, managed_keys, is_skipped, copy_config_passthrough}
use m_ui.Protocol.Compile.{Registry, compile}
use m_ui.Protocol.Keep.{Apart, compile_keep}
use m_ui.Protocol.Fixed.{base_map_row, row_fields-absent}

-- A Go map has a key once.
abbrev pub HasUniqueKeys : Fields → Type 0
HasUniqueKeys end = Unit
HasUniqueKeys (field k v m) = (get k m ≡ none) × HasUniqueKeys m

abbrev pub or_else : Option Value → Option Value → Option Value
or_else none o = o
or_else (some v) o = some v

or_else-none : (o p : Option Value) → p ≡ none → or_else o p ≡ o
or_else-none none p h = h
or_else-none (some v) p h = refl

pub get-copy_kept :
    (skip : List Text) (k : Text) (dst cfg : Fields)
    → is_skipped skip k ≡ false
    → HasUniqueKeys cfg
    → get k (copy_config_passthrough dst cfg skip) ≡ or_else (get k cfg) (get k dst)
unfolding copy_config_passthrough get
get-copy_kept skip k dst end h u = refl
get-copy_kept skip k dst (field j v cfg) h u = elim (Bool-cases (j == k)) [
  | inl same ↦
      let e = beq-eq j k same in
      rw same (
        subst
          (λ i.
            get k
              (copy_config_passthrough (if is_skipped skip i then dst else put i v dst) cfg skip)
            ≡ some v)
          (sym e)
          (rw h (
            get-copy_kept skip k (put k v dst) cfg h u.1
            ∙ rw (subst (λ i. get i cfg ≡ none) e u.0, get-put k k v dst, beq_refl k))))
  | inr other ↦ rw other (
      get-copy_kept skip k (if is_skipped skip j then dst else put j v dst) cfg h u.1
      ∙ rw (unchanged other (is_skipped skip j)))
]
  where
    unchanged : (j == k) ≡ false → (b : Bool) → get k (if b then dst else put j v dst) ≡ get k dst
    unchanged g true = refl
    unchanged g false = rw (get-put j k v dst, g)

-- The keys that a protocol's compiler may set by itself.
abbrev pub touched : List Text
touched =
    codes "type"
    ∷ codes "udp"
    ∷ codes "tls"
    ∷ codes "users"
    ∷ codes "password"
    ∷ codes "token"
    ∷ codes "alpn"
    ∷ codes "congestion-controller"
    ∷ codes "network"
    ∷ []

untouched-Apart : Apart (λ k. not (contains touched k))
untouched-Apart = record {
  kind_key = refl;
  udp = refl;
  tls = refl;
  users = refl;
  password = refl;
  token = refl;
  alpn = refl;
  controller = refl;
  network = refl;
}

base_map-unmanaged :
    (in' : CompileInput) (k : Text) → contains managed_keys k ≡ false → get k (base_map in') ≡ none
unfolding managed_keys
base_map-unmanaged in' k h =
    let p : Text → Bool = λ j. not (contains managed_keys j) in
    let g : p k ≡ true = ground (arith, h) in
    base_map_row p k in' g refl refl refl ∙ row_fields-absent p k in' g refl refl refl refl

-- Every other key of the `Config` reaches the core with its value, whichever protocol the listener is
-- for: a key that is neither the panel's nor a client's, and that no compiler sets by itself.
pub compile-passthrough :
    (sprint : Value → Text) (token : Text) (r : Registry) (in' : CompileInput) (m : Fields)
    (k : Text)
    → compile sprint token r in' ≡ ok m
    → HasUniqueKeys in'.config
    → is_skipped managed_keys k ≡ false
    → contains touched k ≡ false
    → get k m ≡ get k in'.config
unfolding is_skipped
compile-passthrough sprint token r in' m k e u h g =
    compile_keep (λ j. not (contains touched j)) k (ground (arith, g)) untouched-Apart sprint token
      r in' m e
    ∙ get-copy_kept managed_keys k (base_map in') in'.config h u
    ∙ or_else-none (get k in'.config) _ (base_map-unmanaged in' k (ground (arith, h)))
