-- ===== src/Protocol/Legacy.antt =====
-- Listeners of the legacy kind `tuic` that have a token (protocol/compile_modules.go).
use m_ui.Base.{
  true, List, [], ◌∷◌, none, some, Text, codes, ◌==◌, text_eq, ◌≡◌, refl, ◌∙◌, any?, arith,
}
use m_ui.Json.{
  Value, null, bool, int, float, str, strs, arr, objs, obj, dict, Items, nil, cons, Fields, get,
}
use m_ui.Credentials.{token_non_empty, is_set, some_set}
use m_ui.Protocol.Input.{CompileInput}
use m_ui.Protocol.Tokens.{all_string_tokens, trimmed, trimmed_items}
use m_ui.Protocol.Compile.{tuic_started, tuic_compile, is_v4, has_tokens}
use m_ui.Protocol.Passthrough.{HasUniqueKeys}
use m_ui.Protocol.Auth.{get-tuic_compile, tuic_auth_v4, tuic_started-users, tuic_started-token}
use m_ui.Protocol.Agree.{text_list, item_list, started_list}

trimmed-set : (ss : List Text) → any? is_set ss ≡ true → has_tokens (trimmed ss) ≡ true
unfolding trimmed
trimmed-set [] h = cc h
trimmed-set (s ∷ ss) h = ground (arith, trimmed-set ss, h)

trimmed_items-set : (xs : Items) → some_set xs ≡ true → has_tokens (trimmed_items xs) ≡ true
unfolding trimmed_items
trimmed_items-set nil h = cc h
trimmed_items-set (cons (str s) xs) h = ground (arith, trimmed_items-set xs, h)
trimmed_items-set (cons null xs) h = trimmed_items-set xs h
trimmed_items-set (cons (bool b) xs) h = trimmed_items-set xs h
trimmed_items-set (cons (int n) xs) h = trimmed_items-set xs h
trimmed_items-set (cons (float t) xs) h = trimmed_items-set xs h
trimmed_items-set (cons (strs ss) xs) h = trimmed_items-set xs h
trimmed_items-set (cons (arr ys) xs) h = trimmed_items-set xs h
trimmed_items-set (cons (objs ms) xs) h = trimmed_items-set xs h
trimmed_items-set (cons (obj m) xs) h = trimmed_items-set xs h
trimmed_items-set (cons (dict ps) xs) h = trimmed_items-set xs h

v4_started :
    (m : Fields)
    → get (codes "users") m ≡ none
    → has_tokens (all_string_tokens (get (codes "token") m)) ≡ true
    → is_v4 (codes "tuic") m ≡ true
unfolding is_v4
v4_started m g b = rw (g, b)

module _ (sprint : Value → Text) (token : Text) (in' : CompileInput)
    (u : HasUniqueKeys in'.config) where
  started_tokens :
      (v : Value)
      → get (codes "token") in'.config ≡ some v
      → token_non_empty (some v) ≡ true
      → has_tokens (all_string_tokens (get (codes "token") (tuic_started sprint token in'))) ≡ true
  unfolding all_string_tokens token_non_empty trimmed
  started_tokens (str t) h set =
      rw (tuic_started-token sprint token in' t u h) (trimmed-set (t ∷ []) (ground (arith, set)))
  started_tokens (strs ss) h set =
      rw (started_list sprint token in' (strs ss) (text_list ss) u h) (trimmed-set ss set)
  started_tokens (arr xs) h set =
      rw (started_list sprint token in' (arr xs) (item_list xs) u h) (trimmed_items-set xs set)
  started_tokens null h set = cc set
  started_tokens (bool b) h set = cc set
  started_tokens (int n) h set = cc set
  started_tokens (float t) h set = cc set
  started_tokens (objs ms) h set = cc set
  started_tokens (obj m) h set = cc set
  started_tokens (dict ps) h set = cc set

  -- A listener of the legacy kind `tuic` whose `Config` has a token that is not blank, as one text or
  -- in a list, compiles to a listener without users, whatever users its `Config` has and whatever
  -- users are bound to it. The keys of the `Config` are distinct.
  pub tuic_compile-legacy :
      (v : Value)
      → get (codes "token") in'.config ≡ some v
      → token_non_empty (some v) ≡ true
      → get (codes "users") (tuic_compile sprint token (codes "tuic") in') ≡ none
  tuic_compile-legacy v h set =
      get-tuic_compile sprint token in' (λ k. k == codes "users") _ (codes "tuic") refl refl refl
      ∙ (tuic_auth_v4 sprint token in' (codes "tuic") (tuic_started sprint token in')
          (v4_started _ (tuic_started-users sprint token in') (started_tokens v h set))).0
