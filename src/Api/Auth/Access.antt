-- ===== src/Api/Auth/Access.antt =====
-- crates/gum-api/src/handlers.rs: which callers the handlers let in.
use Prim.Native.String.{◌++◌ as append}
use Prim.Native.String.append
use gum.Prelude.{
  ◌≡◌, ◌⊎◌, ◌↔◌, inl, inr, refl, ap, sym, subst, ◌&&◌, true, false, some, String, str_eq, eq_iff,
  arith,
}
use gum.Text.{strip_prefix, trim}
use gum.Text.Bytes.{code_inj}
use gum.Api.Auth.{
  check_either, ApiError, Answer, HeaderValue, extract_bearer, require_api_or_admin, is_blank,
}
use gum.Api.Auth.Compare.{constant_time_eq_iff}

strip_prefix-append : (p t : String) → strip_prefix p (append p t) ≡ some t
unfolding strip_prefix
strip_prefix-append String.[] t = ap some (append.nil t)
strip_prefix-append (String.◌∷◌ c p) t =
    rw (append.cons c p t) (ground (arith, strip_prefix-append p t))

append-strip_prefix : (p s t : String) → strip_prefix p s ≡ some t → s ≡ append p t
unfolding strip_prefix
append-strip_prefix String.[] s t h = ground (arith, append.nil t)
append-strip_prefix (String.◌∷◌ c p) String.[] t h = ground arith
append-strip_prefix (String.◌∷◌ c p) (String.◌∷◌ d s) t h =
    let same = code_inj c d (ground arith) in
    let rest = append-strip_prefix p s t (ground arith) in
    rw (append.cons c p t) (λ i. String.◌∷◌ (sym same i) (rest i))

-- The header gives the token.
abbrev pub Bears : HeaderValue → String → Type 0
Bears authorization token = authorization ≡ HeaderValue.text (append "Bearer " token)

-- The key is set, and the header gives it.
abbrev pub Holds : HeaderValue → String → Type 0
Holds authorization key = (is_blank key ≡ false) × Bears authorization key

bearer_of :
    (authorization : HeaderValue) (missing_message invalid_message token : String)
    → extract_bearer authorization missing_message invalid_message ≡ Answer.accepted token
    → Bears authorization token
unfolding extract_bearer
bearer_of HeaderValue.missing missing_message invalid_message token h = ground arith
bearer_of HeaderValue.not_text missing_message invalid_message token h = ground arith
bearer_of (HeaderValue.text value) missing_message invalid_message token h =
    ap HeaderValue.text (append-strip_prefix "Bearer " value token (ground arith))

blank_empty : is_blank "" ≡ true
unfolding is_blank trim
blank_empty = refl

not_empty : (key : String) → is_blank key ≡ false → str_eq key "" ≡ false
not_empty key set = ground (arith, eq_iff key "", blank_empty)

bearer-Holds :
    (authorization : HeaderValue) (missing_message invalid_message key : String)
    → Holds authorization key
    → extract_bearer authorization missing_message invalid_message ≡ Answer.accepted key
unfolding extract_bearer
bearer-Holds authorization missing_message invalid_message key (set, there) =
    rw (there, strip_prefix-append "Bearer " key, not_empty key set) refl

pub Answer-cases :
    {A : Type 0} (answer : Answer A)
    → ((a : A) × (answer ≡ Answer.accepted a)) ⊎ ((e : ApiError) × (answer ≡ Answer.refused e))
Answer-cases (Answer.accepted a) = inl (a, refl)
Answer-cases (Answer.refused e) = inr (e, refl)

check_either_iff :
    (api_key admin_key token : String)
    → (check_either api_key admin_key token ≡ Answer.accepted tt) ↔ (
        ((is_blank api_key ≡ false) × (token ≡ api_key))
        ⊎ ((is_blank admin_key ≡ false) × (token ≡ admin_key)))
unfolding check_either
check_either_iff api_key admin_key token =
    ground (arith, constant_time_eq_iff token api_key, constant_time_eq_iff token admin_key)

-- A call of the API is let in exactly if its `Authorization` header is "Bearer " and the API key or
-- the admin key, where that key is set.
pub require_api_or_admin_iff :
    (api_key admin_key : String) (authorization : HeaderValue)
    → (require_api_or_admin api_key admin_key authorization ≡ Answer.accepted tt)
      ↔ (Holds authorization api_key ⊎ Holds authorization admin_key)
unfolding require_api_or_admin
require_api_or_admin_iff api_key admin_key authorization = (forward, backward)
  where
    no_header : String
    no_header = "missing api authorization"

    no_token : String
    no_token = "invalid api authorization"

    held_by :
        (token key : String)
        → Bears authorization token
        → is_blank key ≡ false
        → token ≡ key
        → Holds authorization key
    held_by token key there set same = (set, subst (Bears authorization) same there)

    checked :
        (token : String)
        → Bears authorization token
        → check_either api_key admin_key token ≡ Answer.accepted tt
        → Holds authorization api_key ⊎ Holds authorization admin_key
    checked token there passed = elim ((check_either_iff api_key admin_key token).0 passed) [
      | inl (set, same) ↦ inl (held_by token api_key there set same)
      | inr (set, same) ↦ inr (held_by token admin_key there set same)
    ]

    forward :
        require_api_or_admin api_key admin_key authorization ≡ Answer.accepted tt
        → Holds authorization api_key ⊎ Holds authorization admin_key
    forward h = elim (Answer-cases (extract_bearer authorization no_header no_token)) [
      | inl (token, given) ↦
          checked token (bearer_of authorization no_header no_token token given) (ground arith)
      | inr (e, refused) ↦ ground arith
    ]

    passes :
        (key : String)
        → Holds authorization key
        → check_either api_key admin_key key ≡ Answer.accepted tt
        → is_blank api_key && is_blank admin_key ≡ false
        → require_api_or_admin api_key admin_key authorization ≡ Answer.accepted tt
    passes key held checks set =
        rw (set, bearer-Holds authorization no_header no_token key held) checks

    backward :
        Holds authorization api_key ⊎ Holds authorization admin_key
        → require_api_or_admin api_key admin_key authorization ≡ Answer.accepted tt
    backward (inl held) =
        passes api_key held ((check_either_iff api_key admin_key api_key).1 (inl (held.0, refl)))
          (ground arith)
    backward (inr held) =
        passes admin_key held
          ((check_either_iff api_key admin_key admin_key).1 (inr (held.0, refl))) (ground arith)
