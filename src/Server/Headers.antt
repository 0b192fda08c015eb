-- ===== src/Server/Headers.antt =====
-- withTracingAndDebug of server.go: which headers of a request reach the handler behind it. The names
-- of headers are canonical, as net/http makes them before a handler runs.
use someguy.Prelude.{
  ◌≡◌, refl, sym, ◌∙◌, inl, inr, ◌⊎◌, true, false, not, ◌||◌, List, [], ◌∷◌, is_empty,
  if◌then◌else◌, arith, Bool-cases,
}
use someguy.Prelude.Bytes.{Bytes, codes, same, same_iff}
use mathlib.Core.Bool.{false≢true}
use someguy.Prelude.Suffix.{same_refl}

-- http.Header: the values of each name, in the order of a list; a name is in it once at most.
abbrev pub Header : Type 0
Header = List (Bytes × List Bytes)

abbrev first_value : List Bytes → Bytes
first_value [] = []
first_value (v ∷ vs) = v

unfoldable pub get : Bytes → Header → Bytes
unfolding same
get name [] = []
get name ((n, vs) ∷ header) =
    let rest = get name header in if same n name then first_value vs else rest

unfoldable pub del : Bytes → Header → Header
unfolding same
del name [] = []
del name ((n, vs) ∷ header) =
    let rest = del name header in if same n name then rest else (n, vs) ∷ rest

abbrev del_if_set : Bytes → Header → Header
del_if_set name header = if not (is_empty (get name header)) then del name header else header

-- The header that the next handler sees.
unfoldable pub with_tracing_and_debug : Bytes → Header → Header
unfolding get del
with_tracing_and_debug auth_token header =
    if is_empty auth_token || not (same (get (codes "Authorization") header) auth_token)
    then del_if_set (codes "Tracestate") (del_if_set (codes "Traceparent") header)
    else header

get-del_same : (name : Bytes) (header : Header) → get name (del name header) ≡ []
unfolding get del
get-del_same name [] = refl
get-del_same name ((n, vs) ∷ header) = ground (arith, get-del_same name header)

get-del_other :
    (name other : Bytes) (header : Header)
    → same name other ≡ false
    → get other (del name header) ≡ get other header
unfolding get del
get-del_other name other [] h = refl
get-del_other name other ((n, vs) ∷ header) h =
    ground (arith, get-del_other name other header, same_iff n name, same_iff n other, same_refl n)

empty_value : (v : Bytes) → is_empty v ≡ true → v ≡ []
empty_value [] h = refl
empty_value (c ∷ v) h = ground arith

get-del_if_set_same : (name : Bytes) (header : Header) → get name (del_if_set name header) ≡ []
get-del_if_set_same name header = elim (Bool-cases (is_empty (get name header))) [
  | inl e ↦ rw e (empty_value (get name header) e)
  | inr e ↦ rw e (get-del_same name header)
]

get-del_if_set_other :
    (name other : Bytes) (header : Header)
    → same name other ≡ false
    → get other (del_if_set name header) ≡ get other header
get-del_if_set_other name other header h = elim (Bool-cases (is_empty (get name header))) [
  | inl e ↦ rw e
  | inr e ↦ rw e (get-del_other name other header h)
]

abbrev pub IsAuthorized : Bytes → Header → Type 0
IsAuthorized auth_token header =
    (is_empty auth_token ≡ false) × (get (codes "Authorization") header ≡ auth_token)

IsAuthorized-cases :
    (auth_token : Bytes) (header : Header)
    → let test =
        is_empty auth_token || not (same (get (codes "Authorization") header) auth_token) in
      (IsAuthorized auth_token header × (test ≡ false))
      ⊎ ((¬ IsAuthorized auth_token header) × (test ≡ true))
IsAuthorized-cases auth_token header = elim (Bool-cases (is_empty auth_token)) [
  | inl e ↦ inr ((λ (n, t). false≢true (sym n ∙ e)), rw e)
  | inr e ↦ elim (Bool-cases (same (get (codes "Authorization") header) auth_token)) [
    | inl t ↦ inl ((e, (same_iff (get (codes "Authorization") header) auth_token).0 t), rw (e, t))
    | inr t ↦ inr (
      (λ (n, q).
          false≢true (sym t ∙ (same_iff (get (codes "Authorization") header) auth_token).1 q)),
      rw (e, t),
    )
  ]
]

-- Without a token, or with another one than the server's, the handler behind reads no Traceparent and
-- no Tracestate, whatever the client sent, and every other header as it was sent. With the
-- server's token it gets the header unchanged.
pub with_tracing_and_debug_lem :
    (auth_token : Bytes) (header : Header) (name : Bytes)
    → same (codes "Traceparent") name ≡ false
    → same (codes "Tracestate") name ≡ false
    → let seen = with_tracing_and_debug auth_token header in
      (IsAuthorized auth_token header × (seen ≡ header))
      ⊎ ((¬ IsAuthorized auth_token header)
          × (get (codes "Traceparent") seen ≡ [])
          × (get (codes "Tracestate") seen ≡ [])
          × (get name seen ≡ get name header))
unfolding with_tracing_and_debug
with_tracing_and_debug_lem auth_token header name p s =
    let without_parent = del_if_set (codes "Traceparent") header in
    elim (IsAuthorized-cases auth_token header) [
      | inl (a, t) ↦ inl (a, rw t)
      | inr (n, t) ↦ inr (
          rw t (
            n,
            get-del_if_set_other (codes "Tracestate") (codes "Traceparent") without_parent refl
                ∙ get-del_if_set_same (codes "Traceparent") header,
            get-del_if_set_same (codes "Tracestate") without_parent,
            get-del_if_set_other (codes "Tracestate") name without_parent s
                ∙ get-del_if_set_other (codes "Traceparent") name header p,
          ))
    ]
