-- ===== src/Utils/Transient.antt =====
-- utils/retry.py: which failed remote calls are worth another attempt.
pub mod Laws
use osm_polygon_wikidata_onl.Prelude.{
  ℕ, zero, suc, ◌≤◌, ◌≡◌, refl, ap, Bool, true, false, ◌&&◌, ◌||◌, not, List, [], ◌∷◌, Option, none,
  some, arith, if◌then◌else◌, contains, nat_eq, any, length,
}

-- The classes that the predicate tells apart. An error number is that of an `OSError` which is none
-- of the classes above it.
pub data Class : Type 0 where
  http_error : ℕ → Class
  content_too_short url_error : Class
  certificate : Class
  gai_error timeout connection : Class
  httpx_timeout httpx_network httpx_proxy httpx_remote_protocol : Class
  os_error : Option ℕ → Class
  other : Class

-- An exception with its `reason` (of a `URLError`), `__cause__` and `__context__`.
mutual
  pub data Exn : Type 0 where
    exn : Class → MaybeExn → MaybeExn → MaybeExn → Exn

  pub data MaybeExn : Type 0 where
    nothing : MaybeExn
    just : Exn → MaybeExn

abbrev pub class_of : Exn → Class
class_of (exn c reason cause context) = c

abbrev or_else : MaybeExn → MaybeExn → MaybeExn
or_else nothing b = b
or_else (just e) b = just e

-- `current.__cause__ or current.__context__`
abbrev pub next_of : Exn → MaybeExn
next_of (exn c reason cause context) = or_else cause context

abbrev pub transient_statuses : List ℕ
transient_statuses = 408 ∷ 425 ∷ 429 ∷ 500 ∷ 502 ∷ 503 ∷ 504 ∷ 520 ∷ 521 ∷ 522 ∷ 523 ∷ 524 ∷ []

-- ECONNABORTED, ECONNREFUSED, ECONNRESET, EHOSTUNREACH, ENETDOWN, ENETRESET, ENETUNREACH, ETIMEDOUT
-- of Linux
abbrev pub transient_errnos : List ℕ
transient_errnos = 103 ∷ 111 ∷ 104 ∷ 113 ∷ 100 ∷ 102 ∷ 101 ∷ 110 ∷ []

abbrev pub max_cause_depth : ℕ
max_cause_depth = 8

-- the loop of `_cause_chain`, over what is left of the depth
abbrev pub chain_from : ℕ → MaybeExn → List Exn
chain_from zero current = []
chain_from (suc depth) nothing = []
chain_from (suc depth) (just e) = e ∷ chain_from depth (next_of e)

unfoldable pub cause_chain : Exn → List Exn
cause_chain e = chain_from max_cause_depth (just e)

abbrev pub is_certificate : Exn → Bool
is_certificate (exn certificate reason cause context) = true
is_certificate (exn _ reason cause context) = false

unfoldable pub has_certificate_error : Exn → Bool
unfolding cause_chain
has_certificate_error e = any is_certificate (cause_chain e)

-- `_is_transient_exception`
abbrev pub is_transient_exception : Class → Bool
is_transient_exception gai_error = true
is_transient_exception timeout = true
is_transient_exception connection = true
is_transient_exception httpx_timeout = true
is_transient_exception httpx_network = true
is_transient_exception httpx_proxy = true
is_transient_exception httpx_remote_protocol = true
is_transient_exception (os_error (some errno)) = contains transient_errnos errno
is_transient_exception _ = false

-- The tests in their order; `of_reason` is the answer for a `URLError`'s reason.
abbrev pub by_class : Class → Bool → Bool
by_class (http_error code) of_reason = contains transient_statuses code
by_class content_too_short of_reason = true
by_class url_error of_reason = of_reason
by_class c of_reason = is_transient_exception c

unfoldable mutual
  unfolding has_certificate_error

  pub is_transient_network_error : Exn → Bool
  is_transient_network_error (exn c reason cause context) =
      if has_certificate_error (exn c reason cause context)
      then false
      else by_class c (is_transient_reason reason)

  pub is_transient_reason : MaybeExn → Bool
  is_transient_reason nothing = false
  is_transient_reason (just e) = is_transient_network_error e

-- The status of a response decides on its own; otherwise some link of the chain must be transient.
unfoldable pub is_transient_failure : Exn → Option ℕ → Bool
unfolding is_transient_network_error cause_chain
is_transient_failure error (some code) = contains transient_statuses code
is_transient_failure error none = any is_transient_network_error (cause_chain error)
