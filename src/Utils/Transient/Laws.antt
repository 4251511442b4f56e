-- ===== src/Utils/Transient/Laws.antt =====
-- Which failed calls are retried: utils/retry.py.
use osm_polygon_wikidata_onl.Prelude.{
  ℕ, zero, suc, ◌≡◌, refl, sym, ◌∙◌, Bool, true, false, none, some, arith, nat_eq, any, [], ◌∷◌,
  contains, ◌<◌, ◌↔◌, ◌≢◌, ◌⊎◌, Bool-cases, inl, inr, if◌then◌else◌,
}
use mathlib.Core.Path.{subst}
use osm_polygon_wikidata_onl.Utils.Transient.{
  Class, http_error, content_too_short, url_error, certificate, gai_error, timeout, connection,
  httpx_timeout, httpx_network, httpx_proxy, httpx_remote_protocol, os_error, other, Exn, MaybeExn,
  exn, nothing, just, class_of, chain_from, cause_chain, is_certificate, has_certificate_error,
  is_transient_network_error, is_transient_reason, is_transient_failure, by_class,
}

-- `Link n e d`: `d` is `n` links below `e`; the next link is the cause, or without a cause the context.
pub data Link : ℕ → Exn → Exn → Type 0 where
  here : {e : Exn} → Link zero e e
  by_cause :
      {n : ℕ} {c : Class} {reason context : MaybeExn} {d e : Exn}
      → Link n d e
      → Link (suc n) (exn c reason (just d) context) e
  by_context :
      {n : ℕ} {c : Class} {reason : MaybeExn} {d e : Exn}
      → Link n d e
      → Link (suc n) (exn c reason nothing (just d)) e

-- No certificate failure is among the first eight links.
abbrev pub Uncertified : Exn → Type 0
Uncertified e = (n : ℕ) (d : Exn) → Link n e d → n < 8 → class_of d ≢ certificate

-- The classes that are an outage by themselves.
abbrev pub is_outage : Class → Bool
is_outage (http_error code) =
    contains (408 ∷ 425 ∷ 429 ∷ 500 ∷ 502 ∷ 503 ∷ 504 ∷ 520 ∷ 521 ∷ 522 ∷ 523 ∷ 524 ∷ []) code
is_outage content_too_short = true
is_outage gai_error = true
is_outage timeout = true
is_outage connection = true
is_outage httpx_timeout = true
is_outage httpx_network = true
is_outage httpx_proxy = true
is_outage httpx_remote_protocol = true
is_outage (os_error (some errno)) =
    contains (103 ∷ 111 ∷ 104 ∷ 113 ∷ 100 ∷ 102 ∷ 101 ∷ 110 ∷ []) errno
is_outage _ = false

-- An exception that is a network outage: of such a class, or an error of a URL whose reason is one; and
-- with no certificate failure.
pub data IsOutage : Exn → Type 0 where
  of_class :
      {c : Class} {reason cause context : MaybeExn}
      → is_outage c ≡ true
      → Uncertified (exn c reason cause context)
      → IsOutage (exn c reason cause context)
  of_reason :
      {e : Exn} {cause context : MaybeExn}
      → IsOutage e
      → Uncertified (exn url_error (just e) cause context)
      → IsOutage (exn url_error (just e) cause context)

module _ (p : Exn → Bool) where
  -- Some link of the chain passes a test.
  HasLink : ℕ → Exn → Type 0
  HasLink k e = (n : ℕ) × (d : Exn) × Link n e d × (n < k) × (p d ≡ true)

  none_found : (k : ℕ) → any p (chain_from k nothing) ≢ true
  none_found zero h = absurd (cc h)
  none_found (suc k) h = absurd (cc h)

  chain-Found : (k : ℕ) (e : Exn) → any p (chain_from k (just e)) ≡ true → HasLink k e
  unfolding HasLink
  chain-Found zero e h = absurd (cc h)
  chain-Found (suc k) (exn c reason nothing nothing) h =
      elim (Bool-cases (p (exn c reason nothing nothing))) [
        | inl t ↦ (0, exn c reason nothing nothing, here, omega arith, t)
        | inr f ↦ absurd (none_found k (ground (arith, h, f)))
      ]
  chain-Found (suc k) (exn c reason (just d) context) h =
      elim (Bool-cases (p (exn c reason (just d) context))) [
        | inl t ↦ (0, exn c reason (just d) context, here, omega arith, t)
        | inr f ↦
            let (n, e, l, lt, t) = chain-Found k d (ground (arith, h, f)) in
            (suc n, e, by_cause l, omega (arith, lt), t)
      ]
  chain-Found (suc k) (exn c reason nothing (just d)) h =
      elim (Bool-cases (p (exn c reason nothing (just d)))) [
        | inl t ↦ (0, exn c reason nothing (just d), here, omega arith, t)
        | inr f ↦
            let (n, e, l, lt, t) = chain-Found k d (ground (arith, h, f)) in
            (suc n, e, by_context l, omega (arith, lt), t)
      ]

  chain_of_Found :
      (k : ℕ) {n : ℕ} {e d : Exn}
      → Link n e d
      → n < k
      → p d ≡ true
      → any p (chain_from k (just e)) ≡ true
  chain_of_Found zero l lt t = absurd (omega (arith, lt))
  chain_of_Found (suc k) here lt t = rw t refl
  chain_of_Found (suc k) (by_cause {c = c} {reason = r} {context = x} {d = d} l) lt t =
      let rest = chain_of_Found k l (omega (arith, lt)) t in ground (arith, rest)
  chain_of_Found (suc k) (by_context {c = c} {reason = r} {d = d} l) lt t =
      let rest = chain_of_Found k l (omega (arith, lt)) t in ground (arith, rest)

is_certificate-class : (d : Exn) → is_certificate d ≡ true → class_of d ≡ certificate
is_certificate-class (exn c reason cause context) h = ground (arith, h)

is_certificate_of_class : (d : Exn) → class_of d ≡ certificate → is_certificate d ≡ true
is_certificate_of_class (exn c reason cause context) h = ground (arith, h)

has_certificate-Uncertified : (e : Exn) → has_certificate_error e ≡ false → Uncertified e
unfolding has_certificate_error cause_chain
has_certificate-Uncertified e h n d l lt k =
    absurd (cc (sym h ∙ chain_of_Found is_certificate 8 l lt (is_certificate_of_class d k)))

has_certificate_of_Uncertified : (e : Exn) → Uncertified e → has_certificate_error e ≡ false
unfolding has_certificate_error cause_chain HasLink
has_certificate_of_Uncertified e u = elim (Bool-cases (has_certificate_error e)) [
  | inr f ↦ f
  | inl t ↦
      let (n, d, l, lt, k) = chain-Found is_certificate 8 e t in
      absurd (u n d l lt (is_certificate-class d k))
]

neither_true : (a b : Bool) → (if a then false else b) ≡ true → (a ≡ false) × (b ≡ true)
neither_true true b h = absurd (cc h)
neither_true false b h = (refl, h)

-- What is not certified failed, and what the tests by class say then.
parts :
    (c : Class) (reason cause context : MaybeExn)
    → is_transient_network_error (exn c reason cause context) ≡ true
    → Uncertified (exn c reason cause context) × (by_class c (is_transient_reason reason) ≡ true)
unfolding is_transient_network_error
parts c reason cause context h =
    let both = neither_true (has_certificate_error (exn c reason cause context)) _ h in
    (has_certificate-Uncertified (exn c reason cause context) both.0, both.1)

together :
    (c : Class) (reason cause context : MaybeExn)
    → Uncertified (exn c reason cause context)
    → by_class c (is_transient_reason reason) ≡ true
    → is_transient_network_error (exn c reason cause context) ≡ true
unfolding is_transient_network_error
together c reason cause context u h =
    rw (has_certificate_of_Uncertified (exn c reason cause context) u) h

by_class-is_outage :
    (c : Class) (answer : Bool)
    → by_class c answer ≡ true
    → (is_outage c ≡ true) ⊎ ((c ≡ url_error) × (answer ≡ true))
by_class-is_outage url_error answer h = inr (refl, h)
by_class-is_outage (http_error code) answer h = inl h
by_class-is_outage content_too_short answer h = inl h
by_class-is_outage gai_error answer h = inl h
by_class-is_outage timeout answer h = inl h
by_class-is_outage connection answer h = inl h
by_class-is_outage httpx_timeout answer h = inl h
by_class-is_outage httpx_network answer h = inl h
by_class-is_outage httpx_proxy answer h = inl h
by_class-is_outage httpx_remote_protocol answer h = inl h
by_class-is_outage certificate answer h = inl h
by_class-is_outage other answer h = inl h
by_class-is_outage (os_error none) answer h = inl h
by_class-is_outage (os_error (some errno)) answer h = inl h

by_class_of_is_outage : (c : Class) (answer : Bool) → is_outage c ≡ true → by_class c answer ≡ true
by_class_of_is_outage url_error answer h = absurd (cc h)
by_class_of_is_outage (http_error code) answer h = h
by_class_of_is_outage content_too_short answer h = h
by_class_of_is_outage gai_error answer h = h
by_class_of_is_outage timeout answer h = h
by_class_of_is_outage connection answer h = h
by_class_of_is_outage httpx_timeout answer h = h
by_class_of_is_outage httpx_network answer h = h
by_class_of_is_outage httpx_proxy answer h = h
by_class_of_is_outage httpx_remote_protocol answer h = h
by_class_of_is_outage certificate answer h = h
by_class_of_is_outage other answer h = h
by_class_of_is_outage (os_error none) answer h = h
by_class_of_is_outage (os_error (some errno)) answer h = h

transient-IsOutage : (e : Exn) → is_transient_network_error e ≡ true → IsOutage e
unfolding is_transient_reason
transient-IsOutage (exn c nothing cause context) h =
    let (u, by) = parts c nothing cause context h in
    elim (by_class-is_outage c false by) [
      | inl o ↦ of_class o u
      | inr (same, never) ↦ absurd (cc never)
    ]
transient-IsOutage (exn c (just e) cause context) h =
    let (u, by) = parts c (just e) cause context h in
    let inner = transient-IsOutage e in
    elim (by_class-is_outage c (is_transient_network_error e) by) [
      | inl o ↦ of_class o u
      | inr (same, holds) ↦
          subst
            (λ k.
              Uncertified (exn k (just e) cause context) → IsOutage (exn k (just e) cause context))
            (sym same) (of_reason (inner holds)) u
    ]

transient_of_IsOutage : (e : Exn) → IsOutage e → is_transient_network_error e ≡ true
unfolding is_transient_reason
transient_of_IsOutage (exn c reason cause context) (of_class o u) =
    together c reason cause context u (by_class_of_is_outage c (is_transient_reason reason) o)
transient_of_IsOutage (exn url_error (just e) cause context) (of_reason o u) =
    together url_error (just e) cause context u (transient_of_IsOutage e o)

-- Without a response, a failed call is retried exactly if one of the first eight links of its exception is a
-- network outage. The next link is the cause, or without a cause the context; an outage is an exception of
-- one of the listed classes, HTTP statuses and error numbers, or an error of a URL whose reason is an
-- outage, and has no certificate failure among its own first eight links. So a certificate failure above an
-- outage does not stop the retry.
pub is_transient_failure_iff :
    (e : Exn)
    → (is_transient_failure e none ≡ true)
      ↔ ((n : ℕ) × (d : Exn) × Link n e d × (n < 8) × IsOutage d)
unfolding is_transient_failure cause_chain HasLink
is_transient_failure_iff e = (
  λ h.
      let (n, d, l, lt, t) = chain-Found is_transient_network_error 8 e h in
      (n, d, l, lt, transient-IsOutage d t),
  λ found.
      let (n, d, l, lt, o) = found in
      chain_of_Found is_transient_network_error 8 l lt (transient_of_IsOutage d o),
)
