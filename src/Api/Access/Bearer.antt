-- ===== src/Api/Access/Bearer.antt =====
-- Which requests `authorize` lets through.
use Prim.Native.Char.{code}
use Prim.Native.String.{◌++◌ as ◌+++◌}
use text.Mathlib.TextEquality.{Char-path}
use text.Mathlib.TextLemmas.{nil-append, cons-append}
use simple_network_monitor.Prelude.{
  ◌≡◌, ◌∙◌, ◌↔◌, ◌⊎◌, inl, inr, refl, sym, ap, arith, String, Bool, true, ◌==◌, ==_iff, Option,
  none, some, ok, Bool-cases, Option-cases,
}
use simple_network_monitor.Api.Access.{
  Header, absent, unreadable, readable, authorize, strip_prefix, compare_presented,
}

strip_prefix-Glued : (p s r : String) → strip_prefix p s ≡ some r → s ≡ p +++ r
unfolding strip_prefix
strip_prefix-Glued String.[] s r h = (let e : s ≡ r = ground arith in e) ∙ sym (nil-append r)
strip_prefix-Glued (String.◌∷◌ c p) String.[] r h = cc
strip_prefix-Glued (String.◌∷◌ c p) (String.◌∷◌ d s) r h = elim (Bool-cases (code c == code d)) [
  | inl e ↦
      let same = ==_iff (code c) (code d) in
      let rest = strip_prefix-Glued p s r (ground arith) in
      ap (λ x. String.◌∷◌ x s) (sym (Char-path c d (same.0 e)))
      ∙ ap (λ t. String.◌∷◌ c t) rest
      ∙ sym (cons-append c p r)
  | inr e ↦ absurd (ground arith)
]

strip_prefix-append : (p r : String) → strip_prefix p (p +++ r) ≡ some r
unfolding strip_prefix
strip_prefix-append String.[] r = ap some (nil-append r)
strip_prefix-append (String.◌∷◌ c p) r =
    let same = ==_iff (code c) (code c) in
    ap (strip_prefix (String.◌∷◌ c p)) (cons-append c p r)
    ∙ rw (same.1 refl) (strip_prefix-append p r)

authorize_stripped :
    (ct_eq : String → String → Bool) (t v x : String)
    → strip_prefix "Bearer " v ≡ some x
    → ct_eq x t ≡ true
    → authorize ct_eq (some t) (readable v) ≡ ok tt
unfolding authorize
authorize_stripped ct_eq t v x e f = ap (compare_presented ct_eq t) e ∙ rw f refl

-- Where the comparison is equality, a request is let through exactly when no token is configured,
-- or its header is the bearer prefix with the token.
pub authorize-Bearer :
    (ct_eq : String → String → Bool) (token : Option String) (header : Header)
    → ((s t : String) → (ct_eq s t ≡ true) ↔ (s ≡ t))
    → (authorize ct_eq token header ≡ ok tt)
      ↔ ((token ≡ none) ⊎ ((t : String) × (token ≡ some t) × (header ≡ readable ("Bearer " +++ t))))
unfolding authorize
authorize-Bearer ct_eq none header exact = (λ h. inl refl, λ h. refl)
authorize-Bearer ct_eq (some t) absent exact =
    (λ h. cc, λ h. elim h [ inl e ↦ absurd cc | inr (x, e, f) ↦ absurd cc ])
authorize-Bearer ct_eq (some t) unreadable exact =
    (λ h. cc, λ h. elim h [ inl e ↦ absurd cc | inr (x, e, f) ↦ absurd cc ])
authorize-Bearer ct_eq (some t) (readable v) exact = (presented, accepted)
  where
    presented :
        authorize ct_eq (some t) (readable v) ≡ ok tt
        → (some t ≡ none)
          ⊎ ((x : String) × (some t ≡ some x) × (readable v ≡ readable ("Bearer " +++ x)))
    presented h = elim (Option-cases (strip_prefix "Bearer " v)) [
      | inl e ↦ absurd (let w = sym h ∙ ap (compare_presented ct_eq t) e in cc)
      | inr (p, e) ↦ elim (Bool-cases (ct_eq p t)) [
        | inl f ↦ inr (
          t,
          refl,
          ap readable
              (strip_prefix-Glued "Bearer " v p e ∙ ap (λ x. "Bearer " +++ x) ((exact p t).0 f)),
        )
        | inr f ↦ absurd (let w = sym h ∙ ap (compare_presented ct_eq t) e in ground (arith, w))
      ]
    ]

    accepted :
        (some t ≡ none)
          ⊎ ((x : String) × (some t ≡ some x) × (readable v ≡ readable ("Bearer " +++ x)))
        → authorize ct_eq (some t) (readable v) ≡ ok tt
    accepted (inl e) = absurd cc
    accepted (inr (x, e, f)) =
        let token : x ≡ t = cc in
        ap (λ v. authorize ct_eq (some t) v) f
        ∙ authorize_stripped ct_eq t ("Bearer " +++ x) x (strip_prefix-append "Bearer " x)
            ((exact x t).1 token)
