-- ===== src/App/Filters/Keys.antt =====
-- app/filters.rs, `split_filter_key`: how a key of a filter splits, and what it is glued of.
use Prim.Native.Char.{Char, code}
use Prim.Native.String.{◌++◌ as ◌+++◌}
use text.Mathlib.TextLemmas.{nil-append, cons-append}
use mathlib.Core.Path.{subst}
use simple_network_monitor.Prelude.{
  ◌≡◌, ◌∙◌, ◌↔◌, refl, sym, ap, inl, inr, String, true, false, ◌||◌, some, arith, ok, Bool-cases,
  Option-cases,
}
use simple_network_monitor.App.Filters.{
  namespaced, is_dot, contains_dot, split_once, split_filter_key, is_text_empty,
}

-- A text is two parts around a dot, the first of which has none.
pub record Glued (key ns k : String) : Type 0 where
  pub dot : Char
  pub is_a_dot : is_dot (code dot) ≡ true
  pub whole : key ≡ ns +++ (String.◌∷◌ dot k)
  pub first : contains_dot ns ≡ false

split_once-Glued : (key ns k : String) → split_once key ≡ some (ns, k) → Glued key ns k
unfolding split_once
split_once-Glued String.[] ns k e = cc
split_once-Glued (String.◌∷◌ c s) ns k e = elim (Bool-cases (is_dot (code c))) [
  | inl d ↦
      let parts : ◌≡◌ {A = String × String} ("", s) (ns, k) = ground arith in
      let before : ns ≡ "" = sym (ap (λ p. p.0) parts) in
      let after : k ≡ s = sym (ap (λ p. p.1) parts) in
      record {
        dot = c;
        is_a_dot = d;
        whole = rw (before, after) (sym (nil-append (String.◌∷◌ c s)));
        first = rw before refl;
      }
  | inr d ↦ elim (Option-cases (split_once s)) [
    | inl f ↦ absurd (ground arith)
    | inr (p, f) ↦
        let parts : ◌≡◌ {A = String × String} (String.◌∷◌ c p.0, p.1) (ns, k) = ground arith in
        let rest = split_once-Glued s p.0 p.1 f in
        let before : ns ≡ String.◌∷◌ c p.0 = sym (ap (λ q. q.0) parts) in
        let after : k ≡ p.1 = sym (ap (λ q. q.1) parts) in
        let front = rest.first in
        record {
          dot = rest.dot;
          is_a_dot = rest.is_a_dot;
          whole =
              rw (before, after)
                (ap (λ t. String.◌∷◌ c t) rest.whole
                  ∙ sym (cons-append c p.0 (String.◌∷◌ rest.dot p.1)));
          first = rw before (rw d front);
        }
  ]
]

split_once_around :
    (ns k : String) (dot : Char)
    → is_dot (code dot) ≡ true
    → contains_dot ns ≡ false
    → split_once (ns +++ (String.◌∷◌ dot k)) ≡ some (ns, k)
unfolding split_once
split_once_around String.[] k dot d e = rw (nil-append (String.◌∷◌ dot k), d) refl
split_once_around (String.◌∷◌ c s) k dot d e =
    let head : is_dot (code c) ≡ false = ground arith in
    rw (cons-append c s (String.◌∷◌ dot k), head, split_once_around s k dot d (ground arith)) refl

-- A key is taken for a namespaced one, with a given namespace and rest, exactly when it is the two
-- around a dot, neither of them is empty, and neither has a dot.
pub split_filter_key-IsGlue :
    (key ns k : String)
    → (split_filter_key key ≡ ok (namespaced ns k))
      ↔ (Glued key ns k × ((is_text_empty ns || is_text_empty k || contains_dot k) ≡ false))
unfolding split_filter_key
split_filter_key-IsGlue key ns k = (
  λ e. elim (Option-cases (split_once key)) [
    | inl f ↦ absurd (ground arith)
    | inr (p, f) ↦ elim (Bool-cases (is_text_empty p.0 || is_text_empty p.1 || contains_dot p.1)) [
      | inl b ↦ absurd (ground arith)
      | inr b ↦
          let same : namespaced p.0 p.1 ≡ namespaced ns k = ground arith in
          let before : p.0 ≡ ns = cc same in
          let after : p.1 ≡ k = cc same in
          rw (← before, ← after) (split_once-Glued key p.0 p.1 f, b)
    ]
  ],
  λ (g, b).
      let f =
        subst (λ t. split_once t ≡ some (ns, k)) (sym g.whole)
          (split_once_around ns k g.dot g.is_a_dot g.first) in
      rw (split_filter_key, f, b) refl,
)
