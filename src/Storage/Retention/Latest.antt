-- ===== src/Storage/Retention/Latest.antt =====
-- The latest row of a host in a history, and in what is kept of that history.
use mathlib.Core.Path.{subst}
use simple_network_monitor.Prelude.{
  ◌≡◌, ◌≤◌, ◌<◌, ◌⊎◌, ap, ◌∙◌, refl, inl, inr, String, Bool, true, false, ◌&&◌, Option, none, some,
  List, [], ◌∷◌, arith, leb, ltb, str_eq, retain, All, Bool-cases, if◌then◌else◌,
}
use simple_network_monitor.Domain.Clock.{DateTime}
use simple_network_monitor.Domain.Inactivity.{UsageRow, replaces, better, latest_row}
use simple_network_monitor.Storage.Retention.{better_anchor, anchor}

abbrev meets : String → DateTime → UsageRow → Bool
meets host t r = str_eq r.host_id host && leb r.collected_at t

better-outside :
    (host : String) (t : DateTime) (best : Option UsageRow) (r : UsageRow)
    → meets host t r ≡ false
    → better host t best r ≡ best
unfolding better
better-outside host t best r e = ground arith

better-inside :
    (host : String) (t : DateTime) (best : Option UsageRow) (r : UsageRow)
    → meets host t r ≡ true
    → better host t best r ≡ (if replaces r best then some r else best)
unfolding better
better-inside host t best r e = ground arith

-- A property of the rows is one of the better row.
better-All :
    (P : UsageRow → Type 0) (host : String) (t : DateTime) (best : Option UsageRow) (r b : UsageRow)
    → ((c : UsageRow) → best ≡ some c → P c)
    → P r
    → better host t best r ≡ some b
    → P b
unfolding better
better-All P host t best r b p q f =
    elim (Bool-cases (str_eq r.host_id host && leb r.collected_at t && replaces r best)) [
      | inl taken ↦ let same : r ≡ b = ground arith in subst P same q
      | inr kept ↦ p b (ground arith)
    ]

-- A property of the rows is one of the latest row.
pub latest_row-All :
    (P : UsageRow → Type 0) (host : String) (t : DateTime) (rows : List UsageRow)
    (best : Option UsageRow) (w : UsageRow)
    → ((b : UsageRow) → best ≡ some b → P b)
    → All P rows
    → latest_row host t best rows ≡ some w
    → P w
unfolding latest_row
latest_row-All P host t [] best w p a e = p w e
latest_row-All P host t (r ∷ rs) best w p a e =
    latest_row-All P host t rs (better host t best r) w (λ b. better-All P host t best r b p a.0)
      a.1 e

-- The best row among those that are kept, against the best row of all: the same, or an older one
-- where the best row of all is not kept.
data Behind (keep : UsageRow → Bool) (best kept : Option UsageRow) : Type 0 where
  level : kept ≡ best → Behind keep best kept
  behind :
      (v : UsageRow)
      → best ≡ some v
      → keep v ≡ false
      → replaces v kept ≡ true
      → Behind keep best kept

older :
    (r v : UsageRow) (b : Option UsageRow)
    → replaces v b ≡ true
    → replaces r (some v) ≡ true
    → replaces r b ≡ true
older r v none f g = refl
older r v (some u) f g = ground arith

inside-Behind :
    (keep : UsageRow → Bool) (r : UsageRow) {best kept : Option UsageRow}
    → keep r ≡ true
    → Behind keep best kept
    → Behind keep
        (if replaces r best then some r else best)
        (if replaces r kept then some r else kept)
inside-Behind keep r k (level e) = level (rw e refl)
inside-Behind keep r {best} {kept} k (behind v e lost o) = elim (Bool-cases (replaces r (some v))) [
  | inl newer ↦ rw (e, newer, older r v kept o newer) (level refl)
  | inr not_newer ↦ rw (e, not_newer) (behind v refl lost (ground arith))
]

lost-Behind :
    (keep : UsageRow → Bool) (r : UsageRow) {best kept : Option UsageRow}
    → keep r ≡ false
    → Behind keep best kept
    → Behind keep (if replaces r best then some r else best) kept
lost-Behind keep r {best} {kept} k (level e) = elim (Bool-cases (replaces r best)) [
  | inl newer ↦ rw newer (behind r refl k (rw e newer))
  | inr not_newer ↦ rw not_newer (level e)
]
lost-Behind keep r {best} {kept} k (behind v e lost o) = elim (Bool-cases (replaces r (some v))) [
  | inl newer ↦ rw (e, newer) (behind r refl k (older r v kept o newer))
  | inr not_newer ↦ rw (e, not_newer) (behind v refl lost o)
]

better-Behind :
    (keep : UsageRow → Bool) (host : String) (t : DateTime) (r : UsageRow)
    {best kept : Option UsageRow}
    → Behind keep best kept
    → Behind keep (better host t best r) (if keep r then better host t kept r else kept)
better-Behind keep host t r {best} {kept} l = elim (Bool-cases (meets host t r)) [
  | inr out ↦
      rw (better-outside host t best r out, better-outside host t kept r out)
        (elim (Bool-cases (keep r)) [ inl k ↦ rw k l | inr k ↦ rw k l ])
  | inl inside ↦
      rw (better-inside host t best r inside, better-inside host t kept r inside)
        (elim (Bool-cases (keep r)) [
          | inl k ↦ rw k (inside-Behind keep r k l)
          | inr lost ↦ rw lost (lost-Behind keep r lost l)
        ])
]

latest_row-Behind :
    (keep : UsageRow → Bool) (host : String) (t : DateTime) (rows : List UsageRow)
    {best kept : Option UsageRow}
    → Behind keep best kept
    → Behind keep (latest_row host t best rows) (latest_row host t kept (retain keep rows))
unfolding latest_row
latest_row-Behind keep host t [] l = l
latest_row-Behind keep host t (r ∷ rs) {best} {kept} l = elim (Bool-cases (keep r)) [
  | inl k ↦ rw k (
      latest_row-Behind keep host t rs (
        subst (λ o. Behind keep (better host t best r) o) (rw k refl)
          (better-Behind keep host t r l)))
  | inr k ↦ rw k (
      latest_row-Behind keep host t rs (
        subst (λ o. Behind keep (better host t best r) o) (rw k refl)
          (better-Behind keep host t r l)))
]

-- Where the latest row of all is kept, it is the latest of those that are kept.
pub latest_row-retain :
    (keep : UsageRow → Bool) (host : String) (t : DateTime) (rows : List UsageRow)
    → ((w : UsageRow) → latest_row host t none rows ≡ some w → keep w ≡ true)
    → latest_row host t none (retain keep rows) ≡ latest_row host t none rows
latest_row-retain keep host t rows kept =
    elim (latest_row-Behind keep host t rows {best = none} {kept = none} (level refl)) [
      | level e ↦ e
      | behind v e lost o ↦ absurd (let k = kept v e in ground arith)
    ]

-- The best row at a later instant is the best one before the cutoff, or it is not older than that.
abbrev pub Anchored : DateTime → Option UsageRow → Option UsageRow → Type 0
Anchored cutoff a b = (a ≡ b) ⊎ ((v : UsageRow) × (b ≡ some v) × (cutoff ≤ v.collected_at))

anchor-outside :
    (host : String) (cutoff : DateTime) (a : Option UsageRow) (r : UsageRow)
    → (str_eq r.host_id host && ltb r.collected_at cutoff) ≡ false
    → better_anchor host cutoff a r ≡ a
anchor-outside host cutoff a r e = ground arith

anchor-inside :
    (host : String) (cutoff : DateTime) (a : Option UsageRow) (r : UsageRow)
    → (str_eq r.host_id host && ltb r.collected_at cutoff) ≡ true
    → better_anchor host cutoff a r ≡ (if replaces r a then some r else a)
anchor-inside host cutoff a r e = ground arith

early-Anchored :
    (cutoff : DateTime) (a b : Option UsageRow) (r : UsageRow)
    → r.collected_at < cutoff
    → Anchored cutoff a b
    → Anchored cutoff (if replaces r a then some r else a) (if replaces r b then some r else b)
early-Anchored cutoff a b r early (inl e) = inl (rw e refl)
early-Anchored cutoff a b r early (inr (v, e, le)) =
    let older : replaces r (some v) ≡ false = ground arith in rw (e, older) (inr (v, refl, le))

late-Anchored :
    (cutoff : DateTime) (a b : Option UsageRow) (r : UsageRow)
    → cutoff ≤ r.collected_at
    → Anchored cutoff a b
    → Anchored cutoff a (if replaces r b then some r else b)
late-Anchored cutoff a b r late i = elim (Bool-cases (replaces r b)) [
  | inl newer ↦ rw newer (inr (r, refl, late))
  | inr not_newer ↦ rw not_newer i
]

better-Anchored :
    (host : String) (cutoff t : DateTime) (a b : Option UsageRow) (r : UsageRow)
    → cutoff ≤ t
    → Anchored cutoff a b
    → Anchored cutoff (better_anchor host cutoff a r) (better host t b r)
better-Anchored host cutoff t a b r le i = elim (Bool-cases (meets host t r)) [
  | inr out ↦
      let early : (str_eq r.host_id host && ltb r.collected_at cutoff) ≡ false = ground arith in
      rw (better-outside host t b r out, anchor-outside host cutoff a r early) i
  | inl inside ↦
      rw (better-inside host t b r inside) (elim (Bool-cases (ltb r.collected_at cutoff)) [
        | inl early ↦
            let both : (str_eq r.host_id host && ltb r.collected_at cutoff) ≡ true = ground arith in
            rw (anchor-inside host cutoff a r both) (early-Anchored cutoff a b r (ground arith) i)
        | inr late ↦
            let none_of_both : (str_eq r.host_id host && ltb r.collected_at cutoff) ≡ false =
              ground arith in
            rw (anchor-outside host cutoff a r none_of_both)
              (late-Anchored cutoff a b r (ground arith) i)
      ])
]

anchor-Anchored :
    (host : String) (cutoff t : DateTime) (rows : List UsageRow) (a b : Option UsageRow)
    → cutoff ≤ t
    → Anchored cutoff a b
    → Anchored cutoff (anchor host cutoff a rows) (latest_row host t b rows)
unfolding anchor latest_row
anchor-Anchored host cutoff t [] a b le i = i
anchor-Anchored host cutoff t (r ∷ rs) a b le i =
    anchor-Anchored host cutoff t rs (better_anchor host cutoff a r) (better host t b r) le
      (better-Anchored host cutoff t a b r le i)

-- The latest row at an instant from the cutoff on, where it is older than the cutoff, is the anchor.
pub anchor-IsLatest :
    (host : String) (cutoff t : DateTime) (rows : List UsageRow) (w : UsageRow)
    → cutoff ≤ t
    → latest_row host t none rows ≡ some w
    → w.collected_at < cutoff
    → anchor host cutoff none rows ≡ some w
anchor-IsLatest host cutoff t rows w le e early =
    elim (anchor-Anchored host cutoff t rows none none le (inl refl)) [
      | inl same ↦ same ∙ e
      | inr (v, f, late) ↦
          let both : v ≡ w = ground arith in
          let at : v.collected_at ≡ w.collected_at = ap (λ x. x.collected_at) both in
          absurd (omega arith)
    ]

-- It is a row of the host.
pub latest_row-Host :
    (host : String) (t : DateTime) (rows : List UsageRow) (best : Option UsageRow) (w : UsageRow)
    → ((b : UsageRow) → best ≡ some b → str_eq b.host_id host ≡ true)
    → latest_row host t best rows ≡ some w
    → str_eq w.host_id host ≡ true
unfolding latest_row better
latest_row-Host host t [] best w p e = p w e
latest_row-Host host t (r ∷ rs) best w p e =
    latest_row-Host host t rs (better host t best r) w step e
  where
    step : (b : UsageRow) → better host t best r ≡ some b → str_eq b.host_id host ≡ true
    step b f =
        elim (Bool-cases (str_eq r.host_id host && leb r.collected_at t && replaces r best)) [
          | inl taken ↦
              let same : r ≡ b = ground arith in
              let own : str_eq r.host_id host ≡ true = ground arith in
              subst (λ x. str_eq x.host_id host ≡ true) same own
          | inr kept ↦ p b (ground arith)
        ]
