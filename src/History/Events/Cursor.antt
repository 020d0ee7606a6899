-- ===== src/History/Events/Cursor.antt =====
-- The pages of a list of events, each from the cursor that the page before it ends with.
use mathlib.Core.Path.{subst}
use simple_network_monitor.Prelude.{
  ℕ, zero, suc, ◌≡◌, ◌≤◌, ◌<◌, ◌-◌, ◌^◌, ◌∙◌, ap, sym, refl, arith, inl, inr, Bool, true, false,
  Option, none, some, List, [], ◌∷◌, ◌++◌, ltb, length, take, drop, retain, All, unwrap_or, Result,
  ok, err, ◌>>=◌, Bool-cases,
}
use simple_network_monitor.Storage.Errors.{StorageError, busy}
use simple_network_monitor.History.Events.{HistoryEvent, HistoryEventsResponse, last_id, page_of}

-- Where a page starts: below the cursor, or `i64::MAX`.
abbrev pub start_of : Option ℕ → ℕ
start_of from = unwrap_or from (2 ^ 63 - 1)

module _ {F : Type 0} where
  -- The events of a page, and of those that its cursor leads to.
  abbrev pub followed :
      (ℕ → Result StorageError (List (HistoryEvent F)))
      → List (HistoryEvent F)
      → Option ℕ
      → Result StorageError (List (HistoryEvent F))
  followed again events none = ok events
  followed again events (some cursor) = do rest ← again cursor; ok (events ++ rest)

  -- What a client gathers in so many requests, each with the cursor of the answer before it.
  abbrev pub follow :
      ℕ
      → (Option ℕ → Result StorageError (HistoryEventsResponse F))
      → Option ℕ
      → Result StorageError (List (HistoryEvent F))
  follow zero answer from = err busy
  follow (suc n) answer from = do
    page ← answer from
    followed (λ c. follow n answer (some c)) page.events page.next_before

  abbrev pub before : ℕ → HistoryEvent F → Bool
  before b e = ltb e.id b

  -- From the newest on, with the row numbers falling.
  abbrev pub Falling : List (HistoryEvent F) → Type 0
  Falling [] = Unit
  Falling (e ∷ es) = All (λ f. f.id < e.id) es × Falling es

  pub retain_all :
      (b : ℕ) (es : List (HistoryEvent F)) → All (λ e. e.id < b) es → retain (before b) es ≡ es
  retain_all b [] a = refl
  retain_all b (e ∷ es) (lt, a) =
      let yes : ltb e.id b ≡ true = ground arith in rw (yes, retain_all b es a) refl

  retain_lower :
      (c b : ℕ) (es : List (HistoryEvent F))
      → c ≤ b
      → retain (before c) (retain (before b) es) ≡ retain (before c) es
  retain_lower c b [] le = refl
  retain_lower c b (e ∷ es) le = elim (Bool-cases (ltb e.id b)) [
    | inl y ↦ rw (y, retain_lower c b es le) refl
    | inr n ↦ let no : ltb e.id c ≡ false = ground arith in rw (n, no) (retain_lower c b es le)
  ]

  -- The end of a page, whose row is one of the list.
  take-last :
      (n : ℕ) (e : HistoryEvent F) (es : List (HistoryEvent F))
      → (c : ℕ) × (last_id (take (suc n) (e ∷ es)) ≡ some c)
        × ((b : ℕ) → All (λ f. f.id < b) (e ∷ es) → c < b)
        × (Falling (e ∷ es) → retain (before c) (e ∷ es) ≡ drop (suc n) (e ∷ es))
  take-last zero e es = (
    e.id,
    refl,
    λ b a. a.0,
    λ falls.
        let no : ltb e.id e.id ≡ false = ground arith in rw (no, retain_all e.id es falls.0) refl,
  )
  take-last (suc m) e [] =
      (e.id, refl, λ b a. a.0, λ falls. let no : ltb e.id e.id ≡ false = ground arith in rw no refl)
  take-last (suc m) e (f ∷ fs) =
      let (c, last, bound, rest) = take-last m f fs in
      (
        c,
        last,
        λ b a. bound b a.1,
        λ falls.
            let lower : c < e.id = bound e.id falls.0 in
            let no : ltb e.id c ≡ false = ground arith in rw no (rest falls.1),
      )

  take_whole : (n : ℕ) (es : List (HistoryEvent F)) → length es ≤ n → take n es ≡ es
  take_whole zero [] le = refl
  take_whole zero (e ∷ es) le = absurd (omega (arith, le))
  take_whole (suc n) [] le = refl
  take_whole (suc n) (e ∷ es) le = ap (λ t. e ∷ t) (take_whole n es (omega (arith, le)))

  take-take : (n : ℕ) (es : List (HistoryEvent F)) → take n (take (suc n) es) ≡ take n es
  take-take zero es = refl
  take-take (suc n) [] = refl
  take-take (suc n) (e ∷ es) = ap (λ t. e ∷ t) (take-take n es)

  take-drop : (n : ℕ) (es : List (HistoryEvent F)) → take n es ++ drop n es ≡ es
  take-drop zero es = refl
  take-drop (suc n) [] = refl
  take-drop (suc n) (e ∷ es) = ap (λ t. e ∷ t) (take-drop n es)

  length-take :
      (n : ℕ) (es : List (HistoryEvent F)) → ltb n (length (take (suc n) es)) ≡ ltb n (length es)
  length-take zero [] = refl
  length-take zero (e ∷ es) = ground arith
  length-take (suc n) [] = refl
  length-take (suc n) (e ∷ es) = ground (arith, length-take n es)

  drop_shorter :
      (n : ℕ) (es : List (HistoryEvent F))
      → n < length es
      → suc (length (drop (suc n) es)) ≤ length es
  drop_shorter n [] lt = absurd (omega (arith, lt))
  drop_shorter zero (e ∷ es) lt = omega arith
  drop_shorter (suc n) (e ∷ es) lt = omega (arith, drop_shorter n es (omega (arith, lt)))

  drop-Falling : (n : ℕ) (es : List (HistoryEvent F)) → Falling es → Falling (drop n es)
  drop-Falling zero es falls = falls
  drop-Falling (suc n) [] falls = tt
  drop-Falling (suc n) (e ∷ es) falls = drop-Falling n es falls.1

  page_of_last :
      (limit : ℕ) (from : Option ℕ) (all : List (HistoryEvent F))
      → ltb limit (length (retain (before (start_of from)) all)) ≡ false
      → (page_of limit from all).next_before ≡ none
  unfolding page_of
  page_of_last limit from all e =
      rw (length-take limit (retain (before (start_of from)) all), e) refl

  page_of_more :
      (limit : ℕ) (from : Option ℕ) (all : List (HistoryEvent F))
      → ltb limit (length (retain (before (start_of from)) all)) ≡ true
      → (page_of limit from all).next_before
        ≡ last_id (take limit (retain (before (start_of from)) all))
  unfolding page_of
  page_of_more limit from all e =
      rw
        (
          length-take limit (retain (before (start_of from)) all),
          e,
          take-take limit (retain (before (start_of from)) all),
        )
        refl

  page_of-take :
      (limit : ℕ) (from : Option ℕ) (all : List (HistoryEvent F))
      → (page_of limit from all).events ≡ take limit (retain (before (start_of from)) all)
  unfolding page_of
  page_of-take limit from all = take-take limit (retain (before (start_of from)) all)

  retain-IsBelow : (b : ℕ) (es : List (HistoryEvent F)) → All (λ e. e.id < b) (retain (before b) es)
  retain-IsBelow b [] = tt
  retain-IsBelow b (e ∷ es) = elim (Bool-cases (ltb e.id b)) [
    | inl y ↦ rw y (ground arith, retain-IsBelow b es)
    | inr n ↦ rw n (retain-IsBelow b es)
  ]

  -- The rows below the cursor that a page of at least one row ends with, where a page follows.
  rest-of :
      (m b : ℕ) (all s : List (HistoryEvent F))
      → retain (before b) all ≡ s
      → Falling s
      → m < length s
      → (c : ℕ) × (last_id (take (suc m) s) ≡ some c) × (retain (before c) all ≡ drop (suc m) s)
  rest-of m b all [] e falls lt = absurd (omega (arith, lt))
  rest-of m b all (x ∷ xs) e falls lt =
      let (c, last, bound, rest) = take-last m x xs in
      let below : All (λ f. f.id < b) (x ∷ xs) =
        subst (λ s. All (λ f. f.id < b) s) e (retain-IsBelow b all) in
      let lower : c < b = bound b below in
      (
        c,
        last,
        sym (retain_lower c b all (omega (arith, lower))) ∙ ap (retain (before c)) e ∙ rest falls,
      )

  follow_last :
      (n m : ℕ) (from : Option ℕ) (all s : List (HistoryEvent F))
      → retain (before (start_of from)) all ≡ s
      → ltb (suc m) (length s) ≡ false
      → follow (suc n) (λ c. ok (page_of (suc m) c all)) from ≡ ok s
  follow_last n m from all s e last =
      rw
        (
          page_of_last (suc m) from all (ap (λ s. ltb (suc m) (length s)) e ∙ last),
          page_of-take (suc m) from all,
          e,
        )
        (ap ok (take_whole (suc m) s (ground arith)))

  pub follow-All :
      (n m : ℕ) (from : Option ℕ) (all s : List (HistoryEvent F))
      → retain (before (start_of from)) all ≡ s
      → Falling s
      → length s ≤ n
      → follow (suc n) (λ c. ok (page_of (suc m) c all)) from ≡ ok s
  follow-All zero m from all s e falls le = follow_last 0 m from all s e (ground arith)
  follow-All (suc n) m from all s e falls le = elim (Bool-cases (ltb (suc m) (length s))) [
    | inr last ↦ follow_last (suc n) m from all s e last
    | inl more ↦
        let (c, last, rest) = rest-of m (start_of from) all s e falls (ground arith) in
        let shorter = drop_shorter m s (ground arith) in
        let onward =
          follow-All n m (some c) all (drop (suc m) s) rest (drop-Falling (suc m) s falls)
            (omega (arith, shorter, le)) in
        let cursor : (page_of (suc m) from all).next_before ≡ some c =
          page_of_more (suc m) from all (ap (λ s. ltb (suc m) (length s)) e ∙ more)
          ∙ ap (λ s. last_id (take (suc m) s)) e
          ∙ last in
        rw (cursor, onward, page_of-take (suc m) from all, e) (ap ok (take-drop (suc m) s))
  ]
