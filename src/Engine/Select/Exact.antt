-- ===== src/Engine/Select/Exact.antt =====
-- pkg/engine/engine.go, `applySelect` against what a definition says of the region it reads.
use jsonize.Prelude.{
  subst, ◌≡◌, refl, sym, ap, ◌∙◌, inl, inr, Bool, true, false, List, [], ◌∷◌, ◌++◌, Option, none,
  some, Text, arith, append-nil, All, Bool-cases, Option-cases,
}
use jsonize.Engine.Line.{Line}
use jsonize.Engine.Select.Counts.{IsCounted, skip_limit-Parts}
use jsonize.Engine.Select.{
  Select, Region, find_after, before_until, find_until, select_until, apply_select,
}

abbrev pub Unmatched : (Text → Bool) → Line → Type 0
Unmatched re l = re l.text ≡ false

abbrev pub line_list : Option Line → List Line
line_list none = []
line_list (some l) = l ∷ []

-- The heading is the first line that `after` matches, and without one nothing follows.
abbrev pub IsHeading : Option (Text → Bool) → List Line → Option Line → List Line → Type 0
IsHeading none pre heading rest = (pre ≡ []) × (heading ≡ none)
IsHeading (some re) pre (some l) rest = All (Unmatched re) pre × (re l.text ≡ true)
IsHeading (some re) pre none rest = All (Unmatched re) pre × (rest ≡ [])

-- The body ends in front of the first line that `until` matches, or where the lines end.
abbrev pub IsEnd : Option (Text → Bool) → List Line → Option Line → List Line → Type 0
IsEnd none body end post = (end ≡ none) × (post ≡ [])
IsEnd (some re) body (some l) post = All (Unmatched re) body × (re l.text ≡ true)
IsEnd (some re) body none post = All (Unmatched re) body × (post ≡ [])

-- The lines are, in their order: those before the heading, the heading, those skipped, the region, those
-- behind the limit, the end and those behind it.
pub record IsRegion (sel : Select) (lines : List Line) (r : Region) : Type 0 where
  pub pre : List Line
  pub skipped : List Line
  pub cut : List Line
  pub post : List Line
  pub whole :
      lines
      ≡ pre
        ++ (line_list r.heading ++ ((skipped ++ (r.region ++ cut)) ++ (line_list r.end ++ post)))
  pub heading_found :
      IsHeading sel.after pre r.heading
        ((skipped ++ (r.region ++ cut)) ++ (line_list r.end ++ post))
  pub end_found : IsEnd sel.until (skipped ++ (r.region ++ cut)) r.end post
  pub counted : IsCounted sel.skip sel.limit skipped r.region cut

IsEnd-cons :
    (re : Text → Bool) (l : Line) (body : List Line) (end : Option Line) (post : List Line)
    → Unmatched re l
    → IsEnd (some re) body end post
    → IsEnd (some re) (l ∷ body) end post
IsEnd-cons re l body none post u (a, e) = ((u, a), e)
IsEnd-cons re l body (some x) post u (a, e) = ((u, a), e)

before_until-IsEnd :
    (re : Text → Bool) (lines : List Line)
    → (post : List Line) × (lines
        ≡ before_until re lines ++ (line_list (find_until re lines) ++ post))
      × IsEnd (some re) (before_until re lines) (find_until re lines) post
unfolding before_until find_until
before_until-IsEnd re [] = ([], refl, (tt, refl))
before_until-IsEnd re (l ∷ ls) = elim (Bool-cases (re l.text)) [
  | inl m ↦ rw m (ls, refl, (tt, m))
  | inr m ↦
      let (post, whole, found) = before_until-IsEnd re ls in
      rw m (post, ap (◌∷◌ l) whole, IsEnd-cons re l _ _ post m found)
]

-- the parts of the lines behind a heading
abbrev Behind : Select → List Line → Region → Type 0
Behind sel lines r =
    (skipped : List Line) × (cut : List Line) × (post : List Line) × (lines
      ≡ (skipped ++ (r.region ++ cut)) ++ (line_list r.end ++ post))
    × IsEnd sel.until (skipped ++ (r.region ++ cut)) r.end post
    × IsCounted sel.skip sel.limit skipped r.region cut

select_until-Behind :
    (sel : Select) (lines : List Line) (h : Option Line)
    → Behind sel lines (select_until sel lines h)
unfolding select_until
select_until-Behind sel lines h = elim (Option-cases sel.until) [
  | inl e ↦
      let (skipped, cut, parts, c) = skip_limit-Parts sel.skip sel.limit lines in
      rw (e, select_until) (skipped, cut, [], rw append-nil parts, (refl, refl), c)
  | inr (re, e) ↦
      let (post, whole, found) = before_until-IsEnd re lines in
      let (skipped, cut, parts, c) = skip_limit-Parts sel.skip sel.limit (before_until re lines) in
      rw (e, select_until)
        (
          skipped,
          cut,
          post,
          whole ∙ ap (λ ls. ls ++ (line_list (find_until re lines) ++ post)) parts,
          rw parts at found,
          c,
        )
]

select_until-heading :
    (sel : Select) (lines : List Line) (h : Option Line) → (select_until sel lines h).heading ≡ h
unfolding select_until
select_until-heading sel lines h = elim (Option-cases sel.until) [
  | inl e ↦ rw e refl
  | inr (re, e) ↦ rw e refl
]

find_after-some :
    (re : Text → Bool) (lines : List Line) (l : Line) (ls : List Line)
    → find_after re lines ≡ some (l, ls)
    → (pre : List Line) × (lines ≡ pre ++ (l ∷ ls)) × All (Unmatched re) pre × (re l.text ≡ true)
unfolding find_after
find_after-some re [] l ls h = cc
find_after-some re (x ∷ xs) l ls h = elim (Bool-cases (re x.text)) [
  | inl e ↦ ([], ground arith, tt, ground arith)
  | inr e ↦
      let (pre, w, u, m) = find_after-some re xs l ls (ground arith) in
      (x ∷ pre, ap (◌∷◌ x) w, (e, u), m)
]

find_after-none :
    (re : Text → Bool) (lines : List Line) → find_after re lines ≡ none → All (Unmatched re) lines
unfolding find_after
find_after-none re [] h = tt
find_after-none re (x ∷ xs) h = elim (Bool-cases (re x.text)) [
  | inl e ↦ cc
  | inr e ↦ (e, find_after-none re xs (ground arith))
]

Behind-IsRegion :
    (sel : Select) (lines ls pre : List Line) (r : Region)
    → Behind sel ls r
    → lines ≡ pre ++ (line_list r.heading ++ ls)
    → ((rest : List Line) → IsHeading sel.after pre r.heading rest)
    → IsRegion sel lines r
Behind-IsRegion sel lines ls pre r (skipped, cut, post, parts, found, c) whole h = record {
  pre = pre;
  skipped = skipped;
  cut = cut;
  post = post;
  whole = whole ∙ ap (λ xs. pre ++ (line_list r.heading ++ xs)) parts;
  heading_found = h _;
  end_found = found;
  counted = c;
}

until-IsRegion :
    (sel : Select) (lines ls pre : List Line) (h : Option Line)
    → lines ≡ pre ++ (line_list h ++ ls)
    → ((rest : List Line) → IsHeading sel.after pre h rest)
    → IsRegion sel lines (select_until sel ls h)
until-IsRegion sel lines ls pre h whole found =
    let e = select_until-heading sel ls h in
    Behind-IsRegion sel lines ls pre (select_until sel ls h) (select_until-Behind sel ls h)
      (subst (λ x. lines ≡ pre ++ (line_list x ++ ls)) (sym e) whole)
      (λ rest. subst (λ x. IsHeading sel.after pre x rest) (sym e) (found rest))

abbrev nothing : Region
nothing = record { region = []; heading = none; end = none }

nothing-IsEnd : (until : Option (Text → Bool)) → IsEnd until [] none []
nothing-IsEnd none = (refl, refl)
nothing-IsEnd (some re) = (tt, refl)

nothing-IsRegion :
    (sel : Select) (lines : List Line) (re : Text → Bool)
    → sel.after ≡ some re
    → All (Unmatched re) lines
    → IsRegion sel lines nothing
nothing-IsRegion sel lines re e u = record {
  pre = lines;
  skipped = [];
  cut = [];
  post = [];
  whole = sym (append-nil lines);
  heading_found = subst (λ after. IsHeading after lines none []) (sym e) (u, refl);
  end_found = nothing-IsEnd sel.until;
  counted = record { skips = omega arith; all_read = λ z. refl; limits = λ z. omega arith };
}

apply_select-none :
    (sel : Select) (lines : List Line)
    → sel.after ≡ none
    → apply_select sel lines ≡ select_until sel lines none
unfolding apply_select
apply_select-none sel lines e =
    ap
      (λ after. elim after [
        | none ↦ select_until sel lines none
        | some re ↦ elim (find_after re lines) [
          | none ↦ nothing
          | some (l, ls) ↦ select_until sel ls (some l)
        ]
      ])
      e

apply_select-some :
    (sel : Select) (lines : List Line) (re : Text → Bool)
    → sel.after ≡ some re
    → apply_select sel lines ≡ (elim (find_after re lines) [
      | none ↦ nothing
      | some (l, ls) ↦ select_until sel ls (some l)
    ])
unfolding apply_select
apply_select-some sel lines re e =
    ap
      (λ after. elim after [
        | none ↦ select_until sel lines none
        | some re ↦ elim (find_after re lines) [
          | none ↦ nothing
          | some (l, ls) ↦ select_until sel ls (some l)
        ]
      ])
      e

-- The region that `applySelect` gives is what the definition says of it: the heading is the first line
-- that `after` matches, the end the first line behind it that `until` matches, and of the lines between
-- them as many as `skip` says are left out, and no more than `limit` are read; without a heading there
-- is none of this.
pub apply_select-IsRegion :
    (sel : Select) (lines : List Line) → IsRegion sel lines (apply_select sel lines)
apply_select-IsRegion sel lines = elim (Option-cases sel.after) [
  | inl e ↦ subst (IsRegion sel lines) (sym (apply_select-none sel lines e)) (
      until-IsRegion sel lines lines [] none refl
        (λ rest. subst (λ after. IsHeading after [] none rest) (sym e) (refl, refl)))
  | inr (re, e) ↦
      subst (IsRegion sel lines) (sym (apply_select-some sel lines re e))
        (elim (Option-cases (find_after re lines)) [
          | inl f ↦ rw f (nothing-IsRegion sel lines re e (find_after-none re lines f))
          | inr ((l, ls), f) ↦
              let (pre, whole, u, m) = find_after-some re lines l ls f in
              rw f (
                until-IsRegion sel lines ls pre (some l) whole
                  (λ rest. subst (λ after. IsHeading after pre (some l) rest) (sym e) (u, m)))
        ])
]
