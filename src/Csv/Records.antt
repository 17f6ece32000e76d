-- ===== src/Csv/Records.antt =====
-- pkg/engine/csv.go, `csvRecords`: physical lines are grouped into csv records.
use jsonize.Prelude.{
  inr, refl, inl, Bool-cases, if◌then◌else◌, append_assoc, arith, ◌+◌, append-nil, ◌∙◌, sym, ◌≤◌,
  ap, ◌≡◌, Bool, length, ℕ, true, false, List, [], ◌∷◌, ◌++◌, Text,
}
use jsonize.Engine.Line.{Line}
use jsonize.Engine.Fold.{join}
use jsonize.Csv.Quote.{Quote, new_quote, feed}

-- `line{text: strings.Join(pieces, "\n"), num: num}`
abbrev pub record_line : List Text → ℕ → Line
record_line pieces num = record { text = join b'\n' pieces; num = num }

abbrev pub number : List Text → ℕ → ℕ → ℕ
number [] num new = new
number (_ ∷ _) num new = num

-- `pieces` holds the lines of the record that is not closed yet, and `num` the number of its first.
unfoldable pub group : Quote → List Text → ℕ → List Line → List Line
group q [] num [] = []
group q (p ∷ ps) num [] = record_line (p ∷ ps) num ∷ []
group q pieces num (l ∷ ls) = elim (feed q l.text).quoted [
  | true ↦ group (feed q l.text) (pieces ++ l.text ∷ []) (number pieces num l.num) ls
  | false ↦
      record_line (pieces ++ l.text ∷ []) (number pieces num l.num)
      ∷ group (feed q l.text) [] (number pieces num l.num) ls
]

unfoldable pub csv_records : ℕ → List Line → List Line
unfolding group
csv_records delim lines = group (new_quote delim) [] 0 lines

abbrev pub texts : List Line → List Text
texts [] = []
texts (l ∷ ls) = l.text ∷ texts ls

abbrev is_empty : List Text → Bool
is_empty [] = true
is_empty (_ ∷ _) = false

-- Each text behind a line feed.
abbrev behind : List Text → Text
behind [] = []
behind (t ∷ ts) = b'\n' ∷ (t ++ behind ts)

abbrev rest_of : Text → Text
rest_of [] = []
rest_of (_ ∷ cs) = cs

join-cons : (p : Text) (ps : List Text) → join b'\n' (p ∷ ps) ≡ p ++ behind ps
unfolding join
join-cons p [] = sym (append-nil p)
join-cons p (q ∷ qs) = ap (λ t. p ++ b'\n' ∷ t) (join-cons q qs)

join-behind : (ts : List Text) → join b'\n' ts ≡ rest_of (behind ts)
join-behind [] = unfold join in refl
join-behind (p ∷ ps) = join-cons p ps

behind-append : (xs ys : List Text) → behind (xs ++ ys) ≡ behind xs ++ behind ys
behind-append [] ys = refl
behind-append (x ∷ xs) ys =
    ap (λ t. b'\n' ∷ t)
      (ap (λ t. x ++ t) (behind-append xs ys) ∙ sym (append_assoc x (behind xs) (behind ys)))

behind-record :
    (p : Text) (ps : List Text) (rs : List Text)
    → behind (join b'\n' (p ∷ ps) ∷ rs) ≡ behind (p ∷ ps) ++ behind rs
behind-record p ps rs = rw (join-cons p ps)

behind-concat :
    (ps : List Text) (t : Text) (rs : List Text)
    → behind (join b'\n' (ps ++ t ∷ []) ∷ rs) ≡ behind (ps ++ t ∷ []) ++ behind rs
behind-concat [] t rs = behind-record t [] rs
behind-concat (p ∷ ps) t rs = behind-record p (ps ++ t ∷ []) rs

group_open :
    (q : Quote) (ps : List Text) (num : ℕ) (l : Line) (ls : List Line)
    → (feed q l.text).quoted ≡ true
    → group q ps num (l ∷ ls) ≡ group (feed q l.text) (ps ++ l.text ∷ []) (number ps num l.num) ls
unfolding group
group_open q [] num l ls e = ground arith
group_open q (p ∷ ps) num l ls e = ground arith

group_closed :
    (q : Quote) (ps : List Text) (num : ℕ) (l : Line) (ls : List Line)
    → (feed q l.text).quoted ≡ false
    → group q ps num (l ∷ ls)
      ≡ record_line (ps ++ l.text ∷ []) (number ps num l.num)
        ∷ group (feed q l.text) [] (number ps num l.num) ls
unfolding group
group_closed q [] num l ls e = ground arith
group_closed q (p ∷ ps) num l ls e = ground arith

behind-group :
    (q : Quote) (ps : List Text) (num : ℕ) (ls : List Line)
    → behind (texts (group q ps num ls)) ≡ behind (ps ++ texts ls)
unfolding group
behind-group q [] num [] = refl
behind-group q (p ∷ ps) num [] = behind-record p ps [] ∙ sym (behind-append (p ∷ ps) [])
behind-group q ps num (l ∷ ls) =
    let more : List Text = ps ++ l.text ∷ [] in
    let n : ℕ = number ps num l.num in
    let regroup : behind (more ++ texts ls) ≡ behind (ps ++ l.text ∷ texts ls) =
      ap behind (append_assoc ps (l.text ∷ []) (texts ls)) in
    elim (Bool-cases (feed q l.text).quoted) [
      | inl e ↦ rw (group_open q ps num l ls e) (behind-group (feed q l.text) more n ls ∙ regroup)
      | inr e ↦ rw (group_closed q ps num l ls e) (
          behind-concat ps l.text (texts (group (feed q l.text) [] n ls))
          ∙ ap (λ t. behind more ++ t) (behind-group (feed q l.text) [] n ls)
          ∙ sym (behind-append more (texts ls))
          ∙ regroup)
    ]

-- Grouping loses nothing and adds nothing: the records, joined by line feeds, are the text that the
-- lines, joined by line feeds, are.
pub csv_records-join :
    (delim : ℕ) (lines : List Line)
    → join b'\n' (texts (csv_records delim lines)) ≡ join b'\n' (texts lines)
unfolding csv_records
csv_records-join delim lines =
    join-behind (texts (group (new_quote delim) [] 0 lines))
    ∙ ap rest_of (behind-group (new_quote delim) [] 0 lines)
    ∙ sym (join-behind (texts lines))

length-group :
    (q : Quote) (ps : List Text) (num : ℕ) (ls : List Line)
    → length (group q ps num ls) ≤ length ls + (if is_empty ps then 0 else 1)
unfolding group
length-group q [] num [] = omega arith
length-group q (p ∷ ps) num [] = omega arith
length-group q [] num (l ∷ ls) = ground (
  arith,
  length-group (feed q l.text) (l.text ∷ []) l.num ls,
  length-group (feed q l.text) [] l.num ls,
)
length-group q (p ∷ ps) num (l ∷ ls) = ground (
  arith,
  length-group (feed q l.text) (p ∷ ps ++ l.text ∷ []) num ls,
  length-group (feed q l.text) [] num ls,
)

pub length-csv_records :
    (delim : ℕ) (lines : List Line) → length (csv_records delim lines) ≤ length lines
unfolding csv_records
length-csv_records delim lines = omega (arith, length-group (new_quote delim) [] 0 lines)
