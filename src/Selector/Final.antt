-- ===== src/Selector/Final.antt =====
-- pkg/selector/watch.go against selector.go: a verdict that `decide` gives on the first lines is the one
-- `check` gives whatever lines follow.
use jsonize.Prelude.{
  inl, inr, ◌∙◌, ap, ◌≡◌, refl, arith, ℕ, zero, suc, Bool, true, false, not, ◌&&◌, ◌||◌, List, [],
  ◌∷◌, ◌++◌, Option, none, some, Text, leb, length, if◌then◌else◌, Bool-cases, Option-cases,
}
use jsonize.Selector.{is_none, Signature, Entry, unsigned, is_nil}
use jsonize.Selector.Window.{join_lines, window_text}
use jsonize.Selector.Check.{
  Context, Verdict, ok, first_unmatched, match_text, match_signature, signature_lines, check,
  check_context, wrong_nul, wrong_os, wrong_args, refuse, accept,
}
use jsonize.Selector.Judged.{Known, Decision-cases}
use jsonize.Selector.Watch.{undecided, judge_signature, decide_lines, decide}
use jsonize.Selector.Growth.{
  IsSignature, signature-fits, signature-out, Grown-window, window_text-append,
}

check_context-ok :
    (ctx : Context) (e : Entry) (v : Verdict)
    → ok (check_context ctx e v) ≡ (not (wrong_os ctx e) && (is_none (wrong_args ctx e) && ok v))
unfolding check_context
check_context-ok ctx e v = elim (Bool-cases (wrong_os ctx e)) [
  | inl w ↦ rw (w, check_context)
  | inr w ↦ elim (Option-cases (wrong_args ctx e)) [
    | inl a ↦ rw (w, a, check_context)
    | inr ((x, y), a) ↦ rw (w, a, check_context)
  ]
]

false-and : (a b : Bool) → false ≡ (a && (b && false))
false-and true true = refl
false-and true false = refl
false-and false _ = refl

-- What `check` asks of an input.
pub check-ok :
    (ctx : Context) (lines : List Text) (e : Entry)
    → ok (check ctx lines e) ≡ (
        not (wrong_nul ctx e)
        && (not (wrong_os ctx e)
            && (is_none (wrong_args ctx e)
                && (unsigned e.def.detect.signature
                    || ok
                        (match_signature e.def.detect.signature lines (not (is_nil ctx.parser)))))))
unfolding check
check-ok ctx lines e = elim (Bool-cases (wrong_nul ctx e)) [
  | inl w ↦ rw (w, check)
  | inr w ↦ elim (Bool-cases (unsigned e.def.detect.signature)) [
    | inl u ↦ rw (w, u, check) (check_context-ok ctx e (accept []))
    | inr u ↦
        let v = match_signature e.def.detect.signature lines (not (is_nil ctx.parser)) in
        elim (Bool-cases (ok v)) [
          | inl m ↦ rw (w, u, m, check) (check_context-ok ctx e v ∙ rw m)
          | inr m ↦
              rw (w, u, m, check)
                (m ∙ false-and (not (wrong_os ctx e)) (is_none (wrong_args ctx e)))
        ]
  ]
]

first_explained :
    (s : Signature) (text : Text) (x y : Bool) (o : Option ℕ)
    → first_unmatched s.all text 0 ≡ o
    → ok (match_text s text x) ≡ ok (match_text s text y)
unfolding match_text refuse
first_explained s text x y none e = rw (e, match_text)
first_explained s text x y (some zero) e = rw (e, match_text)
first_explained s text x y (some (suc i)) e = rw (e, match_text)

-- How a refusal is put bears on nothing else.
explained :
    (s : Signature) (text : Text) (x y : Bool) → ok (match_text s text x) ≡ ok (match_text s text y)
unfolding match_text
explained s text x y = first_explained s text x y (first_unmatched s.all text 0) refl

full_window :
    (s : Signature) (lines more : List Text) (x y : Bool)
    → leb (signature_lines s) (length lines) ≡ true
    → ok (match_signature s (lines ++ more) x) ≡ ok (match_signature s lines y)
unfolding match_signature
full_window s lines more x y f =
    ap (λ t. ok (match_text s t x))
      (window_text-append (signature_lines s) lines more (ground arith))
    ∙ explained s (window_text lines (signature_lines s)) x y

open_window :
    (s : Signature) (lines more : List Text) (explain : Bool)
    → IsSignature s
    → leb (signature_lines s) (length lines) ≡ false
    → Known
        (if is_nil lines then undecided else judge_signature s (join_lines lines))
        (ok (match_signature s (lines ++ more) explain))
unfolding match_signature
open_window s [] more explain r f = tt
open_window s (l ∷ ls) more explain r f =
    let n = signature_lines s in
    let g = Grown-window n l ls more (ground arith) in
    let text = join_lines (l ∷ ls) in
    let later = window_text (l ∷ ls ++ more) n in
    elim (Decision-cases (judge_signature s text)) [
      | inl (inl e) ↦ rw e tt
      | inl (inr e) ↦ rw e (signature-fits s r text later g explain e)
      | inr e ↦ rw e (signature-out s r text later g explain e)
    ]

-- A verdict on a signature by its first lines is the one by its whole window.
lines-Known :
    (s : Signature) (lines more : List Text) (explain : Bool)
    → IsSignature s
    → Known (decide_lines s lines) (ok (match_signature s (lines ++ more) explain))
unfolding decide_lines
lines-Known s lines more explain r = elim (Bool-cases (leb (signature_lines s) (length lines))) [
  | inl f ↦ elim (Bool-cases (ok (match_signature s lines false))) [
    | inl m ↦ rw (f, m) (full_window s lines more explain false f ∙ m)
    | inr m ↦ rw (f, m) (full_window s lines more explain false f ∙ m)
  ]
  | inr f ↦ rw f (open_window s lines more explain r f)
]

-- Where the expressions of a definition are as `IsRegexp` says and `decide` calls it in or out on the
-- first lines of a text, `check` agrees in the same context on every text that goes on from them.
pub decide-check :
    (ctx : Context) (lines more : List Text) (e : Entry)
    → IsSignature e.def.detect.signature
    → Known (decide ctx lines e) (ok (check ctx (lines ++ more) e))
unfolding decide
decide-check ctx lines more e r =
    rw (check-ok ctx (lines ++ more) e) (elim (Bool-cases (wrong_nul ctx e)) [
      | inl w ↦ rw (w, decide) refl
      | inr w ↦ elim (Bool-cases (wrong_os ctx e)) [
        | inl o ↦ rw (w, o, decide) refl
        | inr o ↦ elim (Option-cases (wrong_args ctx e)) [
          | inr (x, a) ↦ rw (w, o, a, decide) refl
          | inl a ↦ elim (Bool-cases (unsigned e.def.detect.signature)) [
            | inl u ↦ rw (w, o, a, u, decide) refl
            | inr u ↦
                rw (w, o, a, u, decide)
                  (lines-Known e.def.detect.signature lines more (not (is_nil ctx.parser)) r)
          ]
        ]
      ]
    ])
