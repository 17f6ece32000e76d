-- ===== src/Selector/Check.antt =====
-- pkg/selector/selector.go, `matchSignature` and `check`: whether one definition can describe an input,
-- and why not. A rendered condition is the condition itself.
use jsonize.Prelude.{
  ℕ, zero, suc, Bool, true, false, not, ◌&&◌, ◌||◌, List, [], ◌∷◌, ◌++◌, Option, none, some, Text,
  contains, ◌==◌, length, if◌then◌else◌,
}
use jsonize.Selector.{
  Expression, Signature, ArgsMatch, Entry, Reason, nul_reason, first_expression_failed,
  no_any_matched, all_did_not_match, none_matched, written_for, unsigned, takes_any_args, args_for,
  is_nil,
}
use jsonize.Selector.Args.{match_args}
use jsonize.Selector.Window.{window_text, default_signature_window}

pub record Context : Type 0 where
  pub parser : Text
  pub variant : Text
  pub os : Text
  pub args : Option (List Text)
  pub input : Text
  pub nul : Bool

pub data Criterion : Type 0 where
  signature_all signature_any signature_none : ℕ → Criterion
  detect_os : List Text → Criterion
  detect_args : ArgsMatch → Criterion

pub record Verdict : Type 0 where
  pub matched : List Criterion
  pub reason : Option Reason
  pub close : Bool
  pub named : Bool
  pub excluded : Text

abbrev pub ok : Verdict → Bool
ok v = elim v.reason [ none ↦ true | some _ ↦ false ]

-- the first expression that does not match, counted from `i`
unfoldable pub first_unmatched : List Expression → Text → ℕ → Option ℕ
first_unmatched [] text i = none
first_unmatched (re ∷ res) text i =
    let rest = first_unmatched res text (suc i) in if re.matches text then rest else some i

unfoldable pub first_matched : List Expression → Text → ℕ → Option ℕ
first_matched [] text i = none
first_matched (re ∷ res) text i =
    let rest = first_matched res text (suc i) in if re.matches text then some i else rest

-- `signature.all[i]` for every i below n
unfoldable pub all_matched : ℕ → List Criterion
all_matched zero = []
all_matched (suc n) = all_matched n ++ signature_all n ∷ []

unfoldable pub refuse : List Criterion → Reason → Bool → Verdict
refuse matched reason close = record {
  matched = matched;
  reason = some reason;
  close = close;
  named = false;
  excluded = [];
}

unfoldable pub accept : List Criterion → Verdict
accept matched = record {
  matched = matched;
  reason = none;
  close = false;
  named = false;
  excluded = [];
}

-- the last loop of `matchSignature`
unfoldable pub match_none : Signature → Text → List Criterion → Verdict
unfolding first_matched refuse accept
match_none s text met = elim (first_matched s.no text 0) [
  | some i ↦ refuse met (none_matched i) (not (is_nil s.all) || not (is_nil s.any))
  | none ↦ accept (if is_nil s.no then met else met ++ signature_none (length s.no) ∷ [])
]

unfoldable pub match_any : Signature → Text → List Criterion → Verdict
unfolding match_none first_matched refuse
match_any s text met =
    if is_nil s.any then match_none s text met else elim (first_matched s.any text 0) [
      | none ↦ refuse met no_any_matched (not (is_nil s.all))
      | some i ↦ match_none s text (met ++ signature_any i ∷ [])
    ]

unfoldable pub signature_lines : Signature → ℕ
signature_lines s = if s.window == 0 then default_signature_window else s.window

-- `matchSignature` on the text of the window
unfoldable pub match_text : Signature → Text → Bool → Verdict
unfolding match_any first_unmatched all_matched refuse
match_text s text explain = elim (first_unmatched s.all text 0) [
  | none ↦ match_any s text (all_matched (length s.all))
  | some zero ↦ refuse [] (if explain then all_did_not_match 0 else first_expression_failed) false
  | some (suc i) ↦ refuse (all_matched (suc i)) (all_did_not_match (suc i)) true
]

unfoldable pub match_signature : Signature → List Text → Bool → Verdict
unfolding match_text window_text signature_lines
match_signature s lines = match_text s (window_text lines (signature_lines s))

unfoldable pub wrong_os : Context → Entry → Bool
unfolding contains
wrong_os ctx e =
    not (is_nil ctx.os) && not (is_nil e.def.detect.os) && not (contains ctx.os e.def.detect.os)

-- What the arguments are refused for: `none` where they are unknown, not asked for, or fit.
unfoldable pub wrong_args : Context → Entry → Option (Reason × Text)
unfolding args_for takes_any_args match_args
wrong_args ctx e = elim ctx.args [
  | none ↦ none
  | some args ↦
      if takes_any_args (args_for e.def ctx.parser)
      then none
      else match_args (args_for e.def ctx.parser) args
]

unfoldable pub asked_args : Context → Entry → List Criterion
unfolding args_for takes_any_args
asked_args ctx e = elim ctx.args [
  | none ↦ []
  | some _ ↦
      if takes_any_args (args_for e.def ctx.parser)
      then []
      else detect_args (args_for e.def ctx.parser) ∷ []
]

-- The part of `check` behind the signature.
unfoldable pub check_context : Context → Entry → Verdict → Verdict
check_context ctx e v =
    if wrong_os ctx e
    then record v { reason = some (written_for e.def.detect.os ctx.os); close = true; named = true }
    else let met =
        if not (is_nil ctx.os) && not (is_nil e.def.detect.os)
        then v.matched ++ detect_os e.def.detect.os ∷ []
        else v.matched in
      elim (wrong_args ctx e) [
        | some (reason, excluded) ↦ record {
          matched = met;
          reason = some reason;
          close = true;
          named = is_nil excluded;
          excluded = excluded;
        }
        | none ↦ record v { matched = met ++ asked_args ctx e; named = true }
      ]

unfoldable pub wrong_nul : Context → Entry → Bool
wrong_nul ctx e = ctx.nul && not e.def.nul_separated

unfoldable pub check : Context → List Text → Entry → Verdict
unfolding refuse accept
check ctx lines e =
    if wrong_nul ctx e
    then refuse [] nul_reason false
    else if unsigned e.def.detect.signature
    then check_context ctx e (accept [])
    else let v = match_signature e.def.detect.signature lines (not (is_nil ctx.parser)) in
      if ok v then check_context ctx e v else v
