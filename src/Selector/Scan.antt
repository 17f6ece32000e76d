-- ===== src/Selector/Scan.antt =====
-- pkg/selector/selector.go, `Select` and the scan it makes of the candidates.
use jsonize.Prelude.{
  ℕ, suc, Bool, true, false, not, ◌&&◌, ◌||◌, List, [], ◌∷◌, ◌++◌, Option, none, some, Text,
  contains, ◌==◌, length, map, if◌then◌else◌,
}
use jsonize.Utf8.{valid_utf8}
use jsonize.Engine.Split.{holds_nul}
use jsonize.Selector.{
  is_none, Entry, Registry, Reason, Rejection, needs_parser, has_no_signature, no_text, unsigned,
  explicit_only, shape_only, variants, lookup_entry, is_nil,
}
use jsonize.Selector.Settle.{Rule, unsettled, settle}
use jsonize.Selector.Window.{signature_window}
use jsonize.Selector.Check.{Context, Criterion, Verdict, ok, check, accept}
use jsonize.Selector.Watch.{any_claims}

pub record Match : Type 0 where
  pub entry : Entry
  pub verdict : Verdict

-- `scan`
pub record Scan : Type 0 where
  pub matched : List Match
  pub shape_entries : List Entry
  pub hints : List Entry
  pub shapes : List Text
  pub excluded : Option (Entry × Text)
  pub rejections : List Rejection
  pub whole : Bool
  pub explicit_count : ℕ

unfoldable pub reject : Rejection → Scan → Scan
reject r sc = if sc.whole || r.close then record sc { rejections = sc.rejections ++ r ∷ [] } else sc

unfoldable pub held_back : Context → List Text → Entry → Scan → Scan
unfolding reject
held_back ctx lines e sc =
    let signed = not (unsigned e.def.detect.signature) in
    let fits = signed && ok (check ctx lines e) in
    reject
      (record { entry = e; reason = needs_parser e.def.command; close = fits; explicit = true })
      (record sc {
        hints = if fits then sc.hints ++ e ∷ [] else sc.hints;
        shapes = if signed then sc.shapes else sc.shapes ++ e.def.command ∷ [];
        explicit_count = suc sc.explicit_count;
      })

unfoldable pub unclaimed : Entry → Scan → Scan
unfolding reject
unclaimed e sc =
    reject
      (record {
        entry = e;
        reason = has_no_signature e.def.variant;
        close = false;
        explicit = true;
      })
      (record sc {
        shape_entries = sc.shape_entries ++ e ∷ [];
        explicit_count = suc sc.explicit_count;
      })

-- The part of `consider` for a definition that is out, and its reason.
unfoldable pub leave_out : Context → Entry → Verdict → Reason → Scan → Scan
unfolding reject
leave_out ctx e v reason sc =
    let shape = shape_only e.def in
    let told =
      reject (record { entry = e; reason = reason; close = v.close; explicit = false }) sc in
    record told {
      hints =
          if not (is_nil ctx.parser) && v.named && not shape
          then told.hints ++ e ∷ []
          else told.hints;
      excluded =
          if is_none told.excluded && not (is_nil v.excluded) && not shape
          then some (e, v.excluded)
          else told.excluded;
    }

unfoldable pub consider : Context → List Text → Entry → Scan → Scan
unfolding leave_out
consider ctx lines e sc =
    let v = check ctx lines e in
    elim v.reason [
      | none ↦ record sc { matched = sc.matched ++ record { entry = e; verdict = v } ∷ [] }
      | some reason ↦ leave_out ctx e v reason sc
    ]

-- the body of the loop over the candidates
unfoldable pub scan_entry : Context → List Text → Bool → Entry → Scan → Scan
scan_entry ctx lines claims e sc =
    if is_nil ctx.parser && explicit_only e.def
    then held_back ctx lines e sc
    else if claims && shape_only e.def
    then unclaimed e sc
    else consider ctx lines e sc

unfoldable pub scan_entries : Context → List Text → Bool → List Entry → Scan → Scan
unfolding scan_entry
scan_entries ctx lines claims [] sc = sc
scan_entries ctx lines claims (e ∷ es) sc =
    scan_entries ctx lines claims es (scan_entry ctx lines claims e sc)

pub record Result : Type 0 where
  pub entry : Entry
  pub scanned : ℕ
  pub matched : List Criterion
  pub rejections : List Rejection
  pub settled : Rule
  pub outranked : List Rejection
  pub explicit_count : ℕ

pub record NoMatch : Type 0 where
  pub parser : Text
  pub rejections : List Rejection
  pub scanned : ℕ
  pub hints : List Entry
  pub reported : List Rejection
  pub explicit_count : ℕ
  pub shapes : List Text
  pub unclaimed_entries : List Entry
  pub excluded : Option (Entry × Text)
  pub nul : Bool
  pub empty : Bool

pub data SelectError : Type 0 where
  variant_without_parser : Text → SelectError
  unknown_parser : Text → List Text → SelectError
  unknown_variant : Text → Text → List Text → SelectError
  mismatch : Entry → Reason → SelectError
  no_match : NoMatch → SelectError
  -- the candidates, the rejections reported, how many were scanned, and how many only when named
  ambiguous : List Entry → List Rejection → ℕ → ℕ → SelectError

pub data Selection : Type 0 where
  chosen : Result → Selection
  failed : SelectError → Selection

-- the loop of `dedupe`
unfoldable pub dedupe : List Text → List Text → List Text
unfolding contains
dedupe seen [] = []
dedupe seen (s ∷ rest) =
    let once = dedupe (s ∷ seen) rest in
    let again = dedupe seen rest in if contains s seen then again else s ∷ once

-- `(*scan).verdict`
unfoldable pub verdict_of : ℕ → List Match → Verdict
unfolding accept
verdict_of handle [] = accept []
verdict_of handle (m ∷ ms) = if m.entry.handle == handle then m.verdict else verdict_of handle ms

abbrev pub entries : List Match → List Entry
entries [] = []
entries (m ∷ ms) = m.entry ∷ entries ms

unfoldable pub result_of : Scan → ℕ → Entry → Rule → List Rejection → Selection
unfolding verdict_of
result_of sc scanned e rule outranked = chosen (record {
  entry = e;
  scanned = scanned;
  matched = (verdict_of e.handle sc.matched).matched;
  rejections = sc.rejections;
  settled = rule;
  outranked = outranked;
  explicit_count = sc.explicit_count;
})

unfoldable pub nothing_found : Context → List Text → ℕ → Scan → Selection
unfolding dedupe
nothing_found ctx lines scanned sc = failed (
    no_match (record {
      parser = ctx.parser;
      rejections = if is_nil ctx.parser then [] else sc.rejections;
      scanned = scanned;
      hints = sc.hints;
      reported = sc.rejections;
      explicit_count = sc.explicit_count;
      shapes = dedupe [] sc.shapes;
      unclaimed_entries = sc.shape_entries;
      excluded = sc.excluded;
      nul = ctx.nul && valid_utf8 ctx.input;
      empty = is_nil lines;
    }))

-- The switch on the number of definitions that fit, and what follows it.
unfoldable pub conclude : Context → List Text → ℕ → Scan → List Match → Selection
conclude ctx lines scanned sc [] = nothing_found ctx lines scanned sc
conclude ctx lines scanned sc (m ∷ []) = result_of sc scanned m.entry unsettled []
conclude ctx lines scanned sc (m ∷ n ∷ ms) =
    let s = settle (entries (m ∷ n ∷ ms)) in
    elim s.best [
      | none ↦ failed (ambiguous s.preferred sc.rejections scanned sc.explicit_count)
      | some best ↦ result_of sc scanned best s.rule s.outranked
    ]

-- whether the definitions that claim nothing stay out
unfoldable pub with_claims : Context → List Entry → Bool
unfolding any_claims
with_claims ctx candidates = not (is_nil ctx.parser) && (is_none ctx.args && any_claims candidates)

unfoldable pub search : Context → List Text → List Entry → Selection
unfolding with_claims
search ctx lines candidates =
    let sc = scan_entries ctx lines (with_claims ctx candidates) candidates (record {
      matched = [];
      shape_entries = [];
      hints = [];
      shapes = [];
      excluded = none;
      rejections = [];
      whole = not (is_nil ctx.parser);
      explicit_count = 0;
    }) in
    conclude ctx lines (length candidates) sc sc.matched

-- The definition that was named, held to the text.
unfoldable pub select_named : Context → List Text → Entry → Selection
select_named ctx lines e =
    let v = check ctx lines e in
    elim v.reason [
      | some reason ↦ failed (mismatch e (if is_nil lines then no_text else reason))
      | none ↦ chosen (record {
        entry = e;
        scanned = 1;
        matched = v.matched;
        rejections = [];
        settled = unsettled;
        outranked = [];
        explicit_count = 0;
      })
    ]

abbrev variant_names : List Entry → List Text
variant_names es = map (λ e. e.def.variant) es

unfoldable pub select_among : Registry → Context → List Text → List Entry → Selection
select_among reg ctx lines candidates =
    if is_nil ctx.variant
    then search ctx lines candidates
    else elim (lookup_entry reg ctx.parser ctx.variant) [
      | none ↦ failed (unknown_variant ctx.parser ctx.variant (variant_names candidates))
      | some e ↦ select_named ctx lines e
    ]

-- `Select`
unfoldable pub select : Registry → Context → Selection
select reg given =
    let ctx = record given { nul = holds_nul given.input } in
    let lines = signature_window given.input in
    if not (is_nil given.variant) && is_nil given.parser
    then failed (variant_without_parser given.variant)
    else if is_nil given.parser
    then select_among reg ctx lines reg.all
    else if is_nil (variants reg given.parser)
    then failed (unknown_parser given.parser reg.names)
    else select_among reg ctx lines (variants reg given.parser)
