-- ===== src/Engine/Account/Total.antt =====
-- The counts of `ParseAccounted`, pkg/engine/engine.go, against the lines of the input.
use jsonize.Prelude.{
  ◌⊎◌, refl, ℕ, ◌+◌, ◌-◌, ◌≤◌, ◌≡◌, List, Option, none, some, Text, length, arith, inl, inr,
}
use jsonize.Engine.Line.{Line}
use jsonize.Engine.Split.{Split, ok, err, split_records}
use jsonize.Engine.Fold.{fold_lines, fold_lines-length}
use jsonize.Engine.Prepare.{Prepared, prepare, prepare-total, total_ignored}
use jsonize.Engine.Select.{Region, apply_select}
use jsonize.Engine.Ledger.{Ledger, new_ledger, ledger-total}
use jsonize.Csv.Records.{length-csv_records}
use jsonize.Engine.Account.{
  SplitError, Input, Options, Account, Outcome, parsed, failed, Parser, mark_whole, settle,
  read_lines, records_of, account_lines, parse_accounted,
}

-- The counts of an account.
abbrev pub counted : Account → ℕ
counted a = a.read + a.folded + a.blank + total_ignored a.ignored

length-records_of :
    (csv : Option ℕ) (lines : List Line) → length (records_of csv lines) ≤ length lines
length-records_of none lines = omega arith
length-records_of (some delim) lines = length-csv_records delim lines

Split-cases : {A : Type 0} (s : Split A) → ((a : A) × (s ≡ ok a)) ⊎ ((e : SplitError) × (s ≡ err e))
Split-cases (ok a) = inl (a, refl)
Split-cases (err e) = inr (e, refl)

module _ {ℓ} {V : Type ℓ} where
  settle-counted :
      (d : Input) (lines folded : ℕ) (p : Prepared) (sel : Region) (r : Outcome V × Ledger) (v : V)
      → (settle d lines folded p sel r).0 ≡ parsed v
      → counted (settle d lines folded p sel r).1
        ≡ length p.kept + p.blanks + total_ignored p.ignored + folded
  unfolding settle
  settle-counted d lines folded p sel (failed e, g) v h = cc
  settle-counted d lines folded p sel (parsed w, g) v h =
      let g' = mark_whole d.select.end sel.end (mark_whole d.select.heading sel.heading g) in
      ground (arith, ledger-total g' p.kept)

  settle-lines :
      (d : Input) (lines folded : ℕ) (p : Prepared) (sel : Region) (r : Outcome V × Ledger)
      → (settle d lines folded p sel r).1.lines ≡ lines
  unfolding settle
  settle-lines d lines folded p sel (failed e, g) = refl
  settle-lines d lines folded p sel (parsed w, g) = refl

  read_lines-counted :
      (d : Input) (parser : Parser V) (lines : ℕ) (folded : List Line) (v : V)
      → length folded ≤ lines
      → (read_lines d parser lines folded).0 ≡ parsed v
      → counted (read_lines d parser lines folded).1 ≡ (read_lines d parser lines folded).1.lines
  unfolding read_lines
  read_lines-counted d parser lines folded v le h =
      let p = prepare d.skip_blank d.ignore folded in
      let sel = apply_select d.select p.kept in
      let r = parser (new_ledger p.kept) sel.region in
      omega (
        arith,
        settle-counted d lines (lines - length folded) p sel r v h,
        settle-lines d lines (lines - length folded) p sel r,
        prepare-total d.skip_blank d.ignore folded,
      )

  account_lines-counted :
      (d : Input) (parser : Parser V) (lines : List Line) (v : V)
      → (account_lines d parser lines).0 ≡ parsed v
      → counted (account_lines d parser lines).1 ≡ (account_lines d parser lines).1.lines
  unfolding account_lines
  account_lines-counted d parser lines v h =
      elim (Split-cases (fold_lines d.fold (records_of d.csv lines))) [
        | inl (folded, e) ↦ ground (
          arith,
          read_lines-counted d parser (length lines) folded v,
          fold_lines-length d.fold (records_of d.csv lines) folded e,
          length-records_of d.csv lines,
        )
        | inr (x, e) ↦ ground arith
      ]

  -- When a reading succeeds, with any parser, the counts of its account (read, folded, blank, and left
  -- out by an ignore expression) add up to its number of lines.
  pub parse_accounted-counted :
      (d : Input) (opts : Options) (parser : Parser V) (input : Text) (v : V)
      → (parse_accounted d opts parser input).0 ≡ parsed v
      → counted (parse_accounted d opts parser input).1
        ≡ (parse_accounted d opts parser input).1.lines
  unfolding parse_accounted
  parse_accounted-counted d opts parser input v h =
      elim (Split-cases (split_records input d.sep opts.max_line opts.keep_escapes)) [
        | inl (lines, e) ↦ ground (arith, account_lines-counted d parser lines v)
        | inr (x, e) ↦ ground arith
      ]
