-- ===== src/Engine/Line.antt =====
-- pkg/engine/engine.go: a line with its number, and the errors of a reading. An error keeps its line and
-- its cause; the wording of its message is left out.
use jsonize.Prelude.{ℕ, List, Text}

pub record Line : Type 0 where
  pub text : Text
  pub num : ℕ

pub data SplitError : Type 0 where
  record_too_long not_utf8 nul_in_line nothing_to_join : ℕ → SplitError

pub record UnreadSpan : Type 0 where
  pub line : ℕ
  pub column : ℕ
  pub text : Text

pub data ParseError : Type 0 where
  input_too_large : ParseError
  split : SplitError → ParseError
  -- what a parser refuses, at a line
  refused : ℕ → ParseError
  -- the first unread spans, and how many there are
  unread : List UnreadSpan → ℕ → ParseError
