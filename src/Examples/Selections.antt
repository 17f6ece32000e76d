-- ===== src/Examples/Selections.antt =====
-- Definitions of two commands, and the choice between them.
use jsonize.Prelude.{
  All, lookup, arith, ◌≡◌, refl, ◌↔◌, ℕ, Bool, true, false, List, [], ◌∷◌, ◌++◌, none, some, Text,
  codes, ◌==◌, same,
}
use mathlib.Core.List.{Permᴰ}
use jsonize.Selector.{Expression, Signature, ArgsMatch, Entry, unsigned}
use jsonize.Selector.Settle.{settle}
use jsonize.Selector.Best.{Wins, settle-Wins}
use jsonize.Selector.Judged.{IsRegexp, Known}
use jsonize.Selector.Growth.{IsSignature}
use jsonize.Selector.Check.{signature_lines, Context, ok, check, wrong_nul, wrong_os, wrong_args}
use jsonize.Selector.Watch.{decide, decided_fits, settled_between, decide_lines, judge_signature}
use jsonize.Selector.Window.{join_lines}
use jsonize.Selector.Final.{decide-check}
use jsonize.Selector.Standing.{kept, settled_between-settle}
use jsonize.Selector.Scan.{search, with_claims}
use jsonize.Selector.{Registry, variants}
use jsonize.Selector.Reach.{scope, window}
use jsonize.Selector.Enough.{IsBounded, IsKnownFrom, searched, window-check}
use jsonize.Selector.Distance.{levenshtein, suggest}
use jsonize.Selector.Edits.{IsLeast, levenshtein-IsLeast}
use jsonize.Utf8.{runes}
use jsonize.Selector.Search.{fitting, Reports, search-Reports}

-- the expression \AP
unfoldable pub opens_with_p : Text → Bool
opens_with_p [] = false
opens_with_p (c ∷ cs) = c == b'P'

abbrev header : Expression
header = record { matches = opens_with_p; ends_text = false; viable = some opens_with_p }

header-stays :
    (text rest : Text) → opens_with_p text ≡ true → opens_with_p (text ++ b'\n' ∷ rest) ≡ true
unfolding opens_with_p
header-stays [] rest h = absurd (let bad : false ≡ true = h in cc)
header-stays (c ∷ cs) rest h = h

header-never :
    (text rest : Text)
    → opens_with_p (text ++ b'\n' ∷ []) ≡ false
    → opens_with_p (text ++ b'\n' ∷ rest) ≡ false
unfolding opens_with_p
header-never [] rest h = refl
header-never (c ∷ cs) rest h = h

header-IsRegexp : IsRegexp header
header-IsRegexp = record {
  stays = λ text rest _ h. header-stays text rest h;
  never = λ f text rest v h.
      let eq : opens_with_p ≡ f = (let x : some opens_with_p ≡ some f = v in cc) in
      header-never text rest (rw eq h);
}

abbrev no_args : ArgsMatch
no_args = record { any = []; all = []; no = [] }

abbrev ps_signature : Signature
ps_signature = record { all = header ∷ []; any = []; no = []; window = 0 }

ps_signature-IsSignature : IsSignature ps_signature
ps_signature-IsSignature = record {
  all_regexps = (header-IsRegexp, tt);
  any_regexps = tt;
  none_regexps = tt;
}

abbrev variant : Text → Text → ℕ → ℕ → ℕ → Entry
variant command name handle priority precedence = record {
  handle = handle;
  def = record {
    command = command;
    variant = name;
    aliases = [];
    detect = record {
      auto_detect = none;
      os = [];
      args = no_args;
      signature = ps_signature;
      priority = priority;
    };
    nul_separated = false;
  };
  source = codes "official";
  precedence = precedence;
}

abbrev ps_plain : Entry
ps_plain = variant (codes "ps") (codes "plain") 1 5 1

abbrev ps_wide : Entry
ps_wide = variant (codes "ps") (codes "wide") 2 7 1

abbrev top_late : Entry
top_late = variant (codes "top") (codes "batch") 3 9 2

abbrev two_fit : List Entry
two_fit = ps_plain ∷ ps_wide ∷ []

wide_chosen : (settle (ps_plain ∷ ps_wide ∷ top_late ∷ [])).best ≡ some ps_wide
unfolding settle same
wide_chosen = refl

settle-Wins_example :
    ((settle (ps_plain ∷ ps_wide ∷ top_late ∷ [])).best ≡ some ps_wide)
    ↔ Wins ps_wide (ps_plain ∷ ps_wide ∷ top_late ∷ [])
settle-Wins_example = settle-Wins (ps_plain ∷ ps_wide ∷ top_late ∷ []) ps_wide

settled : settled_between two_fit (top_late ∷ []) ≡ true
unfolding settled_between settle same
settled = refl

late_dropped : kept (λ _. false) (top_late ∷ []) ≡ []
unfolding kept
late_dropped = refl

both_listed : Permᴰ (two_fit ++ kept (λ _. false) (top_late ∷ [])) (ps_wide ∷ ps_plain ∷ [])
unfolding kept
both_listed = Permᴰ.swap refl refl

settled_between-settle_example :
    (settle (ps_wide ∷ ps_plain ∷ [])).best ≡ (settle (two_fit ++ top_late ∷ [])).best
settled_between-settle_example =
    settled_between-settle two_fit (top_late ∷ []) (ps_wide ∷ ps_plain ∷ []) (λ _. false)
      (unfold settled_between in (refl, (refl, (refl, tt)))) settled both_listed

abbrev piped : Context
piped = record {
  parser = codes "ps";
  variant = [];
  os = [];
  args = none;
  input = codes "PID TTY\n1 pts";
  nul = false;
}

abbrev first_line : List Text
first_line = codes "PID TTY" ∷ []

first_line_decides : decide piped first_line ps_plain ≡ decided_fits
unfolding decide wrong_nul wrong_os wrong_args unsigned decide_lines judge_signature signature_lines
    join_lines opens_with_p
first_line_decides = refl

decide-check_example :
    Known
      (decide piped first_line ps_plain)
      (ok (check piped (first_line ++ codes "1 pts" ∷ []) ps_plain))
decide-check_example =
    decide-check piped first_line (codes "1 pts" ∷ []) ps_plain ps_signature-IsSignature

search-Reports_example : Reports (search piped first_line (ps_plain ∷ ps_wide ∷ top_late ∷ [])) (
    fitting piped first_line
      (with_claims piped (ps_plain ∷ ps_wide ∷ top_late ∷ []))
      (ps_plain ∷ ps_wide ∷ top_late ∷ []))
search-Reports_example = search-Reports piped first_line (ps_plain ∷ ps_wide ∷ top_late ∷ [])

abbrev loaded : Registry
loaded = record {
  all = ps_plain ∷ ps_wide ∷ top_late ∷ [];
  by_command = (codes "ps", two_fit) ∷ (codes "top", top_late ∷ []) ∷ [];
  names = codes "ps" ∷ codes "top" ∷ [];
}

twenty_lines : (window loaded piped).0 ≡ 20
unfolding window lookup
twenty_lines = refl

both_IsBounded : All IsBounded (searched loaded piped)
unfolding scope variants same lookup
both_IsBounded = (omega arith, (omega arith, tt))

window-check_example :
    All (IsKnownFrom (window loaded piped).0 piped first_line) (searched loaded piped)
window-check_example = window-check loaded piped first_line both_IsBounded

offered :
    suggest (codes "lscpuu") (codes "ls" ∷ codes "lscpu" ∷ codes "lsblk" ∷ []) ≡ codes "lscpu" ∷ []
unfolding suggest levenshtein runes
offered = refl

levenshtein-IsLeast_example :
    IsLeast
      (runes (codes "lscpuu"))
      (runes (codes "lspci"))
      (levenshtein (codes "lscpuu") (codes "lspci"))
levenshtein-IsLeast_example = levenshtein-IsLeast (codes "lscpuu") (codes "lspci")
