-- ===== src/Examples/Keys.antt =====
-- The keys named on the command line, and a line of labels and values.
use jsonize.Prelude.{Text, ◌≡◌, refl, true, false, [], ◌∷◌, none, codes, same, if◌then◌else◌, ℕ}
use jsonize.Object.{Object, new_object, set, get, find, scan, note_index}
use jsonize.Object.Index.{IsValid, new_object-IsValid, set-IsValid}
use jsonize.KeyFilter.{
  KeyFilter, object, new_key_filter, failing, saw, copy_keys, mark_key, has, agrees, narrow, apply,
  unseen, walk, compact, sorted, put_sorted, less,
}
use jsonize.KeyFilter.Narrow.{left, narrow-left, get-narrow}
use jsonize.KeyFilter.Unseen.{holds_key, apply-holds_key}
use jsonize.KeyFilter.Emit.{refused, csv, stream_emit}
use jsonize.Duration.Number.{cut}
use jsonize.Engine.Split.{cut_records}
use jsonize.Engine.Split.Records.{join_records}
use jsonize.Ltsv.{Counter, ok, ltsv_line}
use jsonize.Ltsv.Lines.{fields_of, ltsv_line-spelled}

abbrev process : Object ℕ
process = set (set new_object (codes "pid") 1) (codes "user") 7

process-IsValid : IsValid process
process-IsValid =
    set-IsValid (set new_object (codes "pid") 1) (codes "user") 7
      (set-IsValid new_object (codes "pid") 1 new_object-IsValid)

abbrev only_pid : KeyFilter
only_pid = new_key_filter (codes "pid" ∷ []) true

narrow-left_example :
    IsValid (narrow only_pid process).0
    × ((narrow only_pid process).0.members ≡ left only_pid process.members)
narrow-left_example = narrow-left only_pid process process-IsValid

get-narrow_example : get (narrow only_pid process).0 (codes "user") ≡ (
    if agrees (has (codes "user") only_pid.keys) only_pid.keep
    then get process (codes "user")
    else none)
get-narrow_example = get-narrow only_pid process (codes "user") process-IsValid

pid_found : (apply only_pid (object process)).1 ≡ none
unfolding apply failing narrow set find new_object scan note_index same saw has new_key_filter
    copy_keys mark_key
pid_found = refl

apply-holds_key_example : holds_key (codes "pid") (object process) ≡ true
apply-holds_key_example =
    apply-holds_key (codes "pid" ∷ []) true (object process) (codes "pid") pid_found
      (unfold has same in refl)

-- a stream of csv records is refused at its first record
csv_refused :
    (stream_emit (λ v. none) csv true (new_key_filter (codes "uid" ∷ []) true) (object process)).0
    ≡ refused
        (record { keys = codes "uid" ∷ []; present = codes "pid" ∷ codes "user" ∷ []; cut = false })
unfolding stream_emit unseen failing walk narrow set find new_object scan note_index same saw has
    new_key_filter copy_keys mark_key compact sorted put_sorted less
csv_refused = refl

abbrev counter : Counter
counter = record { max_values = 10; n = 0; whole = false }

abbrev access : Object Text
access = set (set new_object (codes "host") (codes "::1")) (codes "st") (codes "200")

line_read : ltsv_line (codes "host:::1\tst:200") counter ≡ ok access (record counter { n = 3 })
unfolding ltsv_line set find new_object scan note_index same cut_records cut get
line_read = refl

ltsv_line-spelled_example :
    IsValid access × (join_records b'\t' (fields_of access.members) ≡ codes "host:::1\tst:200")
ltsv_line-spelled_example =
    ltsv_line-spelled (codes "host:::1\tst:200") counter (record counter { n = 3 }) access line_read
