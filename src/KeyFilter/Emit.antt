-- ===== src/KeyFilter/Emit.antt =====
-- internal/cli/keys.go, `streamEmit`: one document of a stream. `first` is whether none was handed on
-- before it; what is written is the result, and failures of the writer are not modelled.
use jsonize.Prelude.{
  Bool, true, false, List, [], ◌∷◌, Option, none, some, Text, codes, if◌then◌else◌,
}
use jsonize.Object.{Object, get}
use jsonize.KeyFilter.{
  KeyFilter, UnknownKeyError, Doc, object, array, other, has, agrees, saw, unseen, walk,
}

pub data Shape : Type 0 where
  csv composite records : Shape

pub data Emitted {ℓ} (V : Type ℓ) : Type ℓ where
  written : Doc V → Emitted V
  left_out : Emitted V
  refused : UnknownKeyError → Emitted V

abbrev no_keys : List Text → Bool
no_keys [] = true
no_keys (_ ∷ _) = false

module _ {ℓ} {V : Type ℓ} where
  unfoldable pub emit_csv : Bool → KeyFilter → Doc V → Emitted V × KeyFilter
  emit_csv first f d =
      let r = walk f d in
      if first
      then elim (unseen r.1) [ some e ↦ (refused e, r.1) | none ↦ (written r.0, r.1) ]
      else (written r.0, r.1)

  module _ (as_string : V → Option Text) where
    -- `name, _ := doc.Get("part")` and `part, _ := name.(string)`
    unfoldable pub part_of : Object V → Text
    part_of o = elim (get o (codes "part")) [
      | none ↦ []
      | some v ↦ elim (as_string v) [ some s ↦ s | none ↦ [] ]
    ]

    unfoldable pub emit_part : KeyFilter → Doc V → Emitted V × KeyFilter
    unfolding part_of
    emit_part f (object o) =
        let part = part_of o in
        let named = has part f.keys in
        if no_keys f.keys
        then (written (object o), f)
        else (if agrees named f.keep then written (object o) else left_out, saw f part named)
    emit_part f (array ds) = (written (array ds), f)
    emit_part f (other v) = (written (other v), f)

    unfoldable pub stream_emit : Shape → Bool → KeyFilter → Doc V → Emitted V × KeyFilter
    unfolding emit_csv emit_part
    stream_emit csv first f d = emit_csv first f d
    stream_emit composite first f d = emit_part f d
    stream_emit records first f d = let r = walk f d in (written r.0, r.1)
