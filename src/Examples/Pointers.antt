-- ===== src/Examples/Pointers.antt =====
-- A pointer through a key with a slash, an index, and the end of an array.
use jsonize.Prelude.{◌≡◌, refl, List, [], ◌∷◌, codes, inr, same, true, false}
use jsonize.Pointer.{Token, pointer, token_of, appending, render, location}
use jsonize.Pointer.Rendered.{pointer-render}

abbrev in_array : List Token
in_array =
    record { name = codes "a/b~"; appends = false; index = false }
    ∷ record { name = codes "10"; appends = false; index = true }
    ∷ appending
    ∷ []

in_array_read : pointer (codes "a~1b~0/10/-") ≡ inr in_array
unfolding pointer token_of same
in_array_read = refl

in_array_located : location (codes "/a~1b~0/10/-") false ≡ inr in_array
unfolding location token_of same
in_array_located = refl

pointer-render_example : render in_array ≡ codes "/a~1b~0/10/-"
pointer-render_example = pointer-render (codes "a~1b~0/10/-") in_array in_array_read
