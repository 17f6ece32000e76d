-- ===== src/Engine/Ledger.antt =====
-- pkg/engine/ledger.go: which of the lines handed to the parsers were read. The ledger is not nil; a
-- reading that keeps none marks nothing.
use jsonize.Prelude.{
  leb, take, codes, Text, ◌++◌, ℕ, zero, suc, ◌+◌, ◌-◌, ◌≤◌, ◌<◌, ◌≡◌, refl, Bool, true, false,
  ◌&&◌, ◌||◌, List, [], ◌∷◌, arith, length, if◌then◌else◌, ltb, ◌==◌,
}
use jsonize.Space.{blank}
use jsonize.Engine.Line.{Line, UnreadSpan}

pub record Ledger : Type 0 where
  pub base : ℕ
  pub read : List Bool

-- `make([]bool, n)`
abbrev pub falses : ℕ → List Bool
falses zero = []
falses (suc n) = false ∷ falses n

abbrev last_num : ℕ → List Line → ℕ
last_num n [] = n
last_num n (l ∷ ls) = last_num l.num ls

-- The numbers of the lines ascend.
unfoldable pub new_ledger : List Line → Ledger
new_ledger [] = record { base = 0; read = [] }
new_ledger (l ∷ ls) = record { base = l.num; read = falses (last_num l.num ls - l.num + 1) }

-- `l.read[i] = true`, in range
unfoldable pub mark_at : List Bool → ℕ → List Bool
mark_at [] i = []
mark_at (b ∷ bs) zero = true ∷ bs
mark_at (b ∷ bs) (suc i) = b ∷ mark_at bs i

unfoldable pub mark_one : Ledger → Line → Ledger
mark_one g x =
    if leb g.base x.num && ltb (x.num - g.base) (length g.read)
    then record g { read = mark_at g.read (x.num - g.base) }
    else g

unfoldable pub mark : Ledger → List Line → Ledger
mark g [] = g
mark g (x ∷ xs) = mark (mark_one g x) xs

-- `l.read[i]`
unfoldable pub read_at : List Bool → ℕ → Bool
read_at [] i = false
read_at (b ∷ bs) zero = b
read_at (b ∷ bs) (suc i) = read_at bs i

unfoldable pub is_read : Ledger → Line → Bool
is_read g x =
    leb g.base x.num && ltb (x.num - g.base) (length g.read) && read_at g.read (x.num - g.base)

unfoldable pub truncate : Text → ℕ → Text
truncate s n = if leb (length s) n then s else take n s ++ codes "..."

unfoldable pub unread_lines : Ledger → List Line → List UnreadSpan
unread_lines g [] = []
unread_lines g (x ∷ xs) =
    if is_read g x || blank x.text
    then unread_lines g xs
    else record { line = x.num; column = 0; text = truncate x.text 80 } ∷ unread_lines g xs

-- `count` adds to the lines read, and to the blank ones.
unfoldable pub count_read : Ledger → List Line → ℕ
count_read g [] = 0
count_read g (x ∷ xs) = (if is_read g x then 1 else 0) + count_read g xs

unfoldable pub count_blank : Ledger → List Line → ℕ
count_blank g [] = 0
count_blank g (x ∷ xs) =
    (if is_read g x then 0 else if blank x.text then 1 else 0) + count_blank g xs

-- Every line is read, blank or reported unread.
pub ledger-total :
    (g : Ledger) (ls : List Line)
    → count_read g ls + count_blank g ls + length (unread_lines g ls) ≡ length ls
unfolding count_read count_blank unread_lines
ledger-total g [] = refl
ledger-total g (x ∷ xs) = ground (arith, ledger-total g xs)

read_at-mark_at :
    (bs : List Bool) (i j : ℕ)
    → i < length bs
    → read_at (mark_at bs i) j ≡ (if i == j then true else read_at bs j)
unfolding read_at mark_at
read_at-mark_at [] i j h = absurd (omega arith)
read_at-mark_at (b ∷ bs) zero zero h = refl
read_at-mark_at (b ∷ bs) zero (suc j) h = ground arith
read_at-mark_at (b ∷ bs) (suc i) zero h = ground arith
read_at-mark_at (b ∷ bs) (suc i) (suc j) h = ground (arith, read_at-mark_at bs i j)

length-mark_at : (bs : List Bool) (i : ℕ) → length (mark_at bs i) ≡ length bs
unfolding mark_at
length-mark_at [] i = refl
length-mark_at (b ∷ bs) zero = refl
length-mark_at (b ∷ bs) (suc i) = omega (arith, length-mark_at bs i)

-- The ledger covers a line.
abbrev pub Covers : Ledger → Line → Type 0
Covers g x = (g.base ≤ x.num) × (x.num - g.base < length g.read)

mark_one-Covers : (g : Ledger) (x y : Line) → Covers g y → Covers (mark_one g x) y
unfolding mark_one
mark_one-Covers g x y h = ground (arith, length-mark_at g.read (x.num - g.base))

is_read-mark_one :
    (g : Ledger) (x y : Line)
    → Covers g y
    → is_read (mark_one g x) y ≡ (x.num == y.num || is_read g y)
unfolding is_read mark_one
is_read-mark_one g x y h = ground (
  arith,
  length-mark_at g.read (x.num - g.base),
  read_at-mark_at g.read (x.num - g.base) (y.num - g.base),
)

abbrev pub numbered : ℕ → List Line → Bool
numbered n [] = false
numbered n (x ∷ xs) = x.num == n || numbered n xs

-- After `mark` a line that the ledger covers is read exactly if it was read before, or one of the marked
-- lines has its number.
pub is_read-mark :
    (ls : List Line) (g : Ledger) (y : Line)
    → Covers g y
    → is_read (mark g ls) y ≡ (numbered y.num ls || is_read g y)
unfolding mark
is_read-mark [] g y h = refl
is_read-mark (x ∷ xs) g y h =
    ground
      (arith, is_read-mark xs (mark_one g x) y (mark_one-Covers g x y h), is_read-mark_one g x y h)
