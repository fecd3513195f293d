-- ===== src/InsnSet/Rows.antt =====
-- Properties of the rows of a decode table.
use riscv_sim.Prelude.{List, [], ◌∷◌, ◌++◌, ◌⊎◌, inl, inr}
use riscv_sim.Decode.Table.{InsnEntry}
use riscv_sim.Decode.Unique.{IsRow, here, there}

-- A proof for each row of a list.
infixr 55 ◌&◌
pub data AllRows (P : InsnEntry → Type 0) : List InsnEntry → Type 0 where
  no_rows : AllRows P []
  ◌&◌ : {e : InsnEntry} {es : List InsnEntry} → P e → AllRows P es → AllRows P (e ∷ es)

pub AllRows-IsRow :
    {P : InsnEntry → Type 0} {es : List InsnEntry} {e : InsnEntry} → AllRows P es → IsRow e es → P e
AllRows-IsRow no_rows row = elim row [ ]
AllRows-IsRow (p & all) here = p
AllRows-IsRow (p & all) (there row) = AllRows-IsRow all row

pub IsRow-++ :
    (es es' : List InsnEntry) {e : InsnEntry} → IsRow e (es ++ es') → IsRow e es ⊎ IsRow e es'
IsRow-++ [] es' row = inr row
IsRow-++ (_ ∷ es) es' here = inl here
IsRow-++ (_ ∷ es) es' (there row) = elim (IsRow-++ es es' row) [
  | inl before ↦ inl (there before)
  | inr after ↦ inr after
]

pub IsRow-after : (es es' : List InsnEntry) {e : InsnEntry} → IsRow e es' → IsRow e (es ++ es')
IsRow-after [] es' row = row
IsRow-after (_ ∷ es) es' row = there (IsRow-after es es' row)
