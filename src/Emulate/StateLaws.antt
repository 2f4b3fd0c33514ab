-- ===== src/Emulate/StateLaws.antt =====
-- What `esIsEqual` guarantees.
use dbrew.Prelude.{ℕ, zero, suc, ◌≡◌, true, Option, some, List, [], ◌∷◌, arith, get_elem?}
use dbrew.Emulate.Meta.{ms_is_static}
use dbrew.Emulate.State.{Cell, EmuState, normalize, cs_is_equal, cells_equal, es_is_equal}

cells_equal_sound :
    (p1 p2 : Option ℕ) (l1 l2 : List Cell) (i : ℕ) (c1 c2 : Cell)
    → cells_equal p1 l1 p2 l2 ≡ true
    → get_elem? l1 i ≡ some c1
    → get_elem? l2 i ≡ some c2
    → cs_is_equal p1 c1 p2 c2 ≡ true
unfolding cells_equal
cells_equal_sound p1 p2 [] l2 i c1 c2 h e1 e2 = absurd (ground arith)
cells_equal_sound p1 p2 (a ∷ l1) [] i c1 c2 h e1 e2 = absurd (ground arith)
cells_equal_sound p1 p2 (a ∷ l1) (b ∷ l2) zero c1 c2 h e1 e2 = ground arith
cells_equal_sound p1 p2 (a ∷ l1) (b ∷ l2) (suc i) c1 c2 h e1 e2 =
    cells_equal_sound p1 p2 l1 l2 i c1 c2 (ground arith) e1 e2

-- If `esIsEqual` finds two states equal, every register that is static in the first is static in
-- the second with the same value, and the return stacks have the same depth.
pub es_is_equal_sound :
    (a b : EmuState) (i : ℕ) (c1 c2 : Cell)
    → es_is_equal a b ≡ true
    → get_elem? a.regs i ≡ some c1
    → get_elem? b.regs i ≡ some c2
    → ms_is_static c1.state ≡ true
    → (ms_is_static c2.state ≡ true) × (c1.val ≡ c2.val) × (a.depth ≡ b.depth)
unfolding es_is_equal ms_is_static cs_is_equal normalize
es_is_equal_sound a b i c1 c2 h e1 e2 s =
    let r = cells_equal_sound a.parent b.parent a.regs b.regs i c1 c2 (ground arith) e1 e2 in
    ground (arith, r)
