-- ===== src/Codec/Parse.antt =====
-- `parseModRM` on the bytes that the generator writes for a memory operand.
use dbrew.Prelude.{ℕ, ◌+◌, ◌/◌, ◌%◌, ◌<◌, bit_and, ◌≡◌, ◌≢◌, some, List, ◌++◌, arith, leb, ◌!=◌}
use dbrew.Prelude.{length}
use dbrew.Codec.Disp.{IsDisp, disp_mod, disp_bytes, disp_mod-lt, disp_mod_zero}
use dbrew.Codec.Disp.{parse_disp-disp_bytes}
use dbrew.Codec.Base.{fields}
use dbrew.Decode.Modrm.{rex_extend, parse_plain}
use dbrew.Decode.Context.{DContext}
use dbrew.Instr.Kinds.{rt_gp64, OpType}
use dbrew.Instr.Types.{Operand}
use dbrew.Prelude.Table.{bit_and_192, bit_and_56, bit_and_7}

-- The three fields of a byte.
pub split_fields :
    (m d r : ℕ)
    → m < 4
    → d < 8
    → r < 8
    → (bit_and (fields m d r) 192 / 64 ≡ m)
      × (bit_and (fields m d r) 56 / 8 ≡ d)
      × (bit_and (fields m d r) 7 ≡ r)
split_fields m d r hm hd hr =
    ground (arith, bit_and_192 (fields m d r), bit_and_56 (fields m d r), bit_and_7 (fields m d r))

-- A register number comes back from its low bits and its REX bit.
pub rex_extend_back :
    (rex mask r : ℕ)
    → r < 16
    → ((bit_and rex mask != 0) ≡ leb 8 r)
    → rex_extend rex mask (r % 8) ≡ r
rex_extend_back rex mask r hr h = ground arith

pub parse_plain_lem :
    (c : DContext) (ot : OpType) (o : Operand) (v r : ℕ) (tail : List ℕ)
    → IsDisp v
    → r < 16
    → r ≢ 4
    → r ≢ 12
    → ((bit_and c.rex 1 != 0) ≡ leb 8 r)
    → c.rest ≡ disp_bytes (disp_mod v r) v ++ tail
    → parse_plain c ot (disp_mod v r) (r % 8) o
      ≡ some (
        record o {
          type = ot;
          seg = c.seg_ov;
          scale = 0;
          val = v;
          reg = record { rt = rt_gp64; ri = r };
        },
        record c { rest = tail; off = c.off + length (disp_bytes (disp_mod v r) v) },
      )
unfolding parse_plain
parse_plain_lem c ot o v r tail hv hr h4 h12 hx e = ground (
  arith,
  parse_disp-disp_bytes c v r tail,
  disp_mod_zero v r,
  disp_mod-lt v r,
  rex_extend_back c.rex 1 r,
)
