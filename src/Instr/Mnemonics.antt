-- ===== src/Instr/Mnemonics.antt =====
-- include/priv/instr.h: the instruction types, numbered as in C; `IT_Max` is left out.
use dbrew.Prelude.{ℕ, Bool, ◌==◌}

-- `InstrType`.
pub data InstrType : Type 0 where
  it_none it_invalid it_hint_call it_hint_ret it_nop it_cltq it_cwtl it_cqto it_push : InstrType
  it_pushf it_pushfq it_pop it_popf it_popfq it_leave it_mov it_movd it_movq it_movsx : InstrType
  it_lea it_movzx it_neg it_not it_inc it_dec it_add it_adc it_sub it_sbb it_imul it_idiv1 :
      InstrType
  it_mul it_div it_xor it_and it_or it_cmp it_test it_bsf it_shl it_shr it_sar it_call : InstrType
  it_ret it_jmp it_jmpi it_jo it_jno it_jc it_jnc it_jz it_jnz it_jbe it_ja it_js it_jns : InstrType
  it_jp it_jnp it_jl it_jge it_jle it_jg it_cmovo it_cmovno it_cmovc it_cmovnc it_cmovz : InstrType
  it_cmovnz it_cmovbe it_cmova it_cmovs it_cmovns it_cmovp it_cmovnp it_cmovl it_cmovge : InstrType
  it_cmovle it_cmovg it_seto it_setno it_setc it_setnc it_setz it_setnz it_setbe it_seta : InstrType
  it_sets it_setns it_setp it_setnp it_setl it_setge it_setle it_setg it_movss it_movsd : InstrType
  it_movups it_movupd it_movaps it_movapd it_movdqu it_movdqa it_movlpd it_movlps it_movhpd :
      InstrType
  it_movhps it_unpcklps it_unpcklpd it_unpckhps it_unpckhpd it_addss it_addsd it_addps : InstrType
  it_addpd it_subss it_subsd it_subps it_subpd it_mulss it_mulsd it_mulps it_mulpd it_divss :
      InstrType
  it_divsd it_divps it_divpd it_xorps it_xorpd it_orps it_orpd it_andps it_andpd it_andnps :
      InstrType
  it_andnpd it_maxss it_maxsd it_maxps it_maxpd it_minss it_minsd it_minps it_minpd : InstrType
  it_sqrtss it_sqrtsd it_sqrtps it_sqrtpd it_comiss it_comisd it_ucomiss it_ucomisd : InstrType
  it_addsubps it_addsubpd it_haddps it_haddpd it_hsubps it_hsubpd it_rcpss it_rcpps : InstrType
  it_rsqrtss it_rsqrtps it_pcmpeqb it_pcmpeqw it_pcmpeqd it_pminub it_pmovmskb it_pxor : InstrType
  it_paddq it_vmovss it_vmovsd it_vmovups it_vmovupd it_vmovaps it_vmovapd it_vmovdqu : InstrType
  it_vmovdqa it_vmovntdq it_vaddss it_vaddsd it_vaddps it_vaddpd it_vmulss it_vmulsd : InstrType
  it_vmulps it_vmulpd it_vxorps it_vxorpd it_vzeroupper it_vzeroall : InstrType

abbrev pub it_code : InstrType → ℕ
it_code it_none = 0
it_code it_invalid = 1
it_code it_hint_call = 2
it_code it_hint_ret = 3
it_code it_nop = 4
it_code it_cltq = 5
it_code it_cwtl = 6
it_code it_cqto = 7
it_code it_push = 8
it_code it_pushf = 9
it_code it_pushfq = 10
it_code it_pop = 11
it_code it_popf = 12
it_code it_popfq = 13
it_code it_leave = 14
it_code it_mov = 15
it_code it_movd = 16
it_code it_movq = 17
it_code it_movsx = 18
it_code it_lea = 19
it_code it_movzx = 20
it_code it_neg = 21
it_code it_not = 22
it_code it_inc = 23
it_code it_dec = 24
it_code it_add = 25
it_code it_adc = 26
it_code it_sub = 27
it_code it_sbb = 28
it_code it_imul = 29
it_code it_idiv1 = 30
it_code it_mul = 31
it_code it_div = 32
it_code it_xor = 33
it_code it_and = 34
it_code it_or = 35
it_code it_cmp = 36
it_code it_test = 37
it_code it_bsf = 38
it_code it_shl = 39
it_code it_shr = 40
it_code it_sar = 41
it_code it_call = 42
it_code it_ret = 43
it_code it_jmp = 44
it_code it_jmpi = 45
it_code it_jo = 46
it_code it_jno = 47
it_code it_jc = 48
it_code it_jnc = 49
it_code it_jz = 50
it_code it_jnz = 51
it_code it_jbe = 52
it_code it_ja = 53
it_code it_js = 54
it_code it_jns = 55
it_code it_jp = 56
it_code it_jnp = 57
it_code it_jl = 58
it_code it_jge = 59
it_code it_jle = 60
it_code it_jg = 61
it_code it_cmovo = 62
it_code it_cmovno = 63
it_code it_cmovc = 64
it_code it_cmovnc = 65
it_code it_cmovz = 66
it_code it_cmovnz = 67
it_code it_cmovbe = 68
it_code it_cmova = 69
it_code it_cmovs = 70
it_code it_cmovns = 71
it_code it_cmovp = 72
it_code it_cmovnp = 73
it_code it_cmovl = 74
it_code it_cmovge = 75
it_code it_cmovle = 76
it_code it_cmovg = 77
it_code it_seto = 78
it_code it_setno = 79
it_code it_setc = 80
it_code it_setnc = 81
it_code it_setz = 82
it_code it_setnz = 83
it_code it_setbe = 84
it_code it_seta = 85
it_code it_sets = 86
it_code it_setns = 87
it_code it_setp = 88
it_code it_setnp = 89
it_code it_setl = 90
it_code it_setge = 91
it_code it_setle = 92
it_code it_setg = 93
it_code it_movss = 94
it_code it_movsd = 95
it_code it_movups = 96
it_code it_movupd = 97
it_code it_movaps = 98
it_code it_movapd = 99
it_code it_movdqu = 100
it_code it_movdqa = 101
it_code it_movlpd = 102
it_code it_movlps = 103
it_code it_movhpd = 104
it_code it_movhps = 105
it_code it_unpcklps = 106
it_code it_unpcklpd = 107
it_code it_unpckhps = 108
it_code it_unpckhpd = 109
it_code it_addss = 110
it_code it_addsd = 111
it_code it_addps = 112
it_code it_addpd = 113
it_code it_subss = 114
it_code it_subsd = 115
it_code it_subps = 116
it_code it_subpd = 117
it_code it_mulss = 118
it_code it_mulsd = 119
it_code it_mulps = 120
it_code it_mulpd = 121
it_code it_divss = 122
it_code it_divsd = 123
it_code it_divps = 124
it_code it_divpd = 125
it_code it_xorps = 126
it_code it_xorpd = 127
it_code it_orps = 128
it_code it_orpd = 129
it_code it_andps = 130
it_code it_andpd = 131
it_code it_andnps = 132
it_code it_andnpd = 133
it_code it_maxss = 134
it_code it_maxsd = 135
it_code it_maxps = 136
it_code it_maxpd = 137
it_code it_minss = 138
it_code it_minsd = 139
it_code it_minps = 140
it_code it_minpd = 141
it_code it_sqrtss = 142
it_code it_sqrtsd = 143
it_code it_sqrtps = 144
it_code it_sqrtpd = 145
it_code it_comiss = 146
it_code it_comisd = 147
it_code it_ucomiss = 148
it_code it_ucomisd = 149
it_code it_addsubps = 150
it_code it_addsubpd = 151
it_code it_haddps = 152
it_code it_haddpd = 153
it_code it_hsubps = 154
it_code it_hsubpd = 155
it_code it_rcpss = 156
it_code it_rcpps = 157
it_code it_rsqrtss = 158
it_code it_rsqrtps = 159
it_code it_pcmpeqb = 160
it_code it_pcmpeqw = 161
it_code it_pcmpeqd = 162
it_code it_pminub = 163
it_code it_pmovmskb = 164
it_code it_pxor = 165
it_code it_paddq = 166
it_code it_vmovss = 167
it_code it_vmovsd = 168
it_code it_vmovups = 169
it_code it_vmovupd = 170
it_code it_vmovaps = 171
it_code it_vmovapd = 172
it_code it_vmovdqu = 173
it_code it_vmovdqa = 174
it_code it_vmovntdq = 175
it_code it_vaddss = 176
it_code it_vaddsd = 177
it_code it_vaddps = 178
it_code it_vaddpd = 179
it_code it_vmulss = 180
it_code it_vmulsd = 181
it_code it_vmulps = 182
it_code it_vmulpd = 183
it_code it_vxorps = 184
it_code it_vxorpd = 185
it_code it_vzeroupper = 186
it_code it_vzeroall = 187

infix 50 ◌it_is◌
abbrev pub ◌it_is◌ : InstrType → InstrType → Bool
a it_is b = it_code a == it_code b
