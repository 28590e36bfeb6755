-- ===== src/Translator/Assembly/Decoding.antt =====
-- The factory makes the class of an instruction from its encoding.
use cibyl.Base.{ℕ, ◌/◌, ◌%◌, ◌^◌, ◌<◌, ◌≡◌, ◌≢◌, refl, ap, ap₂, ◌∙◌, some, arith, ne→==}
use cibyl.Translator.Instructions.{signext_half}
use cibyl.Translator.Decode.{arithmetic, Fields, fields, create, decode, class_of}
use cibyl.Translator.Assembly.{
  RegisterOperation, add_r, addu_r, sub_r, subu_r, and_r, or_r, xor_r, nor_r, slt_r, sltu_r, sllv_r,
  srlv_r, srav_r, ShiftOperation, sll_s, srl_s, sra_s, ImmediateOperation, addi_i, addiu_i, slti_i,
  sltiu_i, andi_i, ori_i, xori_i, lui_i, MemoryOperation, lb_m, lh_m, lw_m, lbu_m, lhu_m, sb_m,
  sh_m, sw_m, Assembly, register, shifted, immediate, access, r_word, i_word, r_func, s_func,
  i_major, m_major, encode, r_class, s_class, i_class, m_class, class, IsEncodable,
}

-- A word that is no system call or catch is decoded by its fields.
create-decode :
    (w major rs rt rd : ℕ)
    → w / 2 ^ 24 ≢ 255
    → w / 2 ^ 16 ≢ 65278
    → w / 2 ^ 24 ≢ 253
    → w / 2 ^ 26 % 2 ^ 6 ≡ major
    → w / 2 ^ 21 % 2 ^ 5 ≡ rs
    → w / 2 ^ 16 % 2 ^ 5 ≡ rt
    → w / 2 ^ 11 % 2 ^ 5 ≡ rd
    → create w ≡ decode (record (fields w) { major = major; rs = rs; rt = rt; rd = rd })
create-decode w major rs rt rd n1 n2 n3 f0 f1 f2 f3 =
    let split : fields w ≡ record (fields w) { major = major; rs = rs; rt = rt; rd = rd } =
      rw (f0, f1, f2, f3) refl in
    rw (ne→== (w / 2 ^ 24) 255 n1, ne→== (w / 2 ^ 16) 65278 n2, ne→== (w / 2 ^ 24) 253 n3)
      (ap (λ (f : Fields). decode f) split)

create-r_word :
    (rs rt rd amount func : ℕ)
    → rs < 32
    → rt < 32
    → rd < 32
    → amount < 32
    → func < 64
    → create (r_word rs rt rd amount func)
      ≡ decode (record {
        word = r_word rs rt rd amount func;
        major = 0;
        rs = rs;
        rt = rt;
        rd = rd;
        amount = amount;
        func = func;
      })
create-r_word rs rt rd amount func a b c d e =
    let w = r_word rs rt rd amount func in
    let low : w / 2 ^ 6 % 2 ^ 5 ≡ amount = omega arith in
    let last : w % 2 ^ 6 ≡ func = omega arith in
    create-decode w 0 rs rt rd (omega arith) (omega arith) (omega arith) (omega arith) (omega arith)
      (omega arith) (omega arith)
    ∙ ap₂
        (λ (x y : ℕ).
          decode (record { word = w; major = 0; rs = rs; rt = rt; rd = rd; amount = x; func = y }))
        low last

create-i_word :
    (major rs rt half : ℕ)
    → major < 63
    → rs < 32
    → rt < 32
    → half < 2 ^ 16
    → create (i_word major rs rt half)
      ≡ decode (record (fields (i_word major rs rt half)) {
        major = major;
        rs = rs;
        rt = rt;
        rd = half / 2 ^ 11;
      })
create-i_word major rs rt half a b c d =
    create-decode (i_word major rs rt half) major rs rt (half / 2 ^ 11) (omega arith) (omega arith)
      (omega arith) (omega arith) (omega arith) (omega arith) (omega arith)

i_word-half : (major rs rt half : ℕ) → half < 2 ^ 16 → i_word major rs rt half % 2 ^ 16 ≡ half
i_word-half major rs rt half h = omega arith

r_func-small : (op : RegisterOperation) → r_func op < 64
r_func-small add_r = omega arith
r_func-small addu_r = omega arith
r_func-small sub_r = omega arith
r_func-small subu_r = omega arith
r_func-small and_r = omega arith
r_func-small or_r = omega arith
r_func-small xor_r = omega arith
r_func-small nor_r = omega arith
r_func-small slt_r = omega arith
r_func-small sltu_r = omega arith
r_func-small sllv_r = omega arith
r_func-small srlv_r = omega arith
r_func-small srav_r = omega arith

s_func-small : (op : ShiftOperation) → s_func op < 64
s_func-small sll_s = omega arith
s_func-small srl_s = omega arith
s_func-small sra_s = omega arith

i_major-small : (op : ImmediateOperation) → i_major op < 63
i_major-small addi_i = omega arith
i_major-small addiu_i = omega arith
i_major-small slti_i = omega arith
i_major-small sltiu_i = omega arith
i_major-small andi_i = omega arith
i_major-small ori_i = omega arith
i_major-small xori_i = omega arith
i_major-small lui_i = omega arith

m_major-small : (op : MemoryOperation) → m_major op < 63
m_major-small lb_m = omega arith
m_major-small lh_m = omega arith
m_major-small lw_m = omega arith
m_major-small lbu_m = omega arith
m_major-small lhu_m = omega arith
m_major-small sb_m = omega arith
m_major-small sh_m = omega arith
m_major-small sw_m = omega arith

abbrev r_fields : (word rs rt rd amount func : ℕ) → Fields
r_fields word rs rt rd amount func = record {
  word = word;
  major = 0;
  rs = rs;
  rt = rt;
  rd = rd;
  amount = amount;
  func = func;
}

decode-register :
    (op : RegisterOperation) (word rs rt rd : ℕ)
    → decode (r_fields word rs rt rd 0 (r_func op)) ≡ some (arithmetic (r_class op rs rt rd))
unfolding class_of
decode-register add_r word rs rt rd = refl
decode-register addu_r word rs rt rd = refl
decode-register sub_r word rs rt rd = refl
decode-register subu_r word rs rt rd = refl
decode-register and_r word rs rt rd = refl
decode-register or_r word rs rt rd = refl
decode-register xor_r word rs rt rd = refl
decode-register nor_r word rs rt rd = refl
decode-register slt_r word rs rt rd = refl
decode-register sltu_r word rs rt rd = refl
decode-register sllv_r word rs rt rd = refl
decode-register srlv_r word rs rt rd = refl
decode-register srav_r word rs rt rd = refl

decode-shifted :
    (op : ShiftOperation) (word rt rd amount : ℕ)
    → decode (r_fields word 0 rt rd amount (s_func op))
      ≡ some (arithmetic (s_class op rt rd amount))
unfolding class_of
decode-shifted sll_s word rt rd amount = refl
decode-shifted srl_s word rt rd amount = refl
decode-shifted sra_s word rt rd amount = refl

abbrev i_fields : (f : Fields) (major rs rt half : ℕ) → Fields
i_fields f major rs rt half = record f { major = major; rs = rs; rt = rt; rd = half / 2 ^ 11 }

decode-immediate :
    (op : ImmediateOperation) (f : Fields) (rs rt half : ℕ)
    → f.word % 2 ^ 16 ≡ half
    → decode (i_fields f (i_major op) rs rt half) ≡ some (arithmetic (i_class op rs rt half))
unfolding class_of
decode-immediate addi_i f rs rt half e = rw e refl
decode-immediate addiu_i f rs rt half e = rw e refl
decode-immediate slti_i f rs rt half e = rw e refl
decode-immediate sltiu_i f rs rt half e = rw e refl
decode-immediate andi_i f rs rt half e = rw e refl
decode-immediate ori_i f rs rt half e = rw e refl
decode-immediate xori_i f rs rt half e = rw e refl
decode-immediate lui_i f rs rt half e = rw e refl

decode-access :
    (op : MemoryOperation) (f : Fields) (rs rt half : ℕ)
    → f.word % 2 ^ 16 ≡ half
    → decode (i_fields f (m_major op) rs rt half) ≡ some (m_class op rs rt (signext_half half))
unfolding class_of
decode-access lb_m f rs rt half e = rw e refl
decode-access lh_m f rs rt half e = rw e refl
decode-access lw_m f rs rt half e = rw e refl
decode-access lbu_m f rs rt half e = rw e refl
decode-access lhu_m f rs rt half e = rw e refl
decode-access sb_m f rs rt half e = rw e refl
decode-access sh_m f rs rt half e = rw e refl
decode-access sw_m f rs rt half e = rw e refl

-- The additions, subtractions, comparisons and bit operations, of two registers or of one and a
-- constant, the shifts, `lui`, and the loads and stores of a byte, a half or a word are decoded
-- from their encodings to the class and the operands that translate them.
pub create-encode : (a : Assembly) → IsEncodable a → create (encode a) ≡ some (class a)
create-encode (register op rs rt rd) (a, b, c) =
    create-r_word rs rt rd 0 (r_func op) a b c (omega arith) (r_func-small op)
    ∙ decode-register op (r_word rs rt rd 0 (r_func op)) rs rt rd
create-encode (shifted op rt rd amount) (b, c, d) =
    create-r_word 0 rt rd amount (s_func op) (omega arith) b c d (s_func-small op)
    ∙ decode-shifted op (r_word 0 rt rd amount (s_func op)) rt rd amount
create-encode (immediate op rs rt half) (a, b, d) =
    let w = i_word (i_major op) rs rt half in
    create-i_word (i_major op) rs rt half (i_major-small op) a b d
    ∙ decode-immediate op (fields w) rs rt half (i_word-half (i_major op) rs rt half d)
create-encode (access op rs rt half) (a, b, d) =
    let w = i_word (m_major op) rs rt half in
    create-i_word (m_major op) rs rt half (m_major-small op) a b d
    ∙ decode-access op (fields w) rs rt half (i_word-half (m_major op) rs rt half d)
