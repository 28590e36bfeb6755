-- ===== src/Translator/Jumps/Taken.antt =====
-- What the Java machine does with a list of instructions that ends in a transfer of control.
use cibyl.Base.{
  ℕ, Option, none, some, List, [], ◌∷◌, ◌++◌, Bool, false, not, ◌==◌, ltb, ◌||◌, ◌&&◌,
  if◌then◌else◌, ◌>>=◌, map, ◌≡◌, ap, >>=-eq-some, Bool-cases, inl, inr,
}
use cibyl.Translator.Emit.{Insn}
use cibyl.Translator.Jvm.{Value, int, Machine, step, slots, exec, is_negative}
use cibyl.Translator.Decode.{Condition, ifeq, ifne, ifge, ifgt, ifle, iflt, if_icmpeq, if_icmpne}
use cibyl.Translator.Jumps.{
  Op, insn, goto, goto_function_return, goto_local_jumptab, condbranch, failure,
}

-- Where control goes: to the next instruction, to a label, to the return of the function, or to the
-- table of labels, with the address that it is given.
pub data Next : Type 0 where
  falls : Next
  to : ℕ → Next
  returns : Next
  looks_up : ℕ → Next

abbrev pub holds : Condition → ℕ → Bool
holds ifeq a = a == 0
holds ifne a = not (a == 0)
holds ifge a = not (is_negative a)
holds ifgt a = not (is_negative a) && not (a == 0)
holds ifle a = is_negative a || (a == 0)
holds iflt a = is_negative a
holds _ a = false

abbrev pub branch : Condition → ℕ → Machine → List Value → Option (Machine × Next)
branch if_icmpeq dst m (int b ∷ int a ∷ s) =
    some (record m { stack = s }, if a == b then to dst else falls)
branch if_icmpne dst m (int b ∷ int a ∷ s) =
    some (record m { stack = s }, if a == b then falls else to dst)
branch if_icmpeq dst m _ = none
branch if_icmpne dst m _ = none
branch bc dst m (int a ∷ s) = some (record m { stack = s }, if holds bc a then to dst else falls)
branch bc dst m _ = none

abbrev pub look_up : Machine → List Value → Option (Machine × Next)
look_up m (int a ∷ s) = some (record m { stack = s }, looks_up a)
look_up m _ = none

-- After a conditional branch that is not taken, what follows is run.
abbrev pub go_on : Next → Machine → Option (Machine × Next) → Option (Machine × Next)
go_on falls m rest = rest
go_on next m rest = some (m, next)

unfoldable pub run : ℕ → List Op → Machine → Option (Machine × Next)
run limit [] m = some (m, falls)
run limit (insn i ∷ ops) m =
    step i m >>= λ m. if ltb limit (slots m.stack) then none else run limit ops m
run limit (goto a ∷ ops) m = some (m, to a)
run limit (goto_function_return ∷ ops) m = some (m, returns)
run limit (goto_local_jumptab ∷ ops) m = look_up m m.stack
run limit (condbranch bc a ∷ ops) m =
    branch bc a m m.stack >>= λ o. go_on o.1 o.0 (run limit ops o.0)
run limit (failure ∷ ops) m = none

-- The instructions in front are run as before.
pub run-insns :
    (limit : ℕ) (code : List Insn) (ops : List Op) (m out : Machine)
    → exec limit code m ≡ some out
    → run limit (map insn code ++ ops) m ≡ run limit ops out
unfolding run exec
run-insns limit [] ops m out h = ap (λ o. o >>= run limit ops) h
run-insns limit (i ∷ code) ops m out h =
    let (n, one, rest) =
      >>=-eq-some (step i m) (λ m. if ltb limit (slots m.stack) then none else exec limit code m)
        h in
    elim (Bool-cases (ltb limit (slots n.stack))) [
      | inl b ↦ let fails = rw b at rest in cc
      | inr b ↦ rw (one, b) (run-insns limit code ops n out (rw b at rest))
    ]
