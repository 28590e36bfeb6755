-- ===== src/Translator.antt =====
-- tools/translator: MIPS machine code to the assembler of the Java machine.
pub mod Mips
pub mod Registers
pub mod Emit
pub mod Jvm
pub mod Run
pub mod Frame
pub mod Jumps
pub mod Blocks
pub mod Calls
pub mod CallTable
pub mod Writes
pub mod Instructions
pub mod Memory
pub mod Opcodes
pub mod Decode
pub mod Assembly
pub mod Usage
mod Tests
